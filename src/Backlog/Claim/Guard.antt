-- ===== src/Backlog/Claim/Guard.antt =====
-- What a claim without `force` has made sure of.
use horus_harness.Prelude.{String, Bool, true, false, some, List, [], ◌∷◌, ◌++◌}
use horus_harness.Prelude.{◌≡◌, refl, ap, ◌⊎◌, inl, inr, ◌≢◌, ◌==◌, ◌&&◌, ◌||◌, arith, eq_iff}
use horus_harness.Prelude.{
  not, filter, any, In, filter-In, ne_of_test, ok, Bool-cases, ok-injective,
}
use horus_harness.Backlog.{Card, Folder, load_cards, find_card}
use horus_harness.Backlog.Readiness.Findings.{Finding}
use horus_harness.Backlog.Claim.{
  pair_overlaps, surface_overlap, overlaps_with, overlap_finding, conflict, is_other, conflicts,
  claim_check, is_fail, Claimed, claim, is_empty, is_empty_findings,
}

append-empty : {A : Type 0} (xs ys : List A) → xs ++ ys ≡ [] → (xs ≡ []) × (ys ≡ [])
append-empty [] ys h = (refl, h)
append-empty (x ∷ xs) ys h = absurd (cc h)

or-false : (a b : Bool) → (a || b) ≡ false → (a ≡ false) × (b ≡ false)
or-false false b h = (refl, h)
or-false true b h = absurd (cc h)

is_empty_findings-empty : (fs : List Finding) → is_empty_findings fs ≡ true → fs ≡ []
is_empty_findings-empty [] h = refl
is_empty_findings-empty (f ∷ fs) h = absurd (cc h)

module _ (match : String → String → Bool) where
  overlaps_with-empty :
      (x : String) (ys : List String)
      → overlaps_with match x ys ≡ []
      → (y : String) → In y ys
      → pair_overlaps match x y ≡ false
  overlaps_with-empty x [] h y m = absurd m
  overlaps_with-empty x (z ∷ ys) h y m = elim (Bool-cases (pair_overlaps match x z)) [
    | inl e ↦ absurd (cc (rw e at h))
    | inr e ↦ at (overlaps_with-empty x ys (rw e at h) y) e m
  ]
    where
      at :
          (In y ys → pair_overlaps match x y ≡ false)
          → pair_overlaps match x z ≡ false
          → (y ≡ z) ⊎ In y ys
          → pair_overlaps match x y ≡ false
      at rest e (inl same) = rw same e
      at rest e (inr later) = rest later

  surface_overlap-empty :
      (xs ys : List String)
      → surface_overlap match xs ys ≡ []
      → (x y : String) → In x xs
      → In y ys
      → pair_overlaps match x y ≡ false
  unfolding surface_overlap
  surface_overlap-empty [] ys h x y mx my = absurd mx
  surface_overlap-empty (z ∷ xs) ys h x y (inl e) my = rw e (
      overlaps_with-empty z ys
        (append-empty (overlaps_with match z ys) (surface_overlap match xs ys) h).0 y my)
  surface_overlap-empty (z ∷ xs) ys h x y (inr m) my =
      surface_overlap-empty xs ys
        (append-empty (overlaps_with match z ys) (surface_overlap match xs ys) h).1 x y m my

  -- The two cards may run at the same time: neither is exclusive, both have a surface, and no two
  -- of their globs match each other.
  abbrev pub IsApart : Card → Card → Type 0
  IsApart a b =
      (a.parallel ≢ "exclusive")
      × (b.parallel ≢ "exclusive")
      × (a.surface ≢ [])
      × (b.surface ≢ [])
      × ((x y : String) → In x a.surface → In y b.surface → pair_overlaps match x y ≡ false)

  is_empty-false : (xs : List String) → is_empty match xs ≡ false → xs ≢ []
  is_empty-false [] h e = cc h
  is_empty-false (x ∷ xs) h e = cc e

  overlap_finding-empty :
      (a b : Card) (pairs : List (String × String))
      → overlap_finding match a b pairs ≡ []
      → pairs ≡ []
  overlap_finding-empty a b [] h = refl
  overlap_finding-empty a b (p ∷ pairs) h = absurd (cc h)

  together :
      (a b : Card)
      → (a.parallel == "exclusive" || b.parallel == "exclusive") ≡ false
      → (is_empty match a.surface || is_empty match b.surface) ≡ false
      → surface_overlap match a.surface b.surface ≡ []
      → IsApart a b
  together a b e e2 h =
      let (exclusive_a, exclusive_b) = or-false _ _ e in
      let (empty_a, empty_b) = or-false _ _ e2 in
      (
        ne_of_test a.parallel "exclusive" exclusive_a,
        ne_of_test b.parallel "exclusive" exclusive_b,
        is_empty-false a.surface empty_a,
        is_empty-false b.surface empty_b,
        surface_overlap-empty a.surface b.surface h,
      )

  conflict-IsApart : (a b : Card) → conflict match a b ≡ [] → IsApart a b
  unfolding conflict
  conflict-IsApart a b h =
      elim (Bool-cases (a.parallel == "exclusive" || b.parallel == "exclusive")) [
        | inl e ↦ absurd (cc (rw e at h))
        | inr e ↦ elim (Bool-cases (is_empty match a.surface || is_empty match b.surface)) [
          | inl e2 ↦ absurd (cc (rw (e, e2) at h))
          | inr e2 ↦ together a b e e2 (overlap_finding-empty a b _ (rw (e, e2) at h))
        ]
      ]

  conflicts-In :
      (target : Card) (cs : List Card)
      → conflicts match target cs ≡ []
      → (c : Card) → In c cs
      → conflict match target c ≡ []
  conflicts-In target [] h c m = absurd m
  conflicts-In target (d ∷ cs) h c (inl e) =
      rw e (append-empty (conflict match target d) (conflicts match target cs) h).0
  conflicts-In target (d ∷ cs) h c (inr m) =
      conflicts-In target cs
        (append-empty (conflict match target d) (conflicts match target cs) h).1 c m

  other_claimed :
      (target other : Card)
      → other.name ≢ target.name
      → other.status ≡ "claimed"
      → is_other match target other ≡ true
  other_claimed target other ne s =
      ground (arith, eq_iff other.name target.name, eq_iff other.status "claimed")

  claimed-clean :
      (folder : Folder) (name : String) (c : Claimed)
      → claim match folder name false ≡ ok c
      → c.claimed ≡ true
      → claim_check match folder name ≡ []
  unfolding claim
  claimed-clean folder name c h done =
      elim (Bool-cases (
        any is_fail (claim_check match folder name)
        || (not (is_empty_findings (claim_check match folder name)) && true))) [
          | inl e ↦ absurd (cc (ap (λ r. r.claimed) (ok-injective (rw e at h)), done))
          | inr e ↦ is_empty_findings-empty (claim_check match folder name) (ground arith)
        ]

  -- A claim without `force` that succeeds: whatever other card is claimed, neither it nor the
  -- target is exclusive, both have a surface, and none of their globs match.
  pub claim-IsApart :
      (folder : Folder) (name : String) (c : Claimed) (target other : Card)
      → claim match folder name false ≡ ok c
      → c.claimed ≡ true
      → find_card folder name ≡ some target
      → In other (load_cards folder)
      → other.name ≢ target.name
      → other.status ≡ "claimed"
      → IsApart target other
  unfolding claim_check
  claim-IsApart folder name c target other h done found m ne s = conflict-IsApart target other (
      conflicts-In target (filter (is_other match target) (load_cards folder))
        (rw found at (claimed-clean folder name c h done)) other
        (filter-In (is_other match target) other (load_cards folder) m
          (other_claimed target other ne s)))
