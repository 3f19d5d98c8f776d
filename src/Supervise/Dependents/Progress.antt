-- ===== src/Supervise/Dependents/Progress.antt =====
-- The loop of `_transitive_dependents` ends: a round takes one card off the stack, and each card that
-- it stacks is one that was not seen before.
use horus_harness.Prelude.{
  ℕ, zero, suc, ◌+◌, ◌≤◌, String, true, false, some, List, [], ◌∷◌, ◌==◌, not,
}
use horus_harness.Prelude.{
  ◌≡◌, refl, inl, inr, arith, eq_iff, eq_refl, member, length, filter, Bool-cases,
}
use horus_harness.Supervise.Dependents.{Deps, dependents_at, Walk, visit, visit_one, walk}

-- How many of the cards are not seen yet.
abbrev pub unseen : List String → List String → ℕ
unseen cards seen = length (filter (λ c. not (member c seen)) cards)

unseen_grows : (d : String) (cards seen : List String) → unseen cards (d ∷ seen) ≤ unseen cards seen
unseen_grows d [] seen = omega arith
unseen_grows d (c ∷ cards) seen = ground (arith, unseen_grows d cards seen)

unseen_new :
    (d : String) (cards seen : List String)
    → member d cards ≡ true
    → member d seen ≡ false
    → unseen cards (d ∷ seen) + 1 ≤ unseen cards seen
unseen_new d [] seen known new = ground arith
unseen_new d (c ∷ cards) seen known new = elim (Bool-cases (d == c)) [
  | inl e ↦ rw (← (eq_iff d c).0 e) (ground (arith, eq_iff d d, unseen_grows d cards seen))
  | inr e ↦ ground (arith, eq_iff d c, eq_iff c d, unseen_new d cards seen)
]

-- Cards on the stack and cards to be seen.
abbrev pub work : List String → Walk → ℕ
work cards w = length w.stack + unseen cards w.seen

work-visit_one :
    (d : String) (cards : List String) (w : Walk)
    → member d cards ≡ true
    → work cards (visit_one d w) ≤ work cards w
work-visit_one d cards w known = elim (Bool-cases (member d w.seen)) [
  | inl e ↦ rw e (omega arith)
  | inr e ↦ rw e (omega (arith, unseen_new d cards w.seen known e))
]

work-visit :
    (ds cards : List String) (w : Walk)
    → ((c : String) → member c ds ≡ true → member c cards ≡ true)
    → work cards (visit ds w) ≤ work cards w
unfolding visit
work-visit [] cards w known = omega arith
work-visit (d ∷ ds) cards w known = omega (
  arith,
  work-visit ds cards (visit_one d w) (λ c h. known c (ground arith)),
  work-visit_one d cards w (known d (ground (arith, eq_refl d))),
)

module _ (reverse : Deps) (cards : List String)
    (known : (x c : String) → member c (dependents_at x reverse) ≡ true → member c cards ≡ true)
    (P : List String → List String → Type 0)
    (round : (x : String) (w : Walk)
      → P w.seen (x ∷ w.stack)
      → P (visit (dependents_at x reverse) w).seen (visit (dependents_at x reverse) w).stack) where
  -- Given fuel for the work that there is, the loop ends, and what each round keeps holds then.
  pub walk_ind :
      (fuel : ℕ) (seen stack : List String)
      → length stack + unseen cards seen ≤ fuel
      → P seen stack
      → (result : List String) × (walk reverse fuel seen stack ≡ some result) × P result []
  unfolding walk
  walk_ind fuel seen [] h p = (seen, refl, p)
  walk_ind zero seen (x ∷ stack) h p = absurd (omega arith)
  walk_ind (suc fuel) seen (x ∷ stack) h p =
      let w : Walk = record { seen = seen; stack = stack } in
      walk_ind fuel _ _ (omega (arith, work-visit (dependents_at x reverse) cards w (known x)))
        (round x w p)
