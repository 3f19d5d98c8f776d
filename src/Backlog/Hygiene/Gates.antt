-- ===== src/Backlog/Hygiene/Gates.antt =====
-- Which gates are reported.
use horus_harness.Prelude.{String, true, false, some, List, [], ◌∷◌, ◌++◌, map}
use horus_harness.Prelude.{◌≡◌, refl, ◌⊎◌, inl, inr, In, member}
use mathlib.Core.Path.{subst}
use horus_harness.Prelude.Dict
use horus_harness.Backlog.{Card, Folder, inactive_statuses, load_cards}
use horus_harness.Backlog.Readiness.Findings.{Finding, order_findings, warning, gated_on}
use horus_harness.Backlog.Hygiene.{
  is_stranded, by_name, dependency_finding, concat, dependencies, gates_of,
  unreachable_gate_findings, lifecycle_findings, hygiene_findings,
}

stuck-is_stranded : (s : String) → (s ≡ "retired") ⊎ (s ≡ "shelved") → is_stranded s ≡ true
unfolding is_stranded
stuck-is_stranded s (inl e) = rw e refl
stuck-is_stranded s (inr e) = rw e refl

In-append-left : (f : Finding) (xs ys : List Finding) → In f xs → In f (xs ++ ys)
In-append-left f [] ys m = absurd m
In-append-left f (x ∷ xs) ys (inl e) = inl e
In-append-left f (x ∷ xs) ys (inr m) = inr (In-append-left f xs ys m)

In-append-right : (f : Finding) (xs ys : List Finding) → In f ys → In f (xs ++ ys)
In-append-right f [] ys m = m
In-append-right f (x ∷ xs) ys m = inr (In-append-right f xs ys m)

In-concat :
    {A : Type 0} (g : A → List Finding) (x : A) (f : Finding) (xs : List A)
    → In x xs
    → In f (g x)
    → In f (concat (map g xs))
In-concat g x f [] m h = absurd m
In-concat g x f (y ∷ xs) (inl e) h =
    In-append-left f (g y) (concat (map g xs)) (subst (λ z. In f (g z)) e h)
In-concat g x f (y ∷ xs) (inr m) h =
    In-append-right f (g y) (concat (map g xs)) (In-concat g x f xs m h)

In-gates_of :
    (folder : Folder) (cards : List Card) (c target : Card) (dep : String)
    → member c.status inactive_statuses ≡ false
    → In dep (dependencies c)
    → Dict.get dep (by_name cards []) ≡ some target
    → is_stranded target.status ≡ true
    → In (warning (gated_on c.name dep target.status)) (gates_of folder cards c)
unfolding gates_of dependency_finding
In-gates_of folder cards c target dep active needs found stuck = rw active (
    In-concat (dependency_finding folder cards c) dep (warning (gated_on c.name dep target.status))
      (dependencies c) needs (rw (found, stuck) (inl refl)))

-- An active card that depends on a card of the backlog that is retired or shelved is reported, with
-- the name of the blocker and its status.
pub gated-In :
    (folder : Folder) (c target : Card) (dep : String)
    → In c (load_cards folder)
    → member c.status inactive_statuses ≡ false
    → In dep (dependencies c)
    → Dict.get dep (by_name (load_cards folder) []) ≡ some target
    → (target.status ≡ "retired") ⊎ (target.status ≡ "shelved")
    → In (warning (gated_on c.name dep target.status)) (hygiene_findings folder)
unfolding hygiene_findings unreachable_gate_findings
gated-In folder c target dep m active needs found stuck =
    In-append-left (warning (gated_on c.name dep target.status))
      (order_findings (load_cards folder) ++ unreachable_gate_findings folder (load_cards folder))
      (concat (map (lifecycle_findings folder) (load_cards folder)))
      (In-append-right (warning (gated_on c.name dep target.status))
        (order_findings (load_cards folder)) (unreachable_gate_findings folder (load_cards folder))
        (In-concat (gates_of folder (load_cards folder)) c
          (warning (gated_on c.name dep target.status)) (load_cards folder) m
          (In-gates_of folder (load_cards folder) c target dep active needs found
            (stuck-is_stranded target.status stuck))))
