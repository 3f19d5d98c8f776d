-- ===== src/Supervise/Dependents/Edges.antt =====
-- The table of dependents, and what a round of the loop sees and stacks.
use horus_harness.Prelude.{String, true, List, [], ◌∷◌, ◌==◌, ◌&&◌, ◌||◌, not}
use horus_harness.Prelude.{◌≡◌, refl, arith, eq_iff, member, Bool-cases, ap, inl, inr}
use mathlib.Core.Path.{subst}
use horus_harness.Prelude.Dict
use horus_harness.Prelude.Dict.{get-insert}
use horus_harness.Supervise.Dependents.{
  Deps, dependents_at, add, reverse_card, reverse_all, is_direct, Walk, visit, visit_one,
}

member_same :
    (c d : String) (cards : List String) → (c == d) ≡ true → member c cards ≡ member d cards
member_same c d cards h = ap (λ x. member x cards) ((eq_iff c d).0 h)

member-add :
    (c card : String) (cards : List String)
    → member c (add card cards) ≡ (card == c || member c cards)
member-add c card cards = elim (Bool-cases (member card cards)) [
  | inl e ↦ rw e (elim (Bool-cases (card == c)) [
    | inl same ↦ rw same (subst (λ x. member x cards ≡ true) ((eq_iff card c).0 same) e)
    | inr other ↦ rw other refl
  ])
  | inr e ↦ rw e (ground (arith, eq_iff c card, eq_iff card c))
]

member-insert :
    (c x d card : String) (reverse : Deps)
    → member c (dependents_at x (Dict.insert d (add card (dependents_at d reverse)) reverse))
      ≡ ((card == c && d == x) || member c (dependents_at x reverse))
unfolding dependents_at
member-insert c x d card reverse =
    rw (get-insert d x (add card (dependents_at d reverse)) reverse) (elim (Bool-cases (d == x)) [
      | inl same ↦
          rw (same, (eq_iff d x).0 same)
            (ground (arith, member-add c card (dependents_at x reverse)))
      | inr other ↦ rw other (ground arith)
    ])

member-reverse_card :
    (c x card : String) (ds : List String) (reverse : Deps)
    → member c (dependents_at x (reverse_card card ds reverse))
      ≡ ((card == c && member x ds) || member c (dependents_at x reverse))
unfolding reverse_card
member-reverse_card c x card [] reverse = ground arith
member-reverse_card c x card (d ∷ ds) reverse = ground (
  arith,
  member-reverse_card c x card ds (Dict.insert d (add card (dependents_at d reverse)) reverse),
  member-insert c x d card reverse,
  eq_iff d x,
  eq_iff x d,
)

pub member-reverse_all :
    (c x : String) (deps reverse : Deps)
    → member c (dependents_at x (reverse_all deps reverse))
      ≡ (is_direct deps x c || member c (dependents_at x reverse))
unfolding reverse_all
member-reverse_all c x [] reverse = ground arith
member-reverse_all c x ((card, ds) ∷ deps) reverse = ground (
  arith,
  member-reverse_all c x deps (reverse_card card ds reverse),
  member-reverse_card c x card ds reverse,
)

member-seen_one :
    (c d : String) (w : Walk) → member c (visit_one d w).seen ≡ (c == d || member c w.seen)
member-seen_one c d w = elim (Bool-cases (member d w.seen)) [
  | inl e ↦ rw e (ground (arith, eq_iff c d, member_same c d w.seen))
  | inr e ↦ rw e refl
]

member-stack_one :
    (c d : String) (w : Walk)
    → member c (visit_one d w).stack ≡ ((c == d && not (member c w.seen)) || member c w.stack)
member-stack_one c d w = elim (Bool-cases (member d w.seen)) [
  | inl e ↦ rw e (ground (arith, eq_iff c d, member_same c d w.seen))
  | inr e ↦ rw e (ground (arith, eq_iff c d, member_same c d w.seen))
]

pub member-seen :
    (c : String) (ds : List String) (w : Walk)
    → member c (visit ds w).seen ≡ (member c ds || member c w.seen)
unfolding visit
member-seen c [] w = refl
member-seen c (d ∷ ds) w = ground (arith, member-seen c ds (visit_one d w), member-seen_one c d w)

pub member-stack :
    (c : String) (ds : List String) (w : Walk)
    → member c (visit ds w).stack ≡ ((member c ds && not (member c w.seen)) || member c w.stack)
unfolding visit
member-stack c [] w = refl
member-stack c (d ∷ ds) w =
    ground (arith, member-stack c ds (visit_one d w), member-stack_one c d w, member-seen_one c d w)
