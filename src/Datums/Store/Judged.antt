-- ===== src/Datums/Store/Judged.antt =====
-- What the mechanical writes do to the judgement of a run.
use horus_harness.Prelude.{
  String, Bool, true, false, Option, none, some, List, [], ◌∷◌, ◌==◌, ◌≡◌, refl, sym, ◌∙◌, ◌⊎◌, inl,
  inr, if◌then◌else◌, Bool-cases, eq_iff, All,
}
use mathlib.Core.Path.{subst}
use horus_harness.Prelude.Dict
use horus_harness.Prelude.Dict.{get-insert}
use horus_harness.Prelude.Integers.{ℤ}
use horus_harness.Datums.Store.{
  Judgement, Datum, Rows, Capture, Completion, carry, carried, completed_row, completed_at_id,
  backfilled, record_launch, record_completion, reconcile_missing_completions,
}

abbrev pub unjudged : Judgement
unjudged = record {
  outcome = none;
  shape = none;
  note = none;
  closed_at = none;
  oversight = none;
  follow_on = none;
  counterfactual = none;
  dividend = none;
}

abbrev pub judgement_of : Option Datum → Judgement
judgement_of none = unjudged
judgement_of (some row) = row.judgement

-- Not set, or as it was.
abbrev pub IsPart {ℓ} : {A : Type ℓ} → Option A → Option A → Type ℓ
IsPart x y = (x ≡ none) ⊎ (x ≡ y)

-- The verdict is as it was, and of its costs none is new.
abbrev pub IsKept : Judgement → Judgement → Type 0
IsKept after before =
    (after.outcome ≡ before.outcome)
    × (after.shape ≡ before.shape)
    × (after.note ≡ before.note)
    × (after.closed_at ≡ before.closed_at)
    × IsPart after.oversight before.oversight
    × IsPart after.follow_on before.follow_on
    × IsPart after.counterfactual before.counterfactual
    × IsPart after.dividend before.dividend

IsPart-trans {ℓ} : {A : Type ℓ} {x y z : Option A} → IsPart x y → IsPart y z → IsPart x z
IsPart-trans (inl e) g = inl e
IsPart-trans (inr e) (inl f) = inl (e ∙ f)
IsPart-trans (inr e) (inr f) = inr (e ∙ f)

IsKept-refl : (j : Judgement) → IsKept j j
IsKept-refl j = (refl, refl, refl, refl, inr refl, inr refl, inr refl, inr refl)

IsKept-trans : (a b c : Judgement) → IsKept a b → IsKept b c → IsKept a c
IsKept-trans a b c (e1, e2, e3, e4, p1, p2, p3, p4) (f1, f2, f3, f4, q1, q2, q3, q4) = (
  e1 ∙ f1,
  e2 ∙ f2,
  e3 ∙ f3,
  e4 ∙ f4,
  IsPart-trans p1 q1,
  IsPart-trans p2 q2,
  IsPart-trans p3 q3,
  IsPart-trans p4 q4,
)

pub carry-none {ℓ} : {A : Type ℓ} (o : Option A) → carry o none ≡ o
carry-none none = refl
carry-none (some a) = refl

carried-IsKept : (o : Option Datum) → IsKept (carried o unjudged) (judgement_of o)
carried-IsKept none = IsKept-refl unjudged
carried-IsKept (some old) = (
  carry-none old.judgement.outcome,
  carry-none old.judgement.shape,
  carry-none old.judgement.note,
  carry-none old.judgement.closed_at,
  inl refl,
  inl refl,
  inl refl,
  inl refl,
)

-- A row that is put in for one whose judgement it keeps.
insert-IsKept :
    (id k : String) (row : Datum) (rows : Rows)
    → IsKept row.judgement (judgement_of (Dict.get id rows))
    → IsKept (judgement_of (Dict.get k (Dict.insert id row rows))) (judgement_of (Dict.get k rows))
insert-IsKept id k row rows h = rw (get-insert id k row rows) (elim (Bool-cases (id == k)) [
  | inl t ↦
      rw t
        (subst (λ j. IsKept row.judgement (judgement_of (Dict.get j rows))) ((eq_iff id k).0 t) h)
  | inr t ↦ rw t (IsKept-refl (judgement_of (Dict.get k rows)))
])

launch-IsKept :
    (d : Datum) (rows : Rows) (k : String)
    → d.judgement ≡ unjudged
    → IsKept (judgement_of (Dict.get k (record_launch d rows))) (judgement_of (Dict.get k rows))
unfolding record_launch
launch-IsKept d rows k e =
    insert-IsKept d.session_id k
      (record d { judgement = carried (Dict.get d.session_id rows) d.judgement }) rows
      (subst
        (λ j.
          IsKept (carried (Dict.get d.session_id rows) j)
            (judgement_of (Dict.get d.session_id rows)))
        (sym e) (carried-IsKept (Dict.get d.session_id rows)))

completed-IsKept :
    (capture : Capture) (now id : String) (c : Completion) (rows : Rows) (k : String)
    (o : Option Datum)
    → Dict.get id rows ≡ o
    → IsKept
        (judgement_of (Dict.get k (completed_at_id capture now id c rows o)))
        (judgement_of (Dict.get k rows))
completed-IsKept capture now id c rows k none e = IsKept-refl (judgement_of (Dict.get k rows))
completed-IsKept capture now id c rows k (some row) e =
    insert-IsKept id k (completed_row capture now c row) rows (rw e (IsKept-refl row.judgement))

backfilled_same :
    (row : Datum) (o : Option (String × String × Option ℤ))
    → (backfilled row o).judgement ≡ row.judgement
backfilled_same row none = refl
backfilled_same row (some (end, exit, code)) = refl

if_same :
    (b : Bool) (x y : Datum)
    → y.judgement ≡ x.judgement
    → (if b then x else y).judgement ≡ x.judgement
if_same true x y e = refl
if_same false x y e = e

reconcile_same :
    (positive : String → Option (String × String × Option ℤ)) (rows : Rows) (k : String)
    → judgement_of (Dict.get k (reconcile_missing_completions positive rows))
      ≡ judgement_of (Dict.get k rows)
unfolding reconcile_missing_completions Dict.get
reconcile_same positive [] k = refl
reconcile_same positive ((id, row) ∷ rows) k = elim (Bool-cases (id == k)) [
  | inl t ↦ rw t (
      if_same _ row (backfilled row (positive row.session_id))
        (backfilled_same row (positive row.session_id)))
  | inr t ↦ rw t (reconcile_same positive rows k)
]

-- What writes rows without a review.
pub data Write : Type 0 where
  launched : Datum → Write
  ended : String → String → Completion → Write
  reconciled : (String → Option (String × String × Option ℤ)) → Write

unfoldable pub write : Capture → Write → Rows → Rows
unfolding record_launch record_completion reconcile_missing_completions
write capture (launched d) rows = record_launch d rows
write capture (ended now id c) rows = record_completion capture now id c rows
write capture (reconciled positive) rows = reconcile_missing_completions positive rows

unfoldable pub write_all : Capture → List Write → Rows → Rows
unfolding write
write_all capture [] rows = rows
write_all capture (w ∷ ws) rows = write_all capture ws (write capture w rows)

-- A launch starts from a row that no one has judged.
abbrev pub IsUnjudged : Write → Type 0
IsUnjudged (launched d) = d.judgement ≡ unjudged
IsUnjudged _ = Unit

write-IsKept :
    (capture : Capture) (w : Write) (rows : Rows) (k : String)
    → IsUnjudged w
    → IsKept (judgement_of (Dict.get k (write capture w rows))) (judgement_of (Dict.get k rows))
unfolding write record_completion
write-IsKept capture (launched d) rows k e = launch-IsKept d rows k e
write-IsKept capture (ended now id c) rows k e =
    completed-IsKept capture now id c rows k (Dict.get id rows) refl
write-IsKept capture (reconciled positive) rows k e =
    subst (λ j. IsKept j (judgement_of (Dict.get k rows))) (sym (reconcile_same positive rows k))
      (IsKept-refl (judgement_of (Dict.get k rows)))

-- No sequence of launches of unjudged rows, completions and reconciliations changes what a review said
-- of a run (its outcome, shape and note, and when it was closed), or sets any of the costs that a review
-- gives: each of these is as it was, or not set.
pub write_all-IsKept :
    (capture : Capture) (ws : List Write) (rows : Rows) (k : String)
    → All IsUnjudged ws
    → IsKept
        (judgement_of (Dict.get k (write_all capture ws rows)))
        (judgement_of (Dict.get k rows))
unfolding write_all
write_all-IsKept capture [] rows k h = IsKept-refl (judgement_of (Dict.get k rows))
write_all-IsKept capture (w ∷ ws) rows k (h, hs) =
    let after = write capture w rows in
    IsKept-trans (judgement_of (Dict.get k (write_all capture ws after)))
      (judgement_of (Dict.get k after)) (judgement_of (Dict.get k rows))
      (write_all-IsKept capture ws after k hs) (write-IsKept capture w rows k h)
