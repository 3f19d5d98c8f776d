-- ===== src/Batch/Once.antt =====
-- However many workers and deadlines call, a batch is signalled once.
use horus_harness.Prelude.{
  ℕ, suc, ◌≤◌, String, Bool, true, false, Option, none, some, List, [], ◌∷◌, ◌==◌,
}
use horus_harness.Prelude.{
  ◌≡◌, refl, sym, ap, ◌∙◌, ◌⊎◌, inl, inr, arith, eq_iff, eq_refl, if◌then◌else◌, member, Bool-cases,
}
use mathlib.Core.Path.{subst}
use mathlib.Core.Option.{some-injective}
use horus_harness.Batch.{
  BatchReport, Escalation, all_done, emit_if_complete, emit_claimed, emit_when, emit_all,
  escalation, claim_once, is_empty,
}

-- How many of the signals are of the batch.
abbrev pub signals_of : String → List Escalation → ℕ
signals_of id [] = 0
signals_of id (e ∷ es) = if e.batch_id == id then suc (signals_of id es) else signals_of id es

-- Signals that may still be sent of a batch: none once it is claimed.
abbrev left : String → List String → ℕ
left id claimed = if member id claimed then 0 else 1

-- The kinds of a call: nothing is sent and nothing claimed, or the batch was not claimed, is now, and
-- its signal is sent.
abbrev IsCall : BatchReport → Bool → List String → Option Escalation × List String → Type 0
IsCall r deadline claimed out =
    (out ≡ (none, claimed))
    ⊎ ((member r.batch_id claimed ≡ false)
        × (out ≡ (some (escalation r deadline), r.batch_id ∷ claimed)))

emit_claimed-IsCall :
    (r : BatchReport) (deadline : Bool) (claimed : List String)
    → IsCall r deadline claimed (emit_claimed r deadline (claim_once r.batch_id claimed))
unfolding claim_once
emit_claimed-IsCall r deadline claimed = elim (Bool-cases (member r.batch_id claimed)) [
  | inl e ↦ rw e (inl refl)
  | inr e ↦ rw e (inr (refl, refl))
]

emit_when-IsCall :
    (empty done : Bool) (r : BatchReport) (deadline : Bool) (claimed : List String)
    → IsCall r deadline claimed (emit_when empty done r deadline claimed)
emit_when-IsCall true done r deadline claimed = inl refl
emit_when-IsCall false true r deadline claimed = emit_claimed-IsCall r deadline claimed
emit_when-IsCall false false r true claimed = emit_claimed-IsCall r true claimed
emit_when-IsCall false false r false claimed = inl refl

emit_if_complete-IsCall :
    (r : BatchReport) (deadline : Bool) (claimed : List String)
    → IsCall r deadline claimed (emit_if_complete r deadline claimed)
unfolding emit_if_complete
emit_if_complete-IsCall r deadline claimed =
    emit_when-IsCall (is_empty r.members) (all_done r) r deadline claimed

counted :
    (id rid : String) (n : ℕ) (claimed : List String)
    → member rid claimed ≡ false
    → n ≤ left id (rid ∷ claimed)
    → (if rid == id then suc n else n) ≤ left id claimed
counted id rid n claimed fresh bound = elim (Bool-cases (rid == id)) [
  | inl e ↦
      let same = (eq_iff rid id).0 e in
      let free : member id claimed ≡ false = subst (λ x. member x claimed ≡ false) same fresh in
      rw (e, free) (omega (arith, rw (same, eq_refl id) at bound))
  | inr e ↦ rw e (ground (arith, eq_iff id rid, eq_iff rid id))
]

signals_of-emit_all :
    (id : String) (calls : List (BatchReport × Bool)) (claimed : List String)
    → signals_of id (emit_all calls claimed) ≤ left id claimed
unfolding emit_all
signals_of-emit_all id [] claimed = omega arith
signals_of-emit_all id ((r, deadline) ∷ calls) claimed =
    elim (emit_if_complete-IsCall r deadline claimed) [
      | inl e ↦ rw e (signals_of-emit_all id calls claimed)
      | inr (fresh, e) ↦ rw e (
          counted id r.batch_id (signals_of id (emit_all calls (r.batch_id ∷ claimed))) claimed
            fresh (signals_of-emit_all id calls (r.batch_id ∷ claimed)))
    ]

-- In any sequence of calls, by workers and by deadlines and whatever they report, at most one signal
-- is sent of a batch, and none where it was claimed before.
pub emit_all_once :
    (id : String) (calls : List (BatchReport × Bool)) (claimed : List String)
    → signals_of id (emit_all calls claimed) ≤ (if member id claimed then 0 else 1)
emit_all_once id calls claimed = signals_of-emit_all id calls claimed

sent_ok :
    (r : BatchReport) (deadline : Bool) (claimed : List String) (e : Escalation)
    → (emit_claimed r deadline (claim_once r.batch_id claimed)).0 ≡ some e
    → e.ok ≡ all_done r
unfolding claim_once escalation
sent_ok r deadline claimed e h = elim (Bool-cases (member r.batch_id claimed)) [
  | inl b ↦ absurd (cc (rw b at h))
  | inr b ↦ sym (ap (λ x. x.ok) (some-injective (escalation r deadline) e (rw b at h)))
]

-- Why a signal is sent.
abbrev pub IsDue : Bool → Bool → Bool → Bool → Type 0
IsDue empty done deadline ok =
    (empty ≡ false) × (((done ≡ true) × (ok ≡ true)) ⊎ ((deadline ≡ true) × (ok ≡ done)))

emit_when-IsDue :
    (empty done : Bool) (r : BatchReport) (deadline : Bool) (claimed : List String) (e : Escalation)
    → done ≡ all_done r
    → (emit_when empty done r deadline claimed).0 ≡ some e
    → IsDue empty done deadline e.ok
emit_when-IsDue true done r deadline claimed e same h = absurd (cc h)
emit_when-IsDue false true r deadline claimed e same h =
    (refl, inl (refl, sent_ok r deadline claimed e h ∙ sym same))
emit_when-IsDue false false r true claimed e same h =
    (refl, inr (refl, sent_ok r true claimed e h ∙ sym same))
emit_when-IsDue false false r false claimed e same h = absurd (cc h)

-- A call that sends a signal was of a batch that has members, and either all of them are done and the
-- signal says so, or the call was a deadline's and the signal says whether all are done.
pub emit_if_complete-IsDue :
    (r : BatchReport) (deadline : Bool) (claimed : List String) (e : Escalation)
    → (emit_if_complete r deadline claimed).0 ≡ some e
    → IsDue (is_empty r.members) (all_done r) deadline e.ok
unfolding emit_if_complete
emit_if_complete-IsDue r deadline claimed e h =
    emit_when-IsDue (is_empty r.members) (all_done r) r deadline claimed e refl h
