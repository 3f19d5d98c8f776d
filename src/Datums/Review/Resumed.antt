-- ===== src/Datums/Review/Resumed.antt =====
-- A run that is reviewed and then resumed: `execute` records a launch of the same session again.
use horus_harness.Prelude.{String, some, [], ◌∷◌, ◌≡◌, refl, sym, ap, ◌∙◌, Result, ok, err, ◌>>=◌}
use horus_harness.Prelude.Dict
use horus_harness.Prelude.Dict.{get-insert_same}
use horus_harness.Datums.Store.{Judgement, Datum, Rows, Capture, carried, find, record_launch}
use horus_harness.Datums.Store.Judged.{carry-none, unjudged, judgement_of}
use horus_harness.Datums.Review.{Verdict, Refused, check_verdict, judged_row, close_matches, close}

-- A verdict without its costs.
abbrev pub costless : String → Verdict → Judgement
costless now v = record unjudged {
  outcome = some v.outcome;
  shape = v.shape;
  note = v.note;
  closed_at = some now;
}

after_check :
    {A B : Type 0} (r : Result Refused A) (m : Result Refused B) (x : B)
    → (r >>= λ _. m) ≡ ok x
    → m ≡ ok x
after_check (ok a) m x h = h
after_check (err e) m x h = absurd (cc h)

datum_of : Datum → Result Refused (Datum × Rows) → Datum
datum_of row (ok (closed, rows)) = closed
datum_of row (err e) = row

close_judges :
    (capture : Capture) (now : String) (v : Verdict) (rows matches : Rows) (closed : Datum)
    (after : Rows)
    → close_matches capture now v rows matches ≡ ok (closed, after)
    → (row : Datum) × (judged_row capture now v row ≡ closed)
unfolding datum_of
close_judges capture now v rows [] closed after h = absurd (cc h)
close_judges capture now v rows ((id, row) ∷ []) closed after h = (row, ap (datum_of row) h)
close_judges capture now v rows (a ∷ b ∷ more) closed after h = absurd (cc h)

resumed_lem :
    (capture : Capture) (now : String) (v : Verdict) (row : Datum)
    → carried (some (judged_row capture now v row)) unjudged ≡ costless now v
resumed_lem capture now v row = rw (carry-none v.shape, carry-none v.note) refl

-- Where a session that a review has closed is launched again from a row that no one has judged, its row
-- keeps the outcome, shape and note of the review and when it was closed, and loses its oversight,
-- follow-on work, counterfactual and dividend, whatever the review said.
pub close_launched :
    (capture : Capture) (now prefix : String) (v : Verdict) (rows : Rows) (closed : Datum)
    (after : Rows) (d : Datum)
    → close capture now prefix v rows ≡ ok (closed, after)
    → Dict.get d.session_id after ≡ some closed
    → d.judgement ≡ unjudged
    → judgement_of (Dict.get d.session_id (record_launch d after)) ≡ costless now v
unfolding close record_launch
close_launched capture now prefix v rows closed after d h there fresh =
    let matched =
      after_check (check_verdict v) (close_matches capture now v rows (find prefix rows))
        (closed, after) h in
    let (row, same) = close_judges capture now v rows (find prefix rows) closed after matched in
    ap judgement_of (
      get-insert_same d.session_id
        (record d { judgement = carried (Dict.get d.session_id after) d.judgement }) after)
    ∙ rw (there, fresh, sym same) (resumed_lem capture now v row)
