-- ===== src/Datums/Review.antt =====
-- `DatumStore.close` of horus/datums.py: the review of a run.
pub mod Resumed
use horus_harness.Prelude.{
  ℕ, String, Bool, true, false, Option, none, some, List, [], ◌∷◌, ◌++◌, not, if◌then◌else◌,
  is_some, member,
}
use horus_harness.Prelude.{Result, ok, err, raise_if, ◌>>=◌, ◌>>◌}
use horus_harness.Prelude.Dict
use horus_harness.Prelude.Integers.{ℤ, pos, negsuc}
use horus_harness.Datums.Store.{Judgement, Datum, Rows, Capture, find, carry}

pub record Verdict : Type 0 where
  pub outcome : String
  pub shape : Option String
  pub note : Option String
  pub oversight : Option String
  pub follow_on : Option ℤ
  pub counterfactual : Option String
  pub dividend : Option String

pub data Refused : Type 0 where
  bad_outcome : Refused
  bad_oversight : Refused
  bad_counterfactual : Refused
  bad_dividend : Refused
  negative_follow_on : Refused
  no_datum : Refused
  ambiguous : Refused

-- `OUTCOMES`
abbrev pub outcomes : List String
outcomes = "clean" ∷ "nudged" ∷ "bounced" ∷ "died" ∷ "void" ∷ []

abbrev pub oversight_levels : List String
oversight_levels = "light" ∷ "moderate" ∷ "heavy" ∷ []

abbrev pub counterfactuals : List String
counterfactuals = "direct-session" ∷ "one-worker" ∷ "multi-worker" ∷ []

abbrev pub dividends : List String
dividends = "positive" ∷ "neutral" ∷ "negative" ∷ []

abbrev is_unknown : Option String → List String → Bool
is_unknown none words = false
is_unknown (some w) words = not (member w words)

abbrev is_negative : Option ℤ → Bool
is_negative (some (negsuc n)) = true
is_negative _ = false

-- What is refused before any row is looked at.
unfoldable pub check_verdict : Verdict → Result Refused (Unit {0})
check_verdict v =
    raise_if (not (member v.outcome outcomes)) bad_outcome
    >> (raise_if (is_unknown v.oversight oversight_levels) bad_oversight
        >> (raise_if (is_unknown v.counterfactual counterfactuals) bad_counterfactual
            >> (raise_if (is_unknown v.dividend dividends) bad_dividend
                >> raise_if (is_negative v.follow_on) negative_follow_on)))

abbrev pub judged_row : Capture → String → Verdict → Datum → Datum
judged_row capture now v row = record row {
  judgement = record {
    outcome = some v.outcome;
    shape = v.shape;
    note = v.note;
    closed_at = some now;
    oversight = carry v.oversight row.judgement.oversight;
    follow_on = carry v.follow_on row.judgement.follow_on;
    counterfactual = carry v.counterfactual row.judgement.counterfactual;
    dividend = carry v.dividend row.judgement.dividend;
  };
  usage_close = carry row.usage_close (capture row.agent row.account row.launched_at);
}

-- The one row that the prefix finds.
abbrev pub close_matches : Capture → String → Verdict → Rows → Rows → Result Refused (Datum × Rows)
close_matches capture now v rows [] = err no_datum
close_matches capture now v rows ((id, row) ∷ []) =
    ok (judged_row capture now v row, Dict.insert id (judged_row capture now v row) rows)
close_matches capture now v rows (a ∷ b ∷ more) = err ambiguous

unfoldable pub close : Capture → String → String → Verdict → Rows → Result Refused (Datum × Rows)
unfolding check_verdict find
close capture now prefix v rows =
    check_verdict v >>= λ _. close_matches capture now v rows (find prefix rows)
