-- ===== src/Datums/Store.antt =====
-- `DatumStore` of horus/datums.py: a row per measured run. The rows are the file `datums.json` by session
-- id, without keys that no version knows; a runtime is in milliseconds, and a reading of usage its text.
pub mod Judged
use horus_harness.Prelude.{
  ℕ, String, Bool, true, false, Option, none, some, List, [], ◌∷◌, ◌==◌, not, ◌&&◌, ◌||◌,
  if◌then◌else◌, map, filter, is_some, member,
}
use horus_harness.Prelude.{Result, ok, err, raise_if, ◌>>=◌, ◌>>◌}
use horus_harness.Prelude.Dict
use horus_harness.Prelude.Dict.{Dict}
use horus_harness.Prelude.Integers.{ℤ, pos, negsuc}
use horus_harness.Prelude.Text.{starts_with}
use horus_harness.Delivery.{DeliveryEvidence}
use horus_harness.Registry.{Row, Sessions}
use horus_harness.Registry.Reconcile.{classify_exit}

-- The half that only a review sets.
pub record Judgement : Type 0 where
  pub outcome : Option String
  pub shape : Option String
  pub note : Option String
  pub closed_at : Option String
  pub oversight : Option String
  pub follow_on : Option ℤ
  pub counterfactual : Option String
  pub dividend : Option String

pub record Datum : Type 0 where
  pub session_id : String
  pub model : Option String
  pub launched_at : String
  pub project : Option String
  pub account : Option String
  pub effort : Option String
  pub agent : Option String
  pub worker : Bool
  pub posture : Option String
  pub environment : String
  pub agent_session_id : Option String
  pub completed_at : Option String
  pub runtime_seconds : Option ℕ
  pub exit : Option String
  pub returncode : Option ℤ
  pub delivery_expected : Bool
  pub delivery_status : String
  pub dispatch_base_sha : Option String
  pub delivery_branch : Option String
  pub delivery_head_sha : Option String
  pub delivery_pushed_sha : Option String
  pub delivery_pr_number : Option ℕ
  pub delivery_local_changes : Option Bool
  pub delivery_continuity_closed : Option Bool
  pub delivery_checked_at : Option String
  pub tokens : Option ℕ
  pub pr_opened : Option Bool
  pub ci : Option String
  pub usage_launch : Option String
  pub usage_close : Option String
  pub judgement : Judgement
  pub source : String

abbrev pub Rows : Type 0
Rows = Dict Datum

-- `DatumStore.find`
unfoldable pub find : String → Rows → Rows
unfolding starts_with
find prefix rows = filter (λ e. starts_with e.0 prefix) rows

abbrev pub carry {ℓ} : {A : Type ℓ} → Option A → Option A → Option A
carry none new = new
carry (some old) new = some old

abbrev pub carried : Option Datum → Judgement → Judgement
carried none j = j
carried (some old) j = record j {
  outcome = carry old.judgement.outcome j.outcome;
  shape = carry old.judgement.shape j.shape;
  note = carry old.judgement.note j.note;
  closed_at = carry old.judgement.closed_at j.closed_at;
}

-- `DatumStore.record_launch`
unfoldable pub record_launch : Datum → Rows → Rows
record_launch d rows =
    Dict.insert d.session_id
      (record d { judgement = carried (Dict.get d.session_id rows) d.judgement }) rows

-- What is measured at the end of a run.
pub record Completion : Type 0 where
  pub exit : String
  pub runtime_seconds : Option ℕ
  pub returncode : Option ℤ
  pub tokens : Option ℕ
  pub pr_opened : Option Bool
  pub ci : Option String
  pub delivery_status : String
  pub delivery_expected : Bool
  pub dispatch_base_sha : Option String
  pub evidence : DeliveryEvidence
  pub checked_at : Option String

-- A reading of usage, from the agent, the account, and the launch on.
abbrev pub Capture : Type 0
Capture = Option String → Option String → String → Option String

abbrev pub completed_row : Capture → String → Completion → Datum → Datum
completed_row capture now c row = record row {
  completed_at = some now;
  exit = some c.exit;
  runtime_seconds = c.runtime_seconds;
  returncode = c.returncode;
  delivery_expected = c.delivery_expected;
  delivery_status = c.delivery_status;
  dispatch_base_sha = c.dispatch_base_sha;
  delivery_branch = c.evidence.branch;
  delivery_head_sha = c.evidence.head_sha;
  delivery_pushed_sha = c.evidence.pushed_sha;
  delivery_pr_number = c.evidence.pr_number;
  delivery_local_changes = c.evidence.local_changes;
  delivery_continuity_closed = c.evidence.continuity_closed;
  delivery_checked_at = c.checked_at;
  usage_close = capture row.agent row.account row.launched_at;
  tokens = carry c.tokens row.tokens;
  pr_opened = carry c.pr_opened row.pr_opened;
  ci = carry c.ci row.ci;
}

abbrev pub completed_at_id : Capture → String → String → Completion → Rows → Option Datum → Rows
completed_at_id capture now id c rows none = rows
completed_at_id capture now id c rows (some row) =
    Dict.insert id (completed_row capture now c row) rows

-- `DatumStore.record_completion`
unfoldable pub record_completion : Capture → String → String → Completion → Rows → Rows
record_completion capture now id c rows = completed_at_id capture now id c rows (Dict.get id rows)

abbrev given : Option String → Bool
given none = false
given (some s) = not (s == "")

-- What a row of the registry proves of a run's end; `iso` reads a stamp and writes it to the second.
abbrev pub positive_row : (String → Option String) → Row → Option (String × String × Option ℤ)
positive_row iso row =
    if row.known.status == "exited" || row.known.status == "failed"
    then elim (iso row.known.updated_at) [
      | none ↦ none
      | some end ↦ some (end, classify_exit row.known.status false, row.known.returncode)
    ]
    else none

-- `_registry_positive_completion`
unfoldable pub registry_positive_completion :
    (String → Option String) → Sessions → String → Option (String × String × Option ℤ)
unfolding classify_exit
registry_positive_completion iso sessions id = elim (Dict.get id sessions) [
  | none ↦ none
  | some row ↦ positive_row iso row
]

abbrev pub backfilled : Datum → Option (String × String × Option ℤ) → Datum
backfilled row none = row
backfilled row (some (end, exit, returncode)) = record row {
  completed_at = some end;
  exit = some exit;
  returncode = carry returncode row.returncode;
}

abbrev pub reconcile_row : (String → Option (String × String × Option ℤ)) → Datum → Datum
reconcile_row positive row =
    if not row.worker || given row.completed_at
    then row
    else backfilled row (positive row.session_id)

-- `DatumStore.reconcile_missing_completions`: the rows after it.
unfoldable pub reconcile_missing_completions :
    (String → Option (String × String × Option ℤ)) → Rows → Rows
reconcile_missing_completions positive [] = []
reconcile_missing_completions positive ((id, row) ∷ rows) =
    (id, reconcile_row positive row) ∷ reconcile_missing_completions positive rows
