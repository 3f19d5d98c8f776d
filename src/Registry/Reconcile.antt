-- ===== src/Registry/Reconcile.antt =====
-- `reconcile` and `snapshot` of horus/registry.py. A `Machine` is what they read beside the registry:
-- the clock, the run logs, the processes, and git.
use horus_harness.Prelude.{
  ℕ, String, Bool, true, false, Option, none, some, List, [], ◌∷◌, map, ◌++◌, ◌==◌,
}
use horus_harness.Prelude.{if◌then◌else◌, member, beq}
use horus_harness.Prelude.Dict
use horus_harness.Delivery.{Probes, DeliveryEvidence, capture_delivery_evidence, classify_delivery}
use horus_harness.Registry.{SessionRecord, Row, Sessions, is_terminal, or_code}
use horus_harness.Registry.Logs.{RunResult, Event, jsonl_result, legacy_log_result}

pub record Machine : Type 0 where
  pub now : String
  -- A stamp as aware UTC, `none` where it cannot be read.
  pub aware : String → Option String
  pub events : String → List Event
  pub log : String → String
  -- `os.kill(pid, 0)`
  pub alive : ℕ → Bool
  -- What git answers about a project, for a run that ended at a time.
  pub probes : String → String → Probes

-- What a correction writes beside the registry.
pub data Effect : Type 0 where
  result_event : SessionRecord → Effect
  completion : SessionRecord → String → Effect

abbrev or_now : Machine → Option String → String
or_now m none = m.now
or_now m (some s) = s

-- `_aware_utc_iso`
unfoldable pub aware_utc_iso : Machine → String → String
aware_utc_iso m value = if value == "" then m.now else or_now m (m.aware value)

abbrev pub or_result : Option RunResult → Option RunResult → Option RunResult
or_result none b = b
or_result (some a) b = some a

unfoldable pub run_result : Machine → String → Option RunResult
unfolding jsonl_result legacy_log_result
run_result m id = or_result (jsonl_result id (m.events id)) (legacy_log_result id (m.log id))

-- `process_alive`
abbrev pub process_alive : Machine → Option ℕ → Bool
process_alive m none = false
process_alive m (some pid) = if beq pid 0 then false else m.alive pid

-- `_records_its_own_exit`: the target is a host.
unfoldable pub records_its_own_exit : String → Bool
records_its_own_exit target = member target ("tmux" ∷ "herdr" ∷ "current" ∷ [])

-- `classify_exit` of horus/datums.py
unfoldable pub classify_exit : String → Bool → String
classify_exit status saw_usage_signal =
    if saw_usage_signal
    then "usage-death"
    else if status == "exited"
    then "completed"
    else "crashed"

-- `evidence.fields()`, and the status that is classified from it.
abbrev with_evidence : Machine → SessionRecord → DeliveryEvidence → SessionRecord
with_evidence m r e = record r {
  delivery_branch = e.branch;
  delivery_head_sha = e.head_sha;
  delivery_pushed_sha = e.pushed_sha;
  delivery_pr_number = e.pr_number;
  delivery_local_changes = e.local_changes;
  delivery_continuity_closed = e.continuity_closed;
  delivery_checked_at = some m.now;
  delivery_status = classify_delivery r.status r.delivery_expected r.dispatch_base_sha e;
}

-- `_apply_delivery_completion`
unfoldable pub apply_delivery : Machine → SessionRecord → SessionRecord
unfolding capture_delivery_evidence classify_delivery
apply_delivery m r =
    with_evidence m r
      (capture_delivery_evidence (m.probes r.project r.updated_at) r.dispatch_base_sha)

unfoldable pub completion_effects : Bool → SessionRecord → List Effect
unfolding classify_exit
completion_effects confirmed_exit r =
    if r.session_id == ""
    then (if confirmed_exit then completion r (classify_exit r.status false) ∷ [] else [])
    else result_event r
      ∷ (if confirmed_exit then completion r (classify_exit r.status false) ∷ [] else [])

-- One row after a reconciliation: the row, whether its status changed, and what else is written.
pub record Reconciled : Type 0 where
  pub row : Row
  pub changed : Bool
  pub effects : List Effect

abbrev pub stamped : Machine → Row → Row
stamped m row = record row {
  known = record row.known { updated_at = aware_utc_iso m row.known.updated_at };
}

abbrev finished : Machine → Row → SessionRecord → Bool → Reconciled
finished m row r confirmed = record {
  row = record row { known = record (apply_delivery m r) { updated_at = m.now } };
  changed = true;
  effects = completion_effects confirmed (apply_delivery m r);
}

abbrev reason_of : SessionRecord → Option String
reason_of r = if records_its_own_exit r.launch_target then some "vanished" else r.termination_reason

-- A row that is not terminal.
abbrev pub settle : Machine → Row → Option RunResult → Reconciled
settle m row (some result) =
    finished m row
      (record row.known {
        status = result.status;
        returncode = or_code result.returncode row.known.returncode;
      })
      true
settle m row none =
    if process_alive m row.known.pid
    then record { row = row; changed = false; effects = [] }
    else finished m row
        (record row.known { status = "stale"; termination_reason = reason_of row.known }) false

unfoldable pub reconcile_row : Machine → Row → Reconciled
unfolding aware_utc_iso is_terminal run_result records_its_own_exit apply_delivery
    completion_effects
reconcile_row m row =
    if is_terminal row
    then record { row = stamped m row; changed = false; effects = [] }
    else settle m (stamped m row) (run_result m row.known.session_id)

abbrev changed_of : Reconciled → List SessionRecord
changed_of r = if r.changed then r.row.known ∷ [] else []

-- The sessions after it, the records that changed, and what else is written, in order.
pub record Report : Type 0 where
  pub sessions : Sessions
  pub changed : List SessionRecord
  pub effects : List Effect

abbrev on_report : String → Reconciled → Report → Report
on_report id r rest = record {
  sessions = (id, r.row) ∷ rest.sessions;
  changed = changed_of r ++ rest.changed;
  effects = r.effects ++ rest.effects;
}

unfoldable pub reconcile : Machine → Sessions → Report
unfolding reconcile_row
reconcile m [] = record { sessions = []; changed = []; effects = [] }
reconcile m ((id, row) ∷ rows) = on_report id (reconcile_row m row) (reconcile m rows)

abbrev pub projected : Machine → Row → Option RunResult → SessionRecord
projected m row (some result) = record row.known {
  status = result.status;
  returncode = or_code result.returncode row.known.returncode;
}
projected m row none =
    if process_alive m row.known.pid then row.known else record row.known { status = "stale" }

unfoldable pub project_row : Machine → Row → SessionRecord
unfolding aware_utc_iso is_terminal run_result
project_row m row =
    if is_terminal row
    then (stamped m row).known
    else projected m (stamped m row) (run_result m row.known.session_id)

unfoldable pub snapshot : Machine → Sessions → List SessionRecord
unfolding project_row
snapshot m [] = []
snapshot m ((id, row) ∷ rows) = project_row m row ∷ snapshot m rows

-- `Registry.all`: the records after a reconciliation, with its report.
unfoldable pub all_records : Machine → Sessions → List SessionRecord × Report
unfolding reconcile
all_records m sessions =
    let done = reconcile m sessions in (map (λ (id, row). row.known) done.sessions, done)

abbrev known_of : Option Row → Option SessionRecord
known_of none = none
known_of (some row) = some row.known

-- `Registry.get`
unfoldable pub get_record : Machine → String → Sessions → Option SessionRecord × Report
unfolding reconcile
get_record m session_id sessions =
    let done = reconcile m sessions in (known_of (Dict.get session_id done.sessions), done)
