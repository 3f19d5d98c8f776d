-- ===== src/Execution/Examples.antt =====
-- A run that says that its usage is spent, and the request that it was started by.
use horus_harness.Prelude.{String, Option, ℕ, true, false, none, some, [], ◌∷◌, ◌≡◌, refl, ok, err}
use horus_harness.Prelude.Dict
use horus_harness.Prelude.Integers.{pos}
use horus_harness.Delivery.{DeliveryEvidence}
use horus_harness.Execution.{RunRequest, payload, from_payload, bad_posture}
use horus_harness.Execution.RoundTrip.{from_payload-payload}
use horus_harness.Execution.Agent.{session_started, error, Run, Machine, World, started}
use horus_harness.Execution.Execute.{execute}
use horus_harness.Execution.Finished.{Returns, execute-IsClosed}

abbrev request : RunRequest
request = record {
  session_id = "s1";
  agent = "claude";
  project = "/p";
  prompt = "fix it";
  account = none;
  posture = "auto-edit";
  model = some "opus";
  effort = none;
  worker = true;
  resume = none;
  dispatch_base_sha = some "base";
  dispatch_pending = pos 2;
  delivery_expected = true;
  watch = false;
  proxied = false;
  batch = none;
}

from_payload-payload_example : from_payload (λ p. true) (some (payload request)) ≡ ok request
from_payload-payload_example = from_payload-payload (λ p. true) request refl refl

test_bad_posture :
    from_payload (λ p. true) (some (payload (record request { posture = "yolo" })))
    ≡ err bad_posture
unfolding from_payload payload
test_bad_posture = refl

abbrev delivered : DeliveryEvidence
delivered = record {
  inspectable = true;
  branch = some "auto/fix";
  head_sha = some "b";
  pushed_sha = some "b";
  pr_number = some 7;
  local_changes = some false;
  continuity_closed = some false;
  head_beyond_base = some true;
  pushed_beyond_base = some true;
}

abbrev machine : Machine
machine = record { now = "t1"; pid = 7; hosted = false; has_watcher = false; evidence = delivered }

abbrev spent : Run
spent = record {
  session_id = some "native";
  pid = some 8;
  events =
      record { type = session_started; text = none; session_id = some "native"; is_error = false }
      ∷ record { type = error; text = some "429"; session_id = none; is_error = true }
      ∷ [];
  breaks = false;
  status = "running";
  returncode = some (pos 1);
}

abbrev empty : World
empty = record { sessions = []; effects = []; pushes = [] }

execute-IsClosed_example : Returns "s1" (execute machine request (started spent) empty)
execute-IsClosed_example = execute-IsClosed machine request (started spent) empty refl refl

abbrev code_of : Option ℕ × World → Option ℕ
code_of (code, w) = code

test_spent : code_of (execute machine request (started spent) empty) ≡ some 1
unfolding execute
test_spent = refl

-- A stream that raises leaves the row of the session running.
abbrev status_of : Option ℕ × World → Option String
status_of (code, w) = elim (Dict.get "s1" w.sessions) [
  | none ↦ none
  | some row ↦ some row.known.status
]

test_broken :
    status_of (execute machine request (started (record spent { breaks = true })) empty)
    ≡ some "running"
unfolding execute Dict.get Dict.insert
test_broken = refl
