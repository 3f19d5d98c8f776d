-- ===== src/Notify/Examples.antt =====
-- A push by a webhook that answers 200.
use horus_harness.Prelude.{none, some, [], ok, err}
use horus_harness.Notify.{NotifyConfig, Escalation, Transport, default_events, supervise_gate}

abbrev cfg : NotifyConfig
cfg = record {
  sink = "webhook";
  events = default_events;
  token = none;
  chat_id = none;
  target = none;
  url = some "https://h.test";
}

abbrev esc : Escalation
esc = record {
  event = supervise_gate;
  project = "app";
  summary = "red";
  session_id = none;
  card = some "fix";
  sha = none;
  pr = some 7;
  inspect = none;
  details = [];
  succeeded = none;
  actions = [];
}

abbrev transport : Transport
transport = record {
  post = λ url p. ok (200, "");
  run = λ args. err (record { what = ""; class_name = "OSError" });
}
