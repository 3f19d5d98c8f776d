-- ===== src/Execution/Agent.antt =====
-- What `execute` of horus/run_executor.py reads and writes, and the run of horus/adapters/base.py that
-- it goes through. What the agent and git answer is given, and a `World` is what a run writes.
use horus_harness.Prelude.{
  ℕ, String, Bool, true, false, Option, none, some, List, [], ◌∷◌, ◌++◌, ◌==◌, not, if◌then◌else◌,
  any, is_some,
}
use horus_harness.Prelude.Dict
use horus_harness.Prelude.Integers.{ℤ}
use horus_harness.Prelude.Text.{lower}
use horus_harness.Prelude.Decimal.{contains}
use horus_harness.Delivery.{DeliveryEvidence}
use horus_harness.Notify.{Escalation}
use horus_harness.Registry.{SessionRecord, Sessions, upsert, update, set_status}
use horus_harness.Execution.{RunRequest}

pub data EventType : Type 0 where
  session_started : EventType
  assistant_text : EventType
  tool_use : EventType
  tool_result : EventType
  permission_request : EventType
  result : EventType
  error : EventType
  raw : EventType

pub record AgentEvent : Type 0 where
  pub type : EventType
  pub text : Option String
  pub session_id : Option String
  pub is_error : Bool

-- A run that has started: its process, its events, whether an exception then ends
-- them, and what the adapter itself said of its end.
pub record Run : Type 0 where
  pub session_id : Option String
  pub pid : Option ℕ
  pub events : List AgentEvent
  pub breaks : Bool
  pub status : String
  pub returncode : Option ℤ

pub data Launch : Type 0 where
  unknown_agent : Launch
  account_mismatch : Launch
  not_started : Launch
  launch_raised : Launch
  started : Run → Launch

-- What a log line, a datum, or a look at a batch says.
pub data Effect : Type 0 where
  start_logged : Option String → Effect
  activity_logged : Option String → Effect
  result_logged : String → String → Effect
  launch_recorded : Option String → Effect
  completion_recorded : String → String → Effect
  watched : Effect
  batch_asked : String → Effect

pub record World : Type 0 where
  pub sessions : Sessions
  pub effects : List Effect
  pub pushes : List Escalation

-- The time, the process of the runner, whether its host outlives it, and what git says at the end.
pub record Machine : Type 0 where
  pub now : String
  pub pid : ℕ
  pub hosted : Bool
  pub has_watcher : Bool
  pub evidence : DeliveryEvidence

-- What `AgentRun.__iter__` has seen: the session's id, what the last result said, and any error.
pub record Stream : Type 0 where
  pub session_id : Option String
  pub result_error : Option Bool
  pub saw_stream_error : Bool

abbrev given : Option String → Bool
given none = false
given (some s) = not (s == "")

abbrev pub or_else : Option String → Option String → Option String
or_else a b = if given a then a else b

unfoldable pub see : AgentEvent → Stream → Stream
see ev st =
    let named = record st {
      session_id = or_else st.session_id (or_else ev.session_id st.session_id);
    } in
    elim ev.type [
      | result ↦ record named { result_error = some ev.is_error }
      | error ↦ record named { saw_stream_error = true }
      | _ ↦ named
    ]

-- The status of a session that no one has ended: the last result decides, or else any error.
unfoldable pub final_status : String → Stream → String
final_status status st =
    if not (status == "running")
    then status
    else if elim st.result_error [ some bad ↦ bad | none ↦ st.saw_stream_error ]
    then "failed"
    else "exited"

abbrev limits : List String
limits =
    "usagelimit" ∷ "usage limit" ∷ "usage_limit" ∷ "usage-limit" ∷ "ratelimit" ∷ "rate limit"
    ∷ "rate_limit" ∷ "rate-limit" ∷ "quota" ∷ "exhaust" ∷ "out of tokens" ∷ "out of credit" ∷ "429"
    ∷ "too many requests" ∷ []

-- `datums.looks_like_usage_death`
unfoldable pub looks_like_usage_death : Option String → Bool
unfolding lower contains
looks_like_usage_death none = false
looks_like_usage_death (some s) = any (λ t. contains t (lower s)) limits

abbrev pub add_effects : List Effect → World → World
add_effects es w = record w { effects = w.effects ++ es }

abbrev pub change : String → String → (SessionRecord → SessionRecord) → World → World
change now id f w = record w { sessions = (update now id f w.sessions).1 }

abbrev pub close_status : String → String → String → Option ℤ → World → World
close_status now id status returncode w = record w {
  sessions = (set_status now id status returncode w.sessions).1;
}

abbrev pub new_record : RunRequest → ℕ → SessionRecord
new_record r pid = record {
  session_id = r.session_id;
  agent = r.agent;
  project = r.project;
  account = r.account;
  environment = "host";
  pid = some pid;
  status = "running";
  returncode = none;
  updated_at = "";
  launch_target = "local";
  target_ref = none;
  agent_session_id = r.resume;
  termination_reason = none;
  delivery_expected = r.delivery_expected;
  delivery_status = "unknown";
  dispatch_base_sha = r.dispatch_base_sha;
  delivery_branch = none;
  delivery_head_sha = none;
  delivery_pushed_sha = none;
  delivery_pr_number = none;
  delivery_local_changes = none;
  delivery_continuity_closed = none;
  delivery_checked_at = none;
  last_activity_at = none;
}

-- A row for the request, where there is none.
unfoldable pub registered : Machine → RunRequest → World → World
unfolding upsert
registered m r w =
    if is_some (Dict.get r.session_id w.sessions)
    then w
    else record w { sessions = upsert m.now (new_record r m.pid) w.sessions }
