-- ===== src/Execution/Execute.antt =====
-- `execute` and `_escalate_completion` of horus/run_executor.py.
use horus_harness.Prelude.{
  ℕ, String, Bool, true, false, Option, none, some, List, [], ◌∷◌, ◌++◌, ◌==◌, ◌&&◌, ◌||◌, not,
  if◌then◌else◌, member,
}
use horus_harness.Prelude.Text.{◌<>◌, starts_with}
use horus_harness.Prelude.Decimal.{take_text, drop_text}
use horus_harness.Delivery.{DeliveryEvidence, classify_delivery}
use horus_harness.Notify.{Escalation, usage_band, delivery_failed}
use horus_harness.Registry.{SessionRecord, update, set_status}
use horus_harness.Registry.Reconcile.{classify_exit}
use horus_harness.Supervise.{path_name}
use horus_harness.Supervise.Resolve.{filled}
use horus_harness.Execution.{RunRequest, postures}
use horus_harness.Execution.Agent.{
  EventType, session_started, error, AgentEvent, Run, Launch, unknown_agent, account_mismatch,
  not_started, started, Effect, start_logged, activity_logged, result_logged, launch_recorded,
  completion_recorded, watched, batch_asked, World, Machine, Stream, see, final_status,
  looks_like_usage_death, add_effects, change, close_status, registered, or_else, launch_raised,
}

pub record Loop : Type 0 where
  pub stream : Stream
  pub watcher_pending : Bool
  pub saw_usage_signal : Bool
  pub world : World

abbrev is_started : EventType → Bool
is_started session_started = true
is_started _ = false

abbrev pub is_error_event : EventType → Bool
is_error_event error = true
is_error_event _ = false

abbrev pub active : Machine → Option String → SessionRecord → SessionRecord
active m native row = record row { agent_session_id = native; last_activity_at = some m.now }

-- One event of the run.
unfoldable pub on_event : Machine → RunRequest → AgentEvent → Loop → Loop
unfolding see update looks_like_usage_death
on_event m r ev l =
    let stream = see ev l.stream in
    let native = or_else stream.session_id ev.session_id in
    let watches = l.watcher_pending && m.has_watcher in
    record {
      stream = stream;
      watcher_pending = l.watcher_pending && not m.has_watcher;
      saw_usage_signal =
          l.saw_usage_signal || (is_error_event ev.type && looks_like_usage_death ev.text);
      world =
          add_effects
            ((if is_started ev.type then launch_recorded native ∷ [] else [])
              ++ activity_logged native ∷ []
              ++ (if watches then watched ∷ [] else []))
            (change m.now r.session_id (active m native) l.world);
    }

unfoldable pub on_events : Machine → RunRequest → List AgentEvent → Loop → Loop
unfolding on_event
on_events m r [] l = l
on_events m r (ev ∷ evs) l = on_events m r evs (on_event m r ev l)

-- `branch[len("auto/"):]` of a branch that begins so
abbrev card_of : Option String → Option String
card_of none = none
card_of (some branch) =
    if not (branch == "") && starts_with branch "auto/" then some (drop_text 5 branch) else none

abbrev text_or : Option String → String
text_or none = ""
text_or (some s) = s

abbrev escalation : RunRequest → DeliveryEvidence → String → String → Escalation
escalation r e event summary = record {
  event = event;
  project = path_name r.project;
  summary = summary;
  session_id = some r.session_id;
  card = card_of e.branch;
  sha = filled (take_text 12 (text_or e.head_sha));
  pr = e.pr_number;
  inspect = some ("horus sessions · session " <> r.session_id);
  details = [];
  succeeded = none;
  actions = [];
}

-- `_escalate_completion`: what is pushed, if anything.
unfoldable pub escalate_completion :
    RunRequest → String → String → DeliveryEvidence → Bool → Option Escalation
unfolding path_name starts_with drop_text take_text ◌<>◌
escalate_completion r status delivery_status e saw_usage_signal =
    if saw_usage_signal && not (status == "exited")
    then some (escalation r e usage_band "unattended run halted on usage")
    else if member delivery_status ("blocked" ∷ "failed" ∷ [])
    then some (escalation r e delivery_failed ("scheduled worker delivery " <> delivery_status))
    else none

abbrev pub push : Option Escalation → World → World
push none w = w
push (some esc) w = record w { pushes = esc ∷ w.pushes }

abbrev pub batch_effects : Option String → List Effect
batch_effects none = []
batch_effects (some b) = if b == "" then [] else batch_asked b ∷ []

-- What only a worker does at its end.
abbrev pub worker_end : RunRequest → Option Escalation → World → World
worker_end r esc w = if r.worker then add_effects (batch_effects r.batch) (push esc w) else w

abbrev pub completed : Machine → Option String → String → SessionRecord → SessionRecord
completed m native delivery_status row = record row {
  agent_session_id = native;
  termination_reason = some "natural";
  delivery_status = delivery_status;
  delivery_branch = m.evidence.branch;
  delivery_head_sha = m.evidence.head_sha;
  delivery_pushed_sha = m.evidence.pushed_sha;
  delivery_pr_number = m.evidence.pr_number;
  delivery_local_changes = m.evidence.local_changes;
  delivery_continuity_closed = m.evidence.continuity_closed;
  delivery_checked_at = some m.now;
}

abbrev pub exit_of : String → ℕ
exit_of status = if status == "exited" then 0 else 1

-- From the end of the events to the exit code.
unfoldable pub finish : Machine → RunRequest → Run → Loop → ℕ × World
unfolding final_status classify_delivery classify_exit escalate_completion update set_status
finish m r run l =
    let status = final_status run.status l.stream in
    let delivery_status =
      classify_delivery status r.delivery_expected r.dispatch_base_sha m.evidence in
    let esc = escalate_completion r status delivery_status m.evidence l.saw_usage_signal in
    (
      exit_of status,
      worker_end r esc (
          add_effects
            (result_logged status delivery_status
              ∷ completion_recorded (classify_exit status l.saw_usage_signal) delivery_status
              ∷ [])
            (close_status m.now r.session_id status run.returncode (
              change m.now r.session_id (completed m l.stream.session_id delivery_status)
                l.world))),
    )

abbrev pub failed_launch : SessionRecord → SessionRecord
failed_launch row = record row { termination_reason = some "launch-error" }

abbrev pub launch_failed : Machine → RunRequest → World → World
launch_failed m r w =
    close_status m.now r.session_id "failed" none (change m.now r.session_id failed_launch w)

-- The process of the run stands for the session, unless the runner's host outlives it.
abbrev pid_or : Bool → Option ℕ → Option ℕ → Option ℕ
pid_or false (some pid) old = some pid
pid_or _ _ old = old

abbrev pub launching : Machine → Run → SessionRecord → SessionRecord
launching m run row = record row {
  agent_session_id = run.session_id;
  pid = pid_or m.hosted run.pid row.pid;
}

abbrev pub launched : Machine → RunRequest → Run → World → World
launched m r run w =
    add_effects (start_logged run.session_id ∷ launch_recorded run.session_id ∷ [])
      (change m.now r.session_id (launching m run) w)

abbrev pub begun : RunRequest → Run → World → Loop
begun r run w = record {
  stream = record { session_id = run.session_id; result_error = none; saw_stream_error = false };
  watcher_pending = r.watch;
  saw_usage_signal = false;
  world = w;
}

-- What comes of a run that has started; an exception of its stream is not caught.
abbrev pub uncaught : Bool → World → ℕ × World → Option ℕ × World
uncaught true broken finished = (none, broken)
uncaught false broken (code, w) = (some code, w)

abbrev pub streamed : Machine → RunRequest → Run → Loop → Option ℕ × World
streamed m r run l = uncaught run.breaks l.world (finish m r run l)

-- A launch of an adapter that there is.
abbrev pub spawned : Machine → RunRequest → Launch → World → Option ℕ × World
spawned m r unknown_agent w = (some 2, w)
spawned m r account_mismatch w = (some 2, launch_failed m r (registered m r w))
spawned m r not_started w = (some 1, launch_failed m r (registered m r w))
spawned m r launch_raised w = (none, registered m r w)
spawned m r (started run) w =
    streamed m r run (on_events m r run.events (begun r run (launched m r run (registered m r w))))

abbrev pub has_adapter : Launch → Bool
has_adapter unknown_agent = false
has_adapter _ = true

-- The exit code, `none` where an exception leaves `execute`, and the world after it. A posture that
-- there is not is an exception too, before there is a row.
unfoldable pub execute : Machine → RunRequest → Launch → World → Option ℕ × World
unfolding registered on_events finish update set_status
execute m r launch w =
    if has_adapter launch && not (member r.posture postures)
    then (none, w)
    else spawned m r launch w
