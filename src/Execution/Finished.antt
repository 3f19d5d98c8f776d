-- ===== src/Execution/Finished.antt =====
-- How a run leaves the row of its session.
use horus_harness.Prelude.{
  ◌&&◌, ℕ, suc, member, String, Bool, true, false, Option, none, some, List, [], ◌∷◌, ◌==◌, not,
  if◌then◌else◌, ◌≡◌, ◌≢◌, ◌↔◌, refl, ap, ◌∙◌, inl, inr, Bool-cases, Option-cases, is_some, eq_iff,
  ne_of_test, arith,
}
use horus_harness.Prelude.Dict
use horus_harness.Prelude.Dict.{get-insert_same}
use horus_harness.Prelude.Integers.{ℤ}
use horus_harness.Notify.{Escalation}
use horus_harness.Delivery.{classify_delivery}
use horus_harness.Registry.Reconcile.{classify_exit}
use horus_harness.Registry.{SessionRecord, Row, Sessions, upsert, update, set_status, at_row}
use horus_harness.Execution.{RunRequest, postures}
use horus_harness.Execution.Agent.{
  Effect, result_logged, completion_recorded, AgentEvent, Run, Launch, unknown_agent,
  account_mismatch, not_started, launch_raised, started, World, Machine, Stream, final_status,
  add_effects, or_else, see, change, close_status, registered,
}
use horus_harness.Execution.Execute.{
  escalate_completion, Loop, on_event, on_events, batch_effects, active, failed_launch, launching,
  uncaught, has_adapter, spawned, finish, execute, push, worker_end, exit_of, completed, launched,
  launch_failed, begun,
}

-- The session has a row.
abbrev HasRow : String → World → Type 0
HasRow id w = (row : Row) × (Dict.get id w.sessions ≡ some row)

at_row-HasRow :
    (id : String) (f : Row → Row) (s : Sessions) (o : Option Row)
    → Dict.get id s ≡ o
    → is_some o ≡ true
    → (row : Row) × (Dict.get id (at_row id f s o).1 ≡ some row)
at_row-HasRow id f s none e h = absurd (cc h)
at_row-HasRow id f s (some row) e h = (f row, get-insert_same id (f row) s)

change-HasRow :
    (now id : String) (f : SessionRecord → SessionRecord) (w : World)
    → HasRow id w
    → HasRow id (change now id f w)
unfolding update
change-HasRow now id f w (row, e) =
    at_row-HasRow id _ w.sessions (Dict.get id w.sessions) refl (rw e refl)

close-status :
    (now id status : String) (code : Option ℤ) (w : World)
    → HasRow id w
    → (row : Row) × (Dict.get id (close_status now id status code w).sessions ≡ some row)
      × (row.known.status ≡ status)
unfolding set_status
close-status now id status code w (row, e) = rw e (_, get-insert_same id _ w.sessions, refl)

registered-HasRow :
    (m : Machine) (r : RunRequest) (w : World) → HasRow r.session_id (registered m r w)
unfolding registered upsert
registered-HasRow m r w = elim (Option-cases (Dict.get r.session_id w.sessions)) [
  | inl e ↦ rw e (_, get-insert_same r.session_id _ w.sessions)
  | inr (row, e) ↦ rw e (row, e)
]

event-HasRow :
    (m : Machine) (r : RunRequest) (ev : AgentEvent) (l : Loop)
    → HasRow r.session_id l.world
    → HasRow r.session_id (on_event m r ev l).world
unfolding on_event
event-HasRow m r ev l h =
    change-HasRow m.now r.session_id (active m (or_else (see ev l.stream).session_id ev.session_id))
      l.world h

events-HasRow :
    (m : Machine) (r : RunRequest) (evs : List AgentEvent) (l : Loop)
    → HasRow r.session_id l.world
    → HasRow r.session_id (on_events m r evs l).world
unfolding on_events
events-HasRow m r [] l h = h
events-HasRow m r (ev ∷ evs) l h =
    events-HasRow m r evs (on_event m r ev l) (event-HasRow m r ev l h)

-- Neither what is logged nor what is pushed touches the sessions.
push_sessions : (esc : Option Escalation) (w : World) → (push esc w).sessions ≡ w.sessions
push_sessions none w = refl
push_sessions (some e) w = refl

if_sessions :
    (b : Bool) (v w : World) → v.sessions ≡ w.sessions → (if b then v else w).sessions ≡ w.sessions
if_sessions true v w e = e
if_sessions false v w e = refl

worker_sessions :
    (r : RunRequest) (esc : Option Escalation) (w : World)
    → (worker_end r esc w).sessions ≡ w.sessions
worker_sessions r esc w =
    if_sessions r.worker (add_effects (batch_effects r.batch) (push esc w)) w (push_sessions esc w)

-- The row of the session is closed, and the exit code is 0 just if it has the status of a clean exit.
abbrev pub IsClosed : String → ℕ × World → Type 0
IsClosed id (code, w) =
    (row : Row) × (Dict.get id w.sessions ≡ some row)
    × (row.known.status ≢ "running")
    × (code ≡ 0 ↔ (row.known.status ≡ "exited"))

ended :
    (status : String) (bad : Bool)
    → (if not (status == "running") then status else if bad then "failed" else "exited") ≢ "running"
ended status true = elim (Bool-cases (status == "running")) [
  | inl e ↦ rw e (ne_of_test "failed" "running" refl)
  | inr e ↦ rw e (ne_of_test status "running" e)
]
ended status false = elim (Bool-cases (status == "running")) [
  | inl e ↦ rw e (ne_of_test "exited" "running" refl)
  | inr e ↦ rw e (ne_of_test status "running" e)
]

final_ends : (status : String) (st : Stream) → final_status status st ≢ "running"
unfolding final_status
final_ends status st =
    ended status (elim st.result_error [ some bad ↦ bad | none ↦ st.saw_stream_error ])

exit_iff : (status : String) → exit_of status ≡ 0 ↔ (status ≡ "exited")
exit_iff status = ground (arith, eq_iff status "exited")

IsClosed-of :
    (id status : String) (code : ℕ) (w : World) (row : Row)
    → Dict.get id w.sessions ≡ some row
    → row.known.status ≡ status
    → status ≢ "running"
    → (code ≡ 0 ↔ (status ≡ "exited"))
    → IsClosed id (code, w)
IsClosed-of id status code w row there e ends iff = (row, there, rw e ends, rw e iff)

never_clean : (s t : String) (n : ℕ) → suc n ≡ 0 → s ≡ t
never_clean s t n e = absurd (omega (arith, e))

failed-IsClosed :
    (m : Machine) (r : RunRequest) (code : ℕ) (w : World)
    → HasRow r.session_id w
    → IsClosed r.session_id (suc code, launch_failed m r w)
failed-IsClosed m r code w h =
    let changed = change m.now r.session_id failed_launch w in
    let there = change-HasRow m.now r.session_id failed_launch w h in
    let (row, found, e) = close-status m.now r.session_id "failed" none changed there in
    IsClosed-of r.session_id "failed" (suc code) (launch_failed m r w) row found e
      (ne_of_test "failed" "running" refl)
      ((never_clean "failed" "exited" code), λ e. absurd (ne_of_test "failed" "exited" refl e))

closing-IsClosed :
    (m : Machine) (r : RunRequest) (status : String) (code : Option ℤ) (es : List Effect)
    (esc : Option Escalation) (w : World)
    → HasRow r.session_id w
    → status ≢ "running"
    → IsClosed r.session_id (
      exit_of status,
      worker_end r esc (add_effects es (close_status m.now r.session_id status code w)),
    )
closing-IsClosed m r status code es esc w h ends =
    let closed = add_effects es (close_status m.now r.session_id status code w) in
    let (row, found, e) = close-status m.now r.session_id status code w h in
    IsClosed-of r.session_id status (exit_of status) (worker_end r esc closed) row
      (ap (Dict.get r.session_id) (worker_sessions r esc closed) ∙ found) e ends (exit_iff status)

finish-IsClosed :
    (m : Machine) (r : RunRequest) (run : Run) (l : Loop)
    → HasRow r.session_id l.world
    → IsClosed r.session_id (finish m r run l)
unfolding finish
finish-IsClosed m r run l h =
    let status = final_status run.status l.stream in
    let delivery = classify_delivery status r.delivery_expected r.dispatch_base_sha m.evidence in
    closing-IsClosed m r status run.returncode
      (result_logged status delivery
        ∷ completion_recorded (classify_exit status l.saw_usage_signal) delivery
        ∷ [])
      (escalate_completion r status delivery m.evidence l.saw_usage_signal)
      (change m.now r.session_id (completed m l.stream.session_id delivery) l.world)
      (change-HasRow m.now r.session_id (completed m l.stream.session_id delivery) l.world h)
      (final_ends run.status l.stream)

-- The adapter is there, its launch ran or was refused, and the stream of a run came to its end.
abbrev pub IsComplete : Launch → Type 0
IsComplete unknown_agent = ⊥
IsComplete launch_raised = ⊥
IsComplete (started run) = run.breaks ≡ false
IsComplete _ = Unit

-- The exit code that is returned, and the row that is left.
abbrev pub Returns : String → Option ℕ × World → Type 0
Returns id (code, w) = (n : ℕ) × (code ≡ some n) × IsClosed id (n, w)

uncaught-Returns :
    (id : String) (breaks : Bool) (broken : World) (step : ℕ × World)
    → breaks ≡ false
    → IsClosed id step
    → Returns id (uncaught breaks broken step)
uncaught-Returns id true broken step h closed = absurd (cc h)
uncaught-Returns id false broken (code, w) h closed = (code, refl, closed)

spawned-Returns :
    (m : Machine) (r : RunRequest) (launch : Launch) (w : World)
    → IsComplete launch
    → Returns r.session_id (spawned m r launch w)
spawned-Returns m r unknown_agent w h = absurd h
spawned-Returns m r launch_raised w h = absurd h
spawned-Returns m r account_mismatch w h =
    (2, refl, failed-IsClosed m r 1 (registered m r w) (registered-HasRow m r w))
spawned-Returns m r not_started w h =
    (1, refl, failed-IsClosed m r 0 (registered m r w) (registered-HasRow m r w))
spawned-Returns m r (started run) w h =
    let row = registered-HasRow m r w in
    let first = change-HasRow m.now r.session_id (launching m run) (registered m r w) row in
    let l = on_events m r run.events (begun r run (launched m r run (registered m r w))) in
    uncaught-Returns r.session_id run.breaks l.world (finish m r run l) h (
      finish-IsClosed m r run l
        (events-HasRow m r run.events (begun r run (launched m r run (registered m r w))) first))

known_posture :
    (id : String) (adapter known : Bool) (bad good : Option ℕ × World)
    → known ≡ true
    → Returns id good
    → Returns id (if adapter && not known then bad else good)
known_posture id adapter false bad good h returns = absurd (cc h)
known_posture id true true bad good h returns = returns
known_posture id false true bad good h returns = returns

-- For a posture and an adapter that there are, and whatever the agent says, as long as neither its
-- launch nor its stream ends in an exception: `execute` returns, the row of the session is closed, not
-- "running", and the exit code is 0 just if the row has the status "exited".
pub execute-IsClosed :
    (m : Machine) (r : RunRequest) (launch : Launch) (w : World)
    → member r.posture postures ≡ true
    → IsComplete launch
    → Returns r.session_id (execute m r launch w)
unfolding execute
execute-IsClosed m r launch w posture complete =
    known_posture r.session_id (has_adapter launch) (member r.posture postures) (none, w)
      (spawned m r launch w) posture (spawned-Returns m r launch w complete)
