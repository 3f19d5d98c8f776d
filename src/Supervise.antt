-- ===== src/Supervise.antt =====
-- horus/supervise.py: what runs unattended after a worker, which accepts its delivery or escalates and
-- halts the work that depends on it. `Outside` is what the programs and the machine answer; a `World`
-- is what a run changes.
pub mod Resolve
pub mod Halt
pub mod Accept
pub mod Dependents
pub mod Examples
use horus_harness.Prelude.{
  ℕ, ◌+◌, String, Bool, true, false, Option, none, some, List, [], ◌∷◌, ◌++◌, ◌==◌, ◌&&◌, ◌||◌, not,
  map, filter,
}
use horus_harness.Prelude.{if◌then◌else◌, member, or_text, Result, ok, err}
use horus_harness.Prelude.Text.{◌<>◌, strip, join}
use horus_harness.Prelude.Decimal.{decimal_ℤ, digits_value, isdigit, take_text, last_text}
use horus_harness.Backlog.{Card, Folder, find_card}
use horus_harness.Backlog.Order.{split_on}
use horus_harness.Backlog.Ship.{ShipError, Shipped, ship}
use horus_harness.Schedule.Life.{Units, Systemd}
use horus_harness.Notify.{
  NotifyConfig, Transport, Process, Escalation, EscalationResult, escalate, succeeded,
  supervise_gate,
}
use horus_harness.Mergewatch.{WatchState, WatchOutcome, timed_out, failed}
use horus_harness.Mergewatch
use horus_harness.Supervise.Resolve.{SupervisionContext, verify_only, filled}
use horus_harness.Supervise.Halt.{Halted, halt_dependents}

pub data Verdict : Type 0 where
  merged : Verdict
  verified : Verdict
  escalated : Verdict
  noop : Verdict

pub record SuperviseOutcome : Type 0 where
  pub verdict : Verdict
  pub reason : String
  pub escalation : Option EscalationResult
  pub halted : List String

-- `SuperviseOutcome.exit_code`
unfoldable pub exit_code : SuperviseOutcome → ℕ
exit_code o = elim o.verdict [ escalated ↦ 1 | _ ↦ 0 ]

pub record Finding : Type 0 where
  pub level : String
  pub message : String

-- What `gh`, the watch of the checks, the freshness gate and the probe answer, what systemd says of a
-- timer, and the owner's channel.
pub record Outside : Type 0 where
  pub pr_view : String → Process
  pub watch : String → Result String WatchOutcome
  pub freshness : String → List Finding
  pub probe : String → Result String Process
  pub pr_merge : String → Process
  pub systemd : Systemd
  pub transport : Transport
  pub notify : NotifyConfig

-- The backlog and the schedules, and what was run and sent, the last first.
pub record World : Type 0 where
  pub folder : Folder
  pub units : Units
  pub pushes : List Escalation
  pub probes : List String
  pub merges : List String
  pub closes : ℕ

abbrev state_text : WatchState → String
state_text WatchState.succeeded = "success"
state_text failed = "failure"
state_text timed_out = "timeout"

abbrev pub ci_of : Result String WatchOutcome → Bool × String
ci_of (err e) = (false, "could not watch checks: " <> e)
ci_of (ok o) = elim o.state [
  | WatchState.succeeded ↦ (true, o.sha)
  | _ ↦ (false, "required checks " <> state_text o.state <> " on " <> take_text 12 o.sha)
]

-- `_verify_ci`
unfoldable pub verify_ci : Outside → String → Bool × String
unfolding take_text ◌<>◌
verify_ci out ref = ci_of (out.watch ref)

abbrev pub blocking : List Finding → List Finding
blocking findings = filter (λ f. member f.level ("warn" ∷ "fail" ∷ [])) findings

abbrev pub fresh_of : List Finding → Bool × String
fresh_of [] = (true, "")
fresh_of (f ∷ fs) = (false, join "; " (map (λ g. g.message) (f ∷ fs)))

-- `_verify_freshness`
unfoldable pub verify_freshness : Outside → String → Bool × String
unfolding join
verify_freshness out base = fresh_of (blocking (out.freshness base))

abbrev pub probe_of : Result String Process → Bool × String
probe_of (err e) = (false, "probe could not run: " <> e)
probe_of (ok p) = if succeeded p.returncode then (true, "") else (
  false,
  "probe exited "
      <> decimal_ℤ p.returncode
      <> ": "
      <> last_text 200 (strip (or_text p.stderr p.stdout)),
)

-- `_run_probe`
unfoldable pub run_probe : Outside → String → Bool × String
unfolding strip last_text decimal_ℤ ◌<>◌
run_probe out probe = probe_of (out.probe probe)

-- `_pr_state`
unfoldable pub pr_state : Outside → String → Option String
unfolding strip
pr_state out ref =
    let p = out.pr_view ref in if succeeded p.returncode then filled (strip p.stdout) else none

abbrev pub merge_of : Process → Bool × String
merge_of p =
    if succeeded p.returncode then (true, "") else (false, strip (or_text p.stderr p.stdout))

-- `_merge_pr`
unfoldable pub merge_pr : Outside → String → Bool × String
unfolding strip
merge_pr out ref = merge_of (out.pr_merge ref)

abbrev pub folder_after : Result ShipError Shipped → Result ShipError Folder
folder_after (err e) = err e
folder_after (ok s) = ok s.folder

abbrev pub ship_existing : Folder → String → String → String → Option Card → Result ShipError Folder
ship_existing folder card pr sha none = ok folder
ship_existing folder card pr sha (some existing) =
    if existing.status == "shipped" then ok folder else folder_after (ship folder card pr sha)

-- `_ship_card`
unfoldable pub ship_card : Folder → String → String → String → Result ShipError Folder
unfolding find_card ship
ship_card folder card pr sha = ship_existing folder card pr sha (find_card folder card)

abbrev text_or : Option String → String
text_or none = ""
text_or (some s) = s

abbrev pub given : Option String → Bool
given s = not (text_or s == "")

-- `Path(root).name`
last_part : String → List String → String
last_part name [] = name
last_part name (p ∷ ps) = last_part (if p == "" || p == "." then name else p) ps

unfoldable pub path_name : String → String
unfolding last_part split_on
path_name root = last_part "" (split_on "/" root)

abbrev release_buttons : List Halted → List (String × String)
release_buttons ((a, i) ∷ (b, j) ∷ (c, k) ∷ rest) =
    ("Release " <> a, "release " <> i)
    ∷ ("Release " <> b, "release " <> j)
    ∷ ("Release " <> c, "release " <> k)
    ∷ []
release_buttons halted = map (λ (card, id). ("Release " <> card, "release " <> id)) halted

abbrev session_button : Option String → List (String × String)
session_button session_id =
    if given session_id
    then ("Re-supervise", "supervise " <> take_text 8 (text_or session_id)) ∷ []
    else []

-- The buttons of an escalation: of those that halted, three at most.
unfoldable pub actions_of : SupervisionContext → List Halted → List (String × String)
unfolding take_text ◌<>◌
actions_of ctx halted =
    ("Sessions", "sessions")
    ∷ ("Schedule", "schedule")
    ∷ (session_button ctx.session_id ++ release_buttons halted)

abbrev pr_number : Option String → Option ℕ
pr_number pr_ref = if isdigit (text_or pr_ref) then some (digits_value (text_or pr_ref)) else none

-- The escalation that `_escalate` sends.
unfoldable pub escalation_of : SupervisionContext → String → List Halted → Escalation
unfolding path_name take_text isdigit digits_value actions_of ◌<>◌
escalation_of ctx summary halted = record {
  event = supervise_gate;
  project = path_name ctx.root;
  summary = summary;
  session_id = ctx.session_id;
  card = ctx.card;
  sha = filled (take_text 12 (text_or ctx.head_sha));
  pr = pr_number ctx.pr_ref;
  inspect =
      some (
        if given ctx.pr_ref
        then "horus sessions · PR " <> text_or ctx.pr_ref
        else "horus sessions");
  details = [];
  succeeded = none;
  actions = actions_of ctx halted;
}
