-- ===== src/Supervise/Examples.antt =====
-- A delivery whose checks are red, with a dispatch that depends on it; one that is merged; and the
-- session that it is of.
use horus_harness.Prelude.{
  String, true, false, none, some, List, [], ◌∷◌, ◌↔◌, ◌≡◌, refl, inl, err, ok, Result, In, member,
  ne_of_test, if◌then◌else◌,
}
use horus_harness.Prelude.Dict
use horus_harness.Prelude.Integers.{pos}
use horus_harness.Calendar.Strokes.{stroke_calendar as cal}
use horus_harness.Backlog.{Folder}
use horus_harness.Envelope.{Envelope, Disk, Row, table, unreadable, fields_of}
use horus_harness.Mergewatch.{failed, WatchState}
use horus_harness.Notify.{pull_only}
use horus_harness.Registry.{SessionRecord, Sessions}
use horus_harness.Schedule.Life.{
  Units, Schedule, Systemd, Fault, systemctl_failed, done, crashed, whole, load_all,
}
use horus_harness.Supervise.{Outside, World, SuperviseOutcome, Verdict}
use horus_harness.Supervise.Accept.{supervise}
use horus_harness.Supervise.Accept.Granted.{accepts, supervise_merges_iff}
use horus_harness.Supervise.Accept.Andon.{supervise_disarms}
use horus_harness.Supervise.Dependents.{IsDependent, direct, transitive_dependents}
use horus_harness.Supervise.Dependents.Reached.{transitive_dependents_iff}
use horus_harness.Supervise.Halt.{Halted, card_deps, scheduled_card, halt_dependents}
use horus_harness.Supervise.Halt.Blocked.{IsStopped, IsWaiting}
use horus_harness.Supervise.Resolve.{SupervisionContext, resolve_context, resolve_deferred}
use horus_harness.Supervise.Resolve.Granting.{IsAuthorized, resolve_context_authority}

abbrev folder : Folder
folder = record {
  root = ("base", "---\nstatus: open\n---\n") ∷ ("next", "---\ndepends-on: x, base\n---\n") ∷ [];
  archive = [];
}

abbrev units : Units
units = record {
  services = ("ab12", "ExecStart=horus run --card next") ∷ [];
  notifies = [];
  timers = ("ab12", "Description=t: next\nOnCalendar=2026-07-22 09:00:00") ∷ [];
  halts = [];
  armed = "ab12" ∷ [];
}

abbrev systemd : Systemd
systemd = record {
  available = true;
  live = λ unit when. (some when, false);
  shows = λ u. true;
  call = λ u c. done;
  write = λ u f. whole;
}

-- One whose `disable` never returns.
abbrev hangs : Systemd
hangs = record systemd { call = λ u c. crashed true }

abbrev out : Outside
out = record {
  pr_view = λ ref. record { returncode = pos 0; stdout = "OPEN\n"; stderr = "" };
  watch = λ ref. ok (record { state = failed; sha = "abc"; checks = [] });
  freshness = λ base. [];
  probe = λ probe. err "no shell";
  pr_merge = λ ref. record { returncode = pos 0; stdout = ""; stderr = "" };
  systemd = systemd;
  transport = record {
    post = λ url p. ok (200, "");
    run = λ args. err (record { what = ""; class_name = "OSError" });
  };
  notify = pull_only;
}

abbrev green : Outside
green = record out {
  watch = λ ref. ok (record { state = WatchState.succeeded; sha = "abc"; checks = [] });
  probe = λ probe. ok (record { returncode = pos 0; stdout = ""; stderr = "" });
}

abbrev world : World
world = record { folder = folder; units = units; pushes = []; probes = []; merges = []; closes = 0 }

abbrev ctx : SupervisionContext
ctx = record {
  root = "/p/app";
  pr_ref = some "7";
  head_sha = some "abc";
  base_ref = some "b0";
  card = some "base";
  delivery_expected = true;
  merge_authority = true;
  session_id = some "s1";
  envelope_name = some "trip";
}

abbrev dispatch : Schedule
dispatch = record {
  id = "ab12";
  description = "next";
  when = "2026-07-22 09:00:00";
  command = "horus" ∷ "run" ∷ "--card" ∷ "next" ∷ [];
  next_run = some "2026-07-22 09:00:00";
  fired = false;
  halted = false;
  halt_reason = none;
}

merges : (supervise green ctx (some "make probe") world).1.merges ≡ "7" ∷ []
unfolding supervise Dict.get Dict.insert
merges = refl

supervise_merges_iff_example :
    (supervise green ctx (some "make probe") world).1.merges
    ≡ (if accepts green ctx (some "make probe") "7" then "7" ∷ [] else [])
supervise_merges_iff_example = supervise_merges_iff green ctx (some "make probe") world

abbrev stopped : SuperviseOutcome
stopped = record {
  verdict = Verdict.escalated;
  reason = "verification failed — required checks failure on abc";
  escalation = some (record {
    sink = "none";
    delivered = false;
    skipped = some "no sink configured";
    error = none;
  });
  halted = "next" ∷ [];
}

escalates : (supervise out ctx none world).0 ≡ ok stopped
unfolding supervise Dict.get Dict.insert
escalates = refl

scheduled : In dispatch (load_all systemd.live units)
unfolding load_all Dict.get
scheduled = inl refl

waits : IsWaiting dispatch "next"
unfolding scheduled_card
waits = (refl, refl, ne_of_test "next" "" refl)

depends : IsDependent (card_deps folder) "base" "next"
unfolding card_deps Dict.get Dict.insert
depends = direct {card = "next"} refl

supervise_disarms_example : IsStopped systemd "ab12" (supervise out ctx none world).1.units
supervise_disarms_example =
    supervise_disarms out ctx none world stopped "base" dispatch "next" escalates refl refl
      (ne_of_test "base" "" refl) scheduled waits depends refl

transitive_dependents_iff_example :
    (result : List String) × (transitive_dependents "a" (("b", "a" ∷ []) ∷ ("a", "b" ∷ []) ∷ [])
      ≡ some result)
    × ((card : String)
        → member card result ≡ true ↔ IsDependent (("b", "a" ∷ []) ∷ ("a", "b" ∷ []) ∷ []) "a" card)
transitive_dependents_iff_example =
    transitive_dependents_iff "a" (("b", "a" ∷ []) ∷ ("a", "b" ∷ []) ∷ [])

-- A dispatch that is disarmed by a call that never returns is not reported.
abbrev result_of : Result Fault (List Halted) × Units → Result Fault (List Halted)
result_of (r, u) = r

test_unreported : result_of (halt_dependents hangs folder "base" "red" units) ≡ err systemctl_failed
unfolding halt_dependents Dict.get Dict.insert
test_unreported = refl

abbrev trip : Envelope
trip = record {
  name = "trip";
  created = "/.";
  expires = "///.";
  cards = "base" ∷ [];
  accounts = [];
  tiers = [];
  efforts = [];
  usage_floor = 0;
  max_attempts_per_card = 1;
  max_dispatches_per_day = 1;
  merge_authority = true;
  revoked = false;
  revoked_at = "";
}

abbrev row : Row
row = record {
  ts = "/.";
  card = "base";
  account = "";
  tier = "high";
  effort = "";
  session_id = "s1";
}

abbrev disk : Disk
unfolding fields_of
disk = record {
  files = ("trip", table (fields_of trip)) ∷ [];
  misread = λ e. unreadable;
  ledgers = ("trip", some row ∷ []) ∷ [];
}

abbrev session : SessionRecord
session = record {
  session_id = "s1";
  agent = "claude";
  project = "/p/app";
  account = none;
  environment = "host";
  pid = none;
  status = "exited";
  returncode = some (pos 0);
  updated_at = "";
  launch_target = "tmux";
  target_ref = none;
  agent_session_id = none;
  termination_reason = none;
  delivery_expected = true;
  delivery_status = "ready";
  dispatch_base_sha = some "b0";
  delivery_branch = none;
  delivery_head_sha = some "abc";
  delivery_pushed_sha = none;
  delivery_pr_number = some 7;
  delivery_local_changes = none;
  delivery_continuity_closed = none;
  delivery_checked_at = none;
  last_activity_at = none;
}

abbrev sessions : Sessions
sessions = ("s1", record { known = session; extra = [] }) ∷ []

resolves : resolve_context cal disk sessions none "/" "s" ≡ some ctx
unfolding resolve_context Dict.get disk
resolves = refl

resolve_context_authority_example : IsAuthorized cal disk ctx
resolve_context_authority_example =
    resolve_context_authority cal disk sessions none "/" "s" none none ctx (inl resolves) refl

-- The card alone leads to the same delivery.
resolves_card : resolve_deferred cal disk sessions none (some row.card) none ≡ some ctx
unfolding resolve_deferred Dict.get disk
resolves_card = refl
