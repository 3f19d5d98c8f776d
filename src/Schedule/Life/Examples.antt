-- ===== src/Schedule/Life/Examples.antt =====
-- Two dispatches, one created, halted, released and cancelled.
use horus_harness.Prelude.{
  true, false, none, some, [], ◌∷◌, ◌==◌, ok, err, filter, not, String, Option, Result, map,
}
use horus_harness.Prelude.{◌≡◌, refl}
use horus_harness.Prelude.Dict
use horus_harness.Prelude.Dict.{Dict}
use horus_harness.Schedule.{unquote_exec, exec_line}
use horus_harness.Schedule.Quoting.{unquote_exec-exec_line}
use horus_harness.Schedule.Life.{
  Units, Schedule, Systemd, Fault, Ended, done, refused, whole, torn, timer_file, halt, release,
  cancel,
}
use horus_harness.Schedule.Create.{Request, Created, create, rejected}

abbrev works : Systemd
works = record {
  available = true;
  live = λ unit when. (some when, false);
  shows = λ u. true;
  call = λ u c. done;
  write = λ u f. whole;
}

-- A systemd that refuses, and leaves what it was asked undone.
abbrev refuses : Systemd
refuses = record works { call = λ u c. refused false }

abbrev request : Request
request = record {
  when = "2026-07-22 09:00:00";
  command = "horus" ∷ "run" ∷ "a b" ∷ [];
  description = "fix";
  cwd = "/p";
  card = some "fix";
  launcher = "horus" ∷ [];
  path = "/bin";
  ident = "ab12";
}

abbrev empty : Units
empty = record { services = []; notifies = []; timers = []; halts = []; armed = "zz" ∷ [] }

abbrev dispatch : Schedule
dispatch = record {
  id = "ab12";
  description = "fix";
  when = "2026-07-22 09:00:00";
  command = "horus" ∷ "run" ∷ "a b" ∷ [];
  next_run = some "2026-07-22 09:00:00";
  fired = false;
  halted = false;
  halt_reason = none;
}

creates : (create works request empty).1 ≡ ok dispatch
unfolding create
creates = refl

fails : (create refuses request empty).1 ≡ err rejected
unfolding create
fails = refl

-- A write that fails leaves the files before it.
abbrev services_of : Created → Dict String
services_of (u, r) = u.services

test_left_behind :
    map
      (λ e. e.0)
      (services_of (
        create
          (record works { write = λ u f. elim f [ timer_file id ↦ torn none | _ ↦ whole ] })
          request
          empty))
    ≡ "ab12" ∷ []
unfolding create Dict.insert
test_left_behind = refl

unquote_exec-exec_line_example :
    unquote_exec (exec_line ("run" ∷ "" ∷ "a \"b\"" ∷ []))
    ≡ filter (λ p. not (p == "")) ("run" ∷ "" ∷ "a \"b\"" ∷ [])
unquote_exec-exec_line_example = unquote_exec-exec_line ("run" ∷ "" ∷ "a \"b\"" ∷ [])

abbrev units : Units
units = record {
  services = ("ab12", "ExecStart=horus run \"a b\"") ∷ [];
  notifies = [];
  timers = ("ab12", "Description=t: fix\nOnCalendar=2026-07-22 09:00:00") ∷ [];
  halts = [];
  armed = "ab12" ∷ "zz" ∷ [];
}

abbrev halted_dispatch : Schedule
halted_dispatch = record dispatch { next_run = none; halted = true; halt_reason = some "red base" }

abbrev given : Ended → Result Fault (Option Schedule)
given (r, u) = r

-- `halt` gives the schedule as halted even where systemd has refused to disable its timer.
halts : (halt refuses units "ab" "red base ").0 ≡ ok (some halted_dispatch)
unfolding halt Dict.get
halts = refl

abbrev halted : Units
halted = record units { halts = ("ab12", "red base") ∷ []; armed = "zz" ∷ [] }

releases : given (release works halted "ab") ≡ ok (some dispatch)
unfolding release Dict.get
releases = refl

cancels : given (cancel works units "ab12") ≡ ok (some dispatch)
unfolding cancel Dict.get
cancels = refl
