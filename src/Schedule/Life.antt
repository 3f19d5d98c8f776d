-- ===== src/Schedule/Life.antt =====
-- The life of a schedule: `load_all`, `halt`, `release` and `cancel`. `Units` is the unit directory by
-- id, and the timers that systemd has enabled. What systemd and the file system answer is given, by the
-- units that a call meets: a call may fail or not run, having taken effect or not.
pub mod Disarmed
pub mod Selected
pub mod Examples
use horus_harness.Prelude.{
  ℕ, String, Bool, true, false, Option, none, some, List, [], ◌∷◌, ◌++◌, ◌==◌, map,
}
use horus_harness.Prelude.{
  if◌then◌else◌, ◌&&◌, ◌||◌, not, member, or_text, filter, sorted, is_some, Result, ok, err,
}
use horus_harness.Prelude.Dict
use horus_harness.Prelude.Dict.{Dict}
use horus_harness.Prelude.Text.{◌<>◌, strip, starts_with, text_le}
use horus_harness.Schedule.{unquote_exec}
use horus_harness.Schedule.Units.{service_unit, notify_unit, timer_unit, read_directive, described}

pub record Units : Type 0 where
  pub services : Dict String
  pub notifies : Dict String
  pub timers : Dict String
  pub halts : Dict String
  pub armed : List String

pub record Schedule : Type 0 where
  pub id : String
  pub description : String
  pub when : String
  pub command : List String
  pub next_run : Option String
  pub fired : Bool
  pub halted : Bool
  pub halt_reason : Option String

-- `_live_state` of a unit and its time: the next run, and whether it has fired.
abbrev pub Live : Type 0
Live = String → String → Option String × Bool

-- What systemd is asked.
pub data Call : Type 0 where
  enable : String → Call
  disable : String → Call
  reload : Call

-- A call that has returned 0 has done what it was asked. One that has not (`refused`), or that did not
-- run to its end (`crashed`, which `_systemctl` raises), says whether it took effect all the same.
pub data Answer : Type 0 where
  done : Answer
  refused : Bool → Answer
  crashed : Bool → Answer

abbrev pub takes : Answer → Bool
takes done = true
takes (refused b) = b
takes (crashed b) = b

pub data File : Type 0 where
  service_file : String → File
  notify_file : String → File
  timer_file : String → File
  halt_marker : String → File

-- A file that is written, or that is not; then it is as it was, or holds what was written of it.
pub data Written : Type 0 where
  whole : Written
  torn : Option String → Written

abbrev pub put : Written → String → String → Dict String → Dict String
put whole id text files = Dict.insert id text files
put (torn (some part)) id text files = Dict.insert id part files
put (torn none) id text files = files

-- `shows` is whether the calls of a listing run.
pub record Systemd : Type 0 where
  pub available : Bool
  pub live : Live
  pub shows : Units → Bool
  pub call : Units → Call → Answer
  pub write : Units → File → Written

-- What is raised: by `_systemctl`, or by a write.
pub data Fault : Type 0 where
  systemctl_failed : Fault
  write_failed : Fault

abbrev text_or : Option String → String
text_or none = ""
text_or (some s) = s

abbrev reason_text : Option String → Option String
reason_text none = none
reason_text (some text) = some (or_text (strip text) "halted")

-- `_read_halt`
unfoldable pub read_halt : Units → String → Option String
unfolding strip
read_halt u id = reason_text (Dict.get id u.halts)

abbrev live_of : Live → String → String → Option String → Option String × Bool
live_of live unit when (some reason) = (none, false)
live_of live unit when none = live unit when

unfoldable pub schedule_of : Live → Units → String × String → Schedule
unfolding read_directive described unquote_exec read_halt ◌<>◌
schedule_of live u (id, timer) =
    let when = read_directive timer "OnCalendar" in
    let reason = read_halt u id in
    let (next_run, fired) = live_of live ("horus-sched-" <> id) when reason in
    record {
      id = id;
      description = described (read_directive timer "Description");
      when = when;
      command = unquote_exec (read_directive (text_or (Dict.get id u.services)) "ExecStart");
      next_run = next_run;
      fired = fired;
      halted = is_some reason;
      halt_reason = reason;
    }

abbrev pub by_path : String × String → String × String → Bool
by_path (a, _) (b, _) = text_le ("horus-sched-" <> a <> ".timer") ("horus-sched-" <> b <> ".timer")

abbrev pub sooner : Schedule → Schedule → Bool
sooner a b =
    if a.fired
    then b.fired && text_le a.when b.when
    else if b.fired
    then true
    else text_le a.when b.when

unfoldable pub load_all : Live → Units → List Schedule
unfolding schedule_of sorted ◌<>◌
load_all live u = sorted sooner (map (schedule_of live u) (sorted by_path u.timers))

abbrev pub matches : String → Schedule → Bool
matches ident s = s.id == ident || starts_with s.id ident

abbrev pub only : List Schedule → Option Schedule
only (s ∷ []) = some s
only _ = none

-- The one schedule that an id, or the beginning of one, names.
unfoldable pub selected : Live → Units → String → Option Schedule
unfolding load_all starts_with
selected live u ident = only (filter (matches ident) (load_all live u))

abbrev pub disarm : String → List String → List String
disarm id armed = filter (λ a. not (a == id)) armed

abbrev pub arm : String → List String → List String
arm id armed = if member id armed then armed else id ∷ armed

abbrev pub disarmed : Bool → String → Units → Units
disarmed true id u = record u { armed = disarm id u.armed }
disarmed false id u = u

abbrev pub armed_by : Bool → String → Units → Units
armed_by true id u = record u { armed = arm id u.armed }
armed_by false id u = u

-- What a call gives or raises, and the units after it.
abbrev pub Ended : Type 0
Ended = Result Fault (Option Schedule) × Units

abbrev pub reason_of : String → String
reason_of reason = or_text (strip reason) "halted"

abbrev pub stopped : String → Schedule → Schedule
stopped reason s = record s {
  next_run = none;
  fired = false;
  halted = true;
  halt_reason = some (reason_of reason);
}

-- The last call, `daemon-reload`, after which `given` is returned.
abbrev pub reloaded : Option Schedule → Units → Answer → Ended
reloaded given u (crashed b) = (err systemctl_failed, u)
reloaded given u done = (ok given, u)
reloaded given u (refused b) = (ok given, u)

module _ (sd : Systemd) where
  abbrev pub marked_by : String → Schedule → Units → Written → Ended
  marked_by reason s u whole =
      let after = record u { halts = put whole s.id (reason_of reason) u.halts } in
      reloaded (some (stopped reason s)) after (sd.call after reload)
  marked_by reason s u (torn part) =
      (err write_failed, record u { halts = put (torn part) s.id (reason_of reason) u.halts })

  abbrev pub marking : String → Schedule → Units → Ended
  marking reason s u = marked_by reason s u (sd.write u (halt_marker s.id))

  -- After `disable`, whose return code is not looked at.
  abbrev pub after_disable : String → Schedule → Units → Answer → Ended
  after_disable reason s u (crashed b) = (err systemctl_failed, disarmed b s.id u)
  after_disable reason s u (refused b) = marking reason s (disarmed b s.id u)
  after_disable reason s u done = marking reason s (disarmed true s.id u)

  abbrev pub halt_at : Units → String → Option Schedule → Ended
  halt_at u reason none = (ok none, u)
  halt_at u reason (some s) = after_disable reason s u (sd.call u (disable s.id))

  unfoldable pub halt : Units → String → String → Ended
  unfolding selected strip
  halt u ident reason =
      if sd.shows u then halt_at u reason (selected sd.live u ident) else (err systemctl_failed, u)

  abbrev with_live : Schedule → Option String × Bool → Schedule
  with_live s (next_run, fired) = record s {
    next_run = next_run;
    fired = fired;
    halted = false;
    halt_reason = none;
  }

  -- Of the schedule that is armed again, systemd is asked once more.
  abbrev shown : Schedule → Ended → Ended
  shown s (err e, u) = (err e, u)
  shown s (ok given, u) =
      if sd.shows u
      then (ok (some (with_live s (sd.live ("horus-sched-" <> s.id) s.when))), u)
      else (err systemctl_failed, u)

  abbrev unmarked : Schedule → Units → Ended
  unmarked s u =
      let after = record u { halts = Dict.erase s.id u.halts } in
      shown s (reloaded none after (sd.call after reload))

  abbrev after_enable : Schedule → Units → Answer → Ended
  after_enable s u (crashed b) = (err systemctl_failed, armed_by b s.id u)
  after_enable s u (refused b) = unmarked s (armed_by b s.id u)
  after_enable s u done = unmarked s (armed_by true s.id u)

  abbrev release_at : Units → Option Schedule → Ended
  release_at u none = (ok none, u)
  release_at u (some s) =
      if s.halted then after_enable s u (sd.call u (enable s.id)) else (ok none, u)

  -- A mark that is there is taken to be removed.
  unfoldable pub release : Units → String → Ended
  unfolding selected ◌<>◌
  release u ident =
      if sd.shows u then release_at u (selected sd.live u ident) else (err systemctl_failed, u)

-- `_remove_units`; a file that is there is taken to be removed.
abbrev pub remove_units : Units → String → Units
remove_units u id = record u {
  services = Dict.erase id u.services;
  notifies = Dict.erase id u.notifies;
  timers = Dict.erase id u.timers;
  halts = Dict.erase id u.halts;
}

module _ (sd : Systemd) where
  abbrev removing : Schedule → Units → Ended
  removing s u = let after = remove_units u s.id in reloaded (some s) after (sd.call after reload)

  abbrev after_cancel : Schedule → Units → Answer → Ended
  after_cancel s u (crashed b) = (err systemctl_failed, disarmed b s.id u)
  after_cancel s u (refused b) = removing s (disarmed b s.id u)
  after_cancel s u done = removing s (disarmed true s.id u)

  abbrev cancel_at : Units → Option Schedule → Ended
  cancel_at u none = (ok none, u)
  cancel_at u (some s) = after_cancel s u (sd.call u (disable s.id))

  unfoldable pub cancel : Units → String → Ended
  unfolding selected
  cancel u ident =
      if sd.shows u then cancel_at u (selected sd.live u ident) else (err systemctl_failed, u)
