-- ===== src/Schedule/Create.antt =====
-- `create` of horus/schedule.py: the units of a one-shot dispatch, written and armed. The unit directory
-- is taken to be there.
pub mod Whole
use horus_harness.Prelude.{
  String, Bool, true, false, Option, none, some, List, [], ◌∷◌, ◌++◌, Result, ok, err,
}
use horus_harness.Prelude.{◌≡◌, refl, ◌==◌, if◌then◌else◌, not, Bool-cases, inl, inr, member}
use horus_harness.Prelude.Dict
use horus_harness.Prelude.Text.{◌<>◌}
use horus_harness.Schedule.Units.{service_unit, notify_unit, timer_unit}
use horus_harness.Schedule.Life.{
  Units, Schedule, Systemd, Answer, done, refused, crashed, Written, whole, torn, put, enable,
  reload, service_file, notify_file, timer_file, Fault, systemctl_failed, write_failed, armed_by,
  remove_units,
}

pub data ScheduleError : Type 0 where
  not_available no_command rejected not_armed : ScheduleError
  raised : Fault → ScheduleError

-- What is asked for, and what the machine gives: the directory, PATH, a fresh id, and the launcher.
pub record Request : Type 0 where
  pub when : String
  pub command : List String
  pub description : String
  pub cwd : String
  pub card : Option String
  pub launcher : List String
  pub path : String
  pub ident : String

abbrev card_part : Option String → List String
card_part none = []
card_part (some card) = if card == "" then [] else "--card" ∷ card ∷ []

-- `escalate_command`
unfoldable pub escalate_command : Request → List String
unfolding ◌<>◌
escalate_command r =
    r.launcher
    ++ "notify"
      ∷ "escalate"
      ∷ "--event"
      ∷ "dispatch-launch-failed"
      ∷ "--unit"
      ∷ ("horus-sched-" <> r.ident <> ".service")
      ∷ []
    ++ card_part r.card

-- The texts of the three files.
unfoldable pub service_text : Request → String
unfolding service_unit ◌<>◌
service_text r =
    service_unit r.path r.description r.cwd r.command
      (some ("horus-sched-" <> r.ident <> "-notify.service"))

unfoldable pub notify_text : Request → String
unfolding notify_unit escalate_command
notify_text r = notify_unit r.path r.description r.cwd (escalate_command r)

unfoldable pub timer_text : Request → String
unfolding timer_unit
timer_text r = timer_unit r.description r.when

abbrev created : Request → Schedule
created r = record {
  id = r.ident;
  description = r.description;
  when = r.when;
  command = r.command;
  next_run = some r.when;
  fired = false;
  halted = false;
  halt_reason = none;
}

abbrev is_empty : List String → Bool
is_empty [] = true
is_empty (x ∷ xs) = false

abbrev pub Created : Type 0
Created = Units × Result ScheduleError Schedule

module _ (sd : Systemd) (r : Request) where
  -- After `enable`: a timer that is not armed has its files removed, and systemd is told.
  abbrev pub unarmed : Units → Answer → Created
  unarmed u (crashed b) = (u, err (raised systemctl_failed))
  unarmed u done = (u, err not_armed)
  unarmed u (refused b) = (u, err not_armed)

  abbrev pub after_enable : Units → Answer → Created
  after_enable u (crashed b) = (armed_by b r.ident u, err (raised systemctl_failed))
  after_enable u (refused b) =
      let after = remove_units (armed_by b r.ident u) r.ident in
      unarmed after (sd.call after reload)
  after_enable u done = (armed_by true r.ident u, ok (created r))

  abbrev pub after_reload : Units → Answer → Created
  after_reload u (crashed b) = (u, err (raised systemctl_failed))
  after_reload u (refused b) = (remove_units u r.ident, err rejected)
  after_reload u done = after_enable u (sd.call u (enable r.ident))

  -- The three writes; one that fails is raised.
  abbrev pub with_timer : Units → Written → Created
  with_timer u (torn part) = (
    record u { timers = put (torn part) r.ident (timer_text r) u.timers },
    err (raised write_failed),
  )
  with_timer u whole =
      let after = record u { timers = put whole r.ident (timer_text r) u.timers } in
      after_reload after (sd.call after reload)

  abbrev pub with_notify : Units → Written → Created
  with_notify u (torn part) = (
    record u { notifies = put (torn part) r.ident (notify_text r) u.notifies },
    err (raised write_failed),
  )
  with_notify u whole =
      let after = record u { notifies = put whole r.ident (notify_text r) u.notifies } in
      with_timer after (sd.write after (timer_file r.ident))

  abbrev pub with_service : Units → Written → Created
  with_service u (torn part) = (
    record u { services = put (torn part) r.ident (service_text r) u.services },
    err (raised write_failed),
  )
  with_service u whole =
      let after = record u { services = put whole r.ident (service_text r) u.services } in
      with_notify after (sd.write after (notify_file r.ident))

  unfoldable pub create : Units → Created
  unfolding service_text notify_text timer_text
  create u =
      if not sd.available
      then (u, err not_available)
      else if is_empty r.command
      then (u, err no_command)
      else with_service u (sd.write u (service_file r.ident))
