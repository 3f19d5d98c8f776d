-- ===== src/Schedule/Create/Whole.antt =====
-- `create` is whole, but where it is interrupted: it arms the timer that it has written, or removes what
-- it wrote.
use horus_harness.Prelude.{String, Bool, true, false, none, some, ok, err, Result}
use horus_harness.Prelude.{◌≡◌, ◌==◌, member}
use horus_harness.Prelude.Dict
use horus_harness.Prelude.Dict.{Dict}
use horus_harness.Schedule.Life.{Units, Schedule}
use horus_harness.Schedule.Create.{ScheduleError, raised, Request, Created, timer_text}

-- Under every other id the two dictionaries have the same.
abbrev pub IsBeside : String → Dict String → Dict String → Type 0
IsBeside id a b = (j : String) → (id == j) ≡ false → Dict.get j b ≡ Dict.get j a

-- Under every id they have.
abbrev pub IsSame : Dict String → Dict String → Type 0
IsSame a b = (j : String) → Dict.get j b ≡ Dict.get j a

-- Only files of the id and its timer differ.
abbrev pub IsApart : String → Units → Units → Type 0
IsApart id before after =
    IsBeside id before.services after.services
    × IsBeside id before.notifies after.notifies
    × IsBeside id before.timers after.timers
    × ((j : String) → (id == j) ≡ false → member j after.armed ≡ member j before.armed)

abbrev pub AreSame : Units → Units → Type 0
AreSame before after =
    IsSame before.services after.services
    × IsSame before.notifies after.notifies
    × IsSame before.timers after.timers

-- No unit file of the id is there.
abbrev pub IsFresh : String → Units → Type 0
IsFresh id u =
    (Dict.get id u.services ≡ none)
    × (Dict.get id u.notifies ≡ none)
    × (Dict.get id u.timers ≡ none)

abbrev pub is_raised : ScheduleError → Bool
is_raised (raised fault) = true
is_raised _ = false

abbrev error_raised : Result ScheduleError Schedule → Bool
error_raised (ok s) = false
error_raised (err e) = is_raised e

module _ (r : Request) (u : Units) where
  -- How a call of `create` ends.
  abbrev pub IsWhole : Created → Type 0
  IsWhole step =
      IsApart r.ident u step.0
      × ((e : ScheduleError) → step.1 ≡ err e → is_raised e ≡ false → AreSame u step.0)
      × ((s : Schedule)
          → step.1 ≡ ok s
          → (s.id ≡ r.ident)
            × (member s.id step.0.armed ≡ true)
            × (Dict.get s.id step.0.timers ≡ some (timer_text r)))
