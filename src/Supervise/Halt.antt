-- ===== src/Supervise/Halt.antt =====
-- `halt_dependents` of horus/supervise.py: the scheduled dispatches of the cards that depend on a card
-- that failed are disarmed. A fault of systemd or of a write is raised, and ends the loop.
pub mod Blocked
use horus_harness.Prelude.{
  String, Bool, true, false, Option, none, some, List, [], ◌∷◌, ◌++◌, ◌==◌, ◌&&◌, ◌||◌, not, map,
  filter,
}
use horus_harness.Prelude.{if◌then◌else◌, member, Result, ok, err}
use horus_harness.Prelude.Dict
use horus_harness.Prelude.Text.{◌<>◌, strip}
use horus_harness.Backlog.{Card, Folder, load_cards, field_value}
use horus_harness.Backlog.Order.{split_on}
use horus_harness.Batch.{tag_of}
use horus_harness.Schedule.Life.{
  Units, Schedule, Systemd, Fault, systemctl_failed, Ended, load_all, halt,
}
use horus_harness.Supervise.Dependents.{Deps, add, transitive_dependents}

abbrev or_text : String → String → String
or_text a b = if a == "" then b else a

abbrev lines_of : List String → List String
lines_of [] = []
lines_of (part ∷ parts) = split_on "\n" part ++ lines_of parts

abbrev set_of : List String → List String
set_of [] = []
set_of (s ∷ rest) = if s == "" then set_of rest else add s (set_of rest)

-- `{p.strip() for p in re.split(r"[,\n]", raw) if p.strip()}`
unfoldable pub dependencies : String → List String
unfolding split_on strip
dependencies raw = set_of (map strip (lines_of (split_on "," raw)))

abbrev add_card : Card → Deps → Deps
add_card card deps =
    Dict.insert card.name
      (dependencies (or_text (field_value card "depends-on") (field_value card "depends_on"))) deps

deps_from : List Card → Deps → Deps
unfolding dependencies field_value
deps_from [] deps = deps
deps_from (card ∷ cards) deps = deps_from cards (add_card card deps)

-- `_card_deps`
unfoldable pub card_deps : Folder → Deps
unfolding deps_from load_cards
card_deps folder = deps_from (load_cards folder) []

-- `_scheduled_card`
unfoldable pub scheduled_card : List String → Option String
unfolding tag_of
scheduled_card command = tag_of "--card" command

-- A card whose dispatch is halted, with the id of its schedule.
abbrev pub Halted : Type 0
Halted = String × String

-- A halt that gives a schedule, or none, or is raised.
abbrev pub after_halt : String → String → Ended → Result Fault (Option Halted) × Units
after_halt card id (err e, u) = (err e, u)
after_halt card id (ok none, u) = (ok none, u)
after_halt card id (ok (some s), u) = (ok (some (card, id)), u)

abbrev pub halt_card :
    Systemd
    → String
    → List String
    → Schedule
    → Units
    → Option String
    → Result Fault (Option Halted) × Units
halt_card sd reason dependents s u none = (ok none, u)
halt_card sd reason dependents s u (some card) =
    if not (card == "") && member card dependents
    then after_halt card s.id (halt sd u s.id reason)
    else (ok none, u)

-- One round of the loop.
unfoldable pub halt_one :
    Systemd → String → List String → Schedule → Units → Result Fault (Option Halted) × Units
unfolding scheduled_card halt
halt_one sd reason dependents s u =
    if s.fired || s.halted
    then (ok none, u)
    else halt_card sd reason dependents s u (scheduled_card s.command)

abbrev pub with_halted : Option Halted → List Halted → List Halted
with_halted none rest = rest
with_halted (some h) rest = h ∷ rest

abbrev pub joined :
    Option Halted → Result Fault (List Halted) × Units → Result Fault (List Halted) × Units
joined one (err e, u) = (err e, u)
joined one (ok rest, u) = (ok (with_halted one rest), u)

-- A fault ends the loop.
abbrev pub chained :
    Result Fault (Option Halted) × Units
    → Result Fault (List Halted) × Units
    → Result Fault (List Halted) × Units
chained (err e, u) rest = (err e, u)
chained (ok one, u) rest = joined one rest

unfoldable pub halt_each :
    Systemd → String → List String → List Schedule → Units → Result Fault (List Halted) × Units
unfolding halt_one
halt_each sd reason dependents [] u = (ok [], u)
halt_each sd reason dependents (s ∷ rest) u =
    let one = halt_one sd reason dependents s u in
    let others = halt_each sd reason dependents rest one.1 in chained one others

abbrev pub or_empty : Option (List String) → List String
or_empty none = []
or_empty (some cards) = cards

unfoldable pub blocked_reason : String → String → String
unfolding ◌<>◌
blocked_reason failed reason = "blocked: depends on failed card " <> failed <> " (" <> reason <> ")"

unfoldable pub halt_dependents :
    Systemd → Folder → String → String → Units → Result Fault (List Halted) × Units
unfolding transitive_dependents card_deps halt_each load_all blocked_reason
halt_dependents sd folder failed reason u =
    if failed == ""
    then (ok [], u)
    else if sd.shows u
    then halt_each sd (blocked_reason failed reason)
        (or_empty (transitive_dependents failed (card_deps folder))) (load_all sd.live u) u
    else (err systemctl_failed, u)
