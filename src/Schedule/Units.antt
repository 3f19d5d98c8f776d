-- ===== src/Schedule/Units.antt =====
-- The texts of a schedule's unit files, and what is read back of them. Characters that `_escape`
-- replaces are the two line ends.
use horus_harness.Prelude.{String, Option, none, some, List, [], ◌∷◌, ◌++◌, ◌≡◌, refl}
use horus_harness.Prelude.{if◌then◌else◌, ◌||◌}
use horus_harness.Prelude.Text.{◌<>◌, same_char, join, strip, starts_with, splitlines}
use horus_harness.Schedule.{exec_line}

replace_ends : String → String
replace_ends String.[] = ""
replace_ends (String.◌∷◌ c s) =
    let rest = replace_ends s in
    String.◌∷◌ (if same_char c "\n" || same_char c "\r" then " " else c) rest

-- `_escape`
unfoldable pub escape : String → String
unfolding replace_ends strip
escape value = strip (replace_ends value)

abbrev failure_line : Option String → List String
failure_line none = []
failure_line (some unit) = ("OnFailure=" <> unit) ∷ []

abbrev pub service_section : String → String → List String → List String
service_section cwd path command =
    ""
    ∷ "[Service]"
    ∷ "Type=oneshot"
    ∷ ("WorkingDirectory=" <> cwd)
    ∷ ("Environment=PATH=" <> escape path)
    ∷ ("ExecStart=" <> exec_line command)
    ∷ ""
    ∷ []

-- `_service_unit`, with the value of PATH.
unfoldable pub service_unit : String → String → String → List String → Option String → String
unfolding ◌<>◌ join escape exec_line
service_unit path description cwd command on_failure = join "\n" (
    "[Unit]"
      ∷ ("Description=Horus scheduled dispatch: " <> escape description)
      ∷ failure_line on_failure
    ++ service_section cwd path command)

-- `_notify_unit`
unfoldable pub notify_unit : String → String → String → List String → String
unfolding ◌<>◌ join escape exec_line
notify_unit path description cwd command = join "\n" (
    "[Unit]"
    ∷ ("Description=Horus scheduled dispatch launch-failure escalation: " <> escape description)
    ∷ service_section cwd path command)

-- `_timer_unit`, of a time as it is written.
unfoldable pub timer_unit : String → String → String
unfolding ◌<>◌ join escape
timer_unit description when = join "\n" (
    "[Unit]"
    ∷ ("Description=Horus scheduled dispatch timer: " <> escape description)
    ∷ ""
    ∷ "[Timer]"
    ∷ ("OnCalendar=" <> when)
    ∷ "AccuracySec=1s"
    ∷ "Persistent=true"
    ∷ "RemainAfterElapse=no"
    ∷ ""
    ∷ "[Install]"
    ∷ "WantedBy=timers.target"
    ∷ ""
    ∷ [])

-- The text after another that begins it.
unfoldable pub after : String → String → String
after s String.[] = s
after String.[] (String.◌∷◌ d t) = ""
after (String.◌∷◌ c s) (String.◌∷◌ d t) = after s t

directive_in : String → List String → String
unfolding strip starts_with after
directive_in key [] = ""
directive_in key (line ∷ lines) =
    let rest = directive_in key lines in
    if starts_with (strip line) key then strip (after (strip line) key) else rest

-- `_read_directive`
unfoldable pub read_directive : String → String → String
unfolding directive_in splitlines ◌<>◌
read_directive text key = directive_in (key <> "=") (splitlines text)

-- What follows the first `": "`, or the whole.
unfoldable pub after_colon : String → Option String
unfolding starts_with after
after_colon String.[] = none
after_colon (String.◌∷◌ c s) =
    let rest = after_colon s in
    if starts_with (String.◌∷◌ c s) ": " then some (after (String.◌∷◌ c s) ": ") else rest

unfoldable pub described : String → String
unfolding after_colon
described description = elim (after_colon description) [ none ↦ description | some rest ↦ rest ]

test_timer :
    described (read_directive (timer_unit "fix: it" "2026-07-22 09:00:00") "Description")
    ≡ "fix: it"
unfolding described read_directive timer_unit
test_timer = refl

-- A line end in an argument cuts the command that is read back.
test_cut :
    read_directive (service_unit "/bin" "d" "/" ("run" ∷ "a\nb" ∷ []) none) "ExecStart" ≡ "run \"a"
unfolding read_directive service_unit
test_cut = refl
