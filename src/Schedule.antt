-- ===== src/Schedule.antt =====
-- horus/schedule.py: the command line of a systemd unit, written and read back.
pub mod Quoting
pub mod Units
pub mod Life
pub mod Create
use horus_harness.Prelude.{
  String, Bool, true, false, Option, none, some, List, [], ◌∷◌, ◌==◌, ◌≡◌, refl, map,
}
use horus_harness.Prelude.{if◌then◌else◌, ◌&&◌, ◌||◌, not}
use Prim.Native.Char.{Char}
use horus_harness.Prelude.Text.{◌<>◌, is_space, same_char, join, strip, starts_with, splitlines}

-- `[\s\"'\\$%]`
unfoldable pub is_special : Char → Bool
unfolding is_space
is_special c =
    is_space c
    || same_char c "\""
    || same_char c "'"
    || same_char c "\\"
    || same_char c "$"
    || same_char c "%"

unfoldable pub has_special : String → Bool
unfolding is_special
has_special String.[] = false
has_special (String.◌∷◌ c s) = is_special c || has_special s

-- `.replace("\\", "\\\\").replace('"', '\\"')`
unfoldable pub escape_marks : String → String
escape_marks String.[] = ""
escape_marks (String.◌∷◌ c s) =
    let rest = String.◌∷◌ c (escape_marks s) in
    if same_char c "\\" || same_char c "\"" then String.◌∷◌ "\\" rest else rest

-- `_quote`
unfoldable pub quote : String → String
unfolding has_special escape_marks ◌<>◌
quote part =
    if not (part == "") && not (has_special part)
    then part
    else String.◌∷◌ "\"" (escape_marks part <> "\"")

-- The value of `ExecStart=`.
unfoldable pub exec_line : List String → String
unfolding quote join
exec_line command = join " " (map quote command)

pub record Scan : Type 0 where
  pub current : String
  pub quoted : Bool
  pub escape : Bool

-- What one character does to the scan.
unfoldable pub scan_step : Scan → Char → Scan
unfolding ◌<>◌ is_space
scan_step st c =
    if st.escape
    then record { current = st.current <> String.◌∷◌ c ""; quoted = st.quoted; escape = false }
    else if same_char c "\\"
    then record { current = st.current; quoted = st.quoted; escape = true }
    else if same_char c "\""
    then record { current = st.current; quoted = not st.quoted; escape = false }
    else if is_space c && not st.quoted
    then record { current = ""; quoted = st.quoted; escape = false }
    else record { current = st.current <> String.◌∷◌ c ""; quoted = st.quoted; escape = false }

-- Whether the character ends an argument.
unfoldable pub ends_part : Scan → Char → Bool
unfolding is_space
ends_part st c =
    not st.escape && not (same_char c "\\") && not (same_char c "\"") && is_space c && not st.quoted

-- `if current: parts.append(current)`
abbrev pub keep_part : String → List String → List String
keep_part current parts = if current == "" then parts else current ∷ parts

unfoldable pub scan : Scan → String → List String
unfolding scan_step ends_part
scan st String.[] = keep_part st.current []
scan st (String.◌∷◌ c s) =
    let rest = scan (scan_step st c) s in if ends_part st c then keep_part st.current rest else rest

abbrev pub start : Scan
start = record { current = ""; quoted = false; escape = false }

-- `_unquote_exec`
unfoldable pub unquote_exec : String → List String
unfolding scan
unquote_exec raw = scan start raw

test_quote : exec_line ("run" ∷ "a \"b\"" ∷ []) ≡ "run \"a \\\"b\\\"\""
unfolding exec_line
test_quote = refl

test_unquote : unquote_exec "run \"a \\\"b\\\"\" \"\"" ≡ "run" ∷ "a \"b\"" ∷ []
unfolding unquote_exec
test_unquote = refl
