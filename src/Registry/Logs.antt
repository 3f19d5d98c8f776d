-- ===== src/Registry/Logs.antt =====
-- What the run logs say of a session's end: `_jsonl_result` and `_legacy_log_result`. The log is read
-- whole.
use horus_harness.Prelude.{String, Bool, false, Option, none, some, List, [], ◌∷◌, ◌==◌, ◌≡◌, refl}
use horus_harness.Prelude.{if◌then◌else◌, ◌&&◌, ◌||◌, not}
use Prim.Native.Char.{Char}
use horus_harness.Prelude.Integers.{ℤ}
use horus_harness.Prelude.Text.{◌<>◌, starts_with, is_space, splitlines, same_char}

pub record RunResult : Type 0 where
  pub status : String
  pub returncode : Option ℤ

pub record Event : Type 0 where
  pub event : String
  pub session_id : String
  pub status : String
  pub rc : Option ℤ

-- The event is a result of the session.
abbrev pub is_result : String → Event → Bool
is_result id e =
    e.event == "result" && e.session_id == id && (e.status == "exited" || e.status == "failed")

abbrev pub result_at : String → Event → Option RunResult → Option RunResult
result_at id e (some r) = some r
result_at id e none =
    if is_result id e then some (record { status = e.status; returncode = e.rc }) else none

-- The last result event of the session.
unfoldable pub jsonl_result : String → List Event → Option RunResult
jsonl_result id [] = none
jsonl_result id (e ∷ events) = result_at id e (jsonl_result id events)

-- `t in s`
unfoldable pub contains : String → String → Bool
unfolding starts_with
contains String.[] t = t == ""
contains (String.◌∷◌ c s) t = let rest = contains s t in starts_with (String.◌∷◌ c s) t || rest

word_of : String → String
unfolding is_space
word_of String.[] = ""
word_of (String.◌∷◌ c s) = let rest = String.◌∷◌ c (word_of s) in if is_space c then "" else rest

-- The rest of a text after another, `none` where it does not begin with it.
after : String → String → Option String
after s String.[] = some s
after String.[] (String.◌∷◌ d t) = none
after (String.◌∷◌ c s) (String.◌∷◌ d t) = if same_char c d then after s t else none

abbrev is_word : String → Option String → Bool
is_word id none = false
is_word id (some rest) = not (word_of rest == "") && word_of rest == id

-- `_RESULT_RE` at a line, for one status.
unfoldable pub ends_as : String → String → String → Bool
unfolding after word_of ◌<>◌
ends_as status id line = is_word id (after line (status <> " — session "))

abbrev pub status_only : String → RunResult
status_only status = record { status = status; returncode = none }

unfoldable pub matched : String → List String → Option RunResult
unfolding ends_as
matched id [] = none
matched id (line ∷ lines) =
    let rest = matched id lines in
    if ends_as "exited" id line
    then some (status_only "exited")
    else if ends_as "failed" id line
    then some (status_only "failed")
    else rest

unfoldable pub named : String → List String → Option RunResult
unfolding contains
named id [] = none
named id (line ∷ lines) =
    let rest = named id lines in
    if contains line "RESULT" && contains line id
    then (if contains line "failed"
        then some (status_only "failed")
        else if contains line "exited"
        then some (status_only "exited")
        else rest)
    else rest

-- Lines of the multi-line pattern begin after a newline.
abbrev begin_line : Char → List String → List String
begin_line c [] = String.◌∷◌ c "" ∷ []
begin_line c (t ∷ ts) = String.◌∷◌ c t ∷ ts

unfoldable pub newlines : String → List String
newlines String.[] = "" ∷ []
newlines (String.◌∷◌ c s) =
    let rest = newlines s in if same_char c "\n" then "" ∷ rest else begin_line c rest

abbrev pub or_named : Option RunResult → Option RunResult → Option RunResult
or_named none b = b
or_named (some a) b = some a

unfoldable pub legacy_log_result : String → String → Option RunResult
unfolding matched named newlines splitlines
legacy_log_result id text = or_named (matched id (newlines text)) (named id (splitlines text))

test_legacy : legacy_log_result "s1" "x\nfailed — session s1 (rc 1)\n" ≡ some (status_only "failed")
unfolding legacy_log_result
test_legacy = refl

test_marker : legacy_log_result "s1" "RESULT s1 exited" ≡ some (status_only "exited")
unfolding legacy_log_result
test_marker = refl
