-- ===== src/Steering.antt =====
-- horus/notify_listen.py: an owner's commands from the phone. A command runs `horus` with an argument
-- list of a fixed table, or answers a question of InputBridge; `runner` is that process's output.
pub mod Bounded
pub mod Listen
pub mod Once
pub mod Examples
use Prim.Native.Char.{Char, code}
use horus_harness.Prelude.{
  ℕ, String, Bool, true, false, Option, none, some, List, [], ◌∷◌, ◌++◌, ◌==◌, ◌&&◌, ◌||◌, not, map,
}
use horus_harness.Prelude.{if◌then◌else◌, leb, is_some, member, ◌≡◌, refl}
use horus_harness.Prelude.Dict
use horus_harness.Prelude.Dict.{Dict}
use horus_harness.Prelude.Text.{
  ◌<>◌, strip, lstrip, lower, starts_with, same_char, is_space, is_alnum,
}
use horus_harness.Notify.{NotifyConfig}
use horus_harness.InputBridge.{Store, Told, resolve, record_answer}

pub record Command : Type 0 where
  pub argv : List String
  pub takes_arg : Bool
  pub wants_repo : Bool

abbrev plain : List String → Command
plain argv = record { argv = argv; takes_arg = false; wants_repo = false }

abbrev with_arg : List String → Command
with_arg argv = record { argv = argv; takes_arg = true; wants_repo = false }

-- `COMMANDS`, without the help texts
abbrev pub commands : Dict Command
commands =
    ("sessions", plain ("sessions" ∷ "--running" ∷ []))
    ∷ ("schedule", plain ("schedule" ∷ "status" ∷ "--brief" ∷ []))
    ∷ ("backlog", plain ("backlog" ∷ "list" ∷ []))
    ∷ ("usage", plain ("usage" ∷ "all" ∷ []))
    ∷ ("warmup", plain ("warmup" ∷ []))
    ∷ ("cancel", with_arg ("schedule" ∷ "cancel" ∷ []))
    ∷ ("release", with_arg ("schedule" ∷ "release" ∷ []))
    ∷ ("supervise", record { argv = "supervise" ∷ []; takes_arg = true; wants_repo = true })
    ∷ []

-- The text up to a blank, and what follows it.
split_word : String → String × String
unfolding is_space
split_word String.[] = ("", "")
split_word (String.◌∷◌ c s) =
    let (word, rest) = split_word s in
    if is_space c then ("", String.◌∷◌ c s) else (String.◌∷◌ c word, rest)

-- `s.split(maxsplit=1)`: the first word and the rest, `none` where there is no word.
unfoldable pub first_word : String → Option (String × String)
unfolding split_word lstrip
first_word s =
    let (word, rest) = split_word (lstrip s) in
    if word == "" then none else some (word, lstrip rest)

is_safe : Char → Bool
unfolding is_alnum
is_safe c = is_alnum c || same_char c "_" || same_char c "." || same_char c "-"

all_safe : String → Bool
unfolding is_safe
all_safe String.[] = true
all_safe (String.◌∷◌ c s) = is_safe c && all_safe s

-- `_SAFE_ARG.match` of a word
unfoldable pub is_safe_arg : String → Bool
unfolding all_safe
is_safe_arg arg = not (arg == "") && all_safe arg

-- `command.strip().lstrip("/")`
strip_slashes : String → String
strip_slashes String.[] = ""
strip_slashes (String.◌∷◌ c s) =
    let rest = strip_slashes s in if same_char c "/" then rest else String.◌∷◌ c s

-- What a command comes to.
pub data Reaction : Type 0 where
  help : Option String → Reaction
  usage : String → Reaction
  invalid_argument : String → Reaction
  told : Told → Reaction
  runs : List String → Reaction

abbrev pub text_or : Option String → String
text_or none = ""
text_or (some s) = s

abbrev pub with_repo : Command → Option String → List String
with_repo cmd repo =
    if cmd.wants_repo && not (text_or repo == "") then "--path" ∷ text_or repo ∷ [] else []

abbrev pub checked_run : Command → String → Option String → String → Bool → Reaction
checked_run cmd verb repo arg false = invalid_argument verb
checked_run cmd verb repo arg true = runs (cmd.argv ++ arg ∷ [] ++ with_repo cmd repo)

abbrev pub run_with : Command → String → Option String → Option (String × String) → Reaction
run_with cmd verb repo none = usage verb
run_with cmd verb repo (some (arg, rest)) = checked_run cmd verb repo arg (is_safe_arg arg)

unfoldable pub run_command : String → String → Option String → Option Command → Reaction
unfolding first_word is_safe_arg
run_command verb arg repo none = help (some verb)
run_command verb arg repo (some cmd) =
    if cmd.takes_arg
    then run_with cmd verb repo (first_word arg)
    else runs (cmd.argv ++ with_repo cmd repo)

-- `_parse_answer`
abbrev parsed : Store → String → Option (String × String) → Option String × String
parsed store arg none = (none, "")
parsed store arg (some (first, rest)) =
    if not (starts_with first "#") && is_some (resolve store first)
    then (some first, rest)
    else (none, arg)

unfoldable pub parse_answer : Store → String → Option String × String
unfolding first_word starts_with resolve
parse_answer store arg = parsed store arg (first_word arg)

abbrev pub recorded : Told × Store → Reaction × Store
recorded (message, store) = (told message, store)

abbrev pub answer_command : ℕ → Store → Option String × String → Reaction × Store
answer_command now store (target, payload) = recorded (record_answer target payload now store)

-- A verb with its argument.
unfoldable pub react : Option String → ℕ → Store → String → String → Reaction × Store
unfolding run_command parse_answer record_answer Dict.get
react repo now store verb arg =
    if verb == "help" || verb == "start"
    then (help none, store)
    else if verb == "answer"
    then (if arg == ""
        then (usage verb, store)
        else answer_command now store (parse_answer store arg))
    else (run_command verb arg repo (Dict.get verb commands), store)

abbrev pub words_reaction : Option String → ℕ → Store → Option (String × String) → Reaction × Store
words_reaction repo now store none = (help none, store)
words_reaction repo now store (some (verb, rest)) = react repo now store (lower verb) (strip rest)

-- `dispatch`, but for running what is to be run
unfoldable pub dispatch : Option String → ℕ → Store → String → Reaction × Store
unfolding react first_word strip_slashes strip lower
dispatch repo now store command =
    words_reaction repo now store (first_word (strip_slashes (strip command)))

-- A message or the tap of a button, and the chat that it came from.
pub data Update : Type 0 where
  callback : Option String → Option String → Option String → Update
  message : Option String → Option String → Update
  other : Update

-- `_chat_id_of`
unfoldable pub chat_id_of : Update → Option String
chat_id_of (callback chat pressed query) = chat
chat_id_of (message chat text) = chat
chat_id_of other = none

abbrev pub is_text : String → Option String → Bool
is_text s none = false
is_text s (some t) = t == s

abbrev pub is_stranger : NotifyConfig → Update → Bool
is_stranger cfg update =
    not (text_or cfg.chat_id == "") && not (is_text (text_or cfg.chat_id) (chat_id_of update))

pub record Reply : Type 0 where
  pub reaction : Reaction
  pub answer_callback_id : Option String

abbrev replied : Option String → Reaction × Store → Option Reply × Store
replied query (reaction, store) =
    (some (record { reaction = reaction; answer_callback_id = query }), store)

abbrev pub of_update : Option String → ℕ → Store → Update → Option Reply × Store
of_update repo now store (callback chat pressed query) =
    replied query (dispatch repo now store (text_or pressed))
of_update repo now store (message chat text) =
    if text_or text == ""
    then (none, store)
    else replied none (dispatch repo now store (text_or text))
of_update repo now store other = (none, store)

unfoldable pub handle_update :
    NotifyConfig → Option String → ℕ → Store → Update → Option Reply × Store
unfolding chat_id_of dispatch
handle_update cfg repo now store update =
    if is_stranger cfg update then (none, store) else of_update repo now store update
