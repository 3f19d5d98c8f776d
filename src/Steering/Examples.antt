-- ===== src/Steering/Examples.antt =====
-- An owner asks for a dispatch to be cancelled, and a stranger for the sessions. An answer that begins
-- as the id of its question does is read as that id.
use horus_harness.Prelude.{
  ℕ, Bool, true, false, none, some, List, [], ◌∷◌, ◌≡◌, ◌⊎◌, refl, ne_of_test, ◌≤◌, ◌+◌, All, leb,
  arith, inl,
}
use mathlib.Core.Path.{subst}
use mathlib.Core.Option.{some-injective}
use horus_harness.Prelude.Dict
use horus_harness.InputBridge.{Store}
use horus_harness.Notify.{NotifyConfig, pull_only}
use horus_harness.Steering.{
  Update, message, runs, dispatch, handle_update, chat_id_of, parse_answer,
}
use horus_harness.Steering.Bounded.{AreListed, handle_update-AreListed}
use horus_harness.Steering.Listen.{Round, Loop, listen, validate_config}
use horus_harness.Steering.Once.{listen_once}

abbrev cfg : NotifyConfig
cfg = record pull_only { sink = "telegram"; token = some "t"; chat_id = some "42" }

abbrev empty : Store
empty = record { requests = []; responses = [] }

test_cancel :
    (dispatch none 0 empty " /Cancel ab12 now").0 ≡ runs ("schedule" ∷ "cancel" ∷ "ab12" ∷ [])
unfolding dispatch Dict.get
test_cancel = refl

test_stranger : (handle_update cfg none 0 empty (message (some "7") (some "sessions"))).0 ≡ none
unfolding handle_update
test_stranger = refl

handle_update-AreListed_example :
    ((chat_id_of (message (some "42") (some "cancel ab12")) ≡ some "42")
      × AreListed none
          (handle_update cfg none 0 empty (message (some "42") (some "cancel ab12"))).0)
    ⊎ (((handle_update cfg none 0 empty (message (some "42") (some "cancel ab12"))).0 ≡ none)
        × ((handle_update cfg none 0 empty (message (some "42") (some "cancel ab12"))).1 ≡ empty))
handle_update-AreListed_example =
    handle_update-AreListed cfg none 0 empty (message (some "42") (some "cancel ab12")) "42" refl
      (ne_of_test "42" "" refl)

abbrev asked : Store
asked = record {
  requests =
      (
        "17-ab",
        some (record {
          id = "17-ab";
          question = "how many?";
          options = [];
          free_text = true;
          default = none;
          session_id = none;
          project = none;
          created = 17;
          pushed = true;
        }),
      )
      ∷ [];
  responses = [];
}

test_answer_as_id : parse_answer asked "1 apple" ≡ (some "1", "apple")
unfolding parse_answer Dict.get
test_answer_as_id = refl

test_valid : validate_config cfg ≡ none
unfolding validate_config
test_valid = refl

-- One message in Telegram's queue, by whether it is still asked for.
abbrev queue : ℕ → Bool → List (ℕ × Update)
queue id true = (id, message (some "42") (some "sessions")) ∷ []
queue id false = []

queue-IsFrom : (offset id : ℕ) (b : Bool) → leb offset id ≡ b → All (λ e. offset ≤ e.0) (queue id b)
queue-IsFrom offset id true e = (ground arith, tt)
queue-IsFrom offset id false e = tt

abbrev round : ℕ → Round
round id = record {
  now = 0;
  clock = 0;
  get_updates = λ offset. some (queue id (leb offset id));
  send = λ reply. true;
  push = λ text. false;
}

abbrev loop : Loop
loop = record {
  offset = 0;
  result = record { handled = 0; ignored = 0; errors = 0 };
  store = empty;
}

listen_once_example : 5 + 1 ≤ 9
unfolding listen
listen_once_example =
    listen_once cfg none 0 (round 5) (round 9) [] loop (queue 5 true) (queue 9 true) refl refl
      (λ offset ws e.
        subst (All (λ e. offset ≤ e.0)) (some-injective (queue 9 (leb offset 9)) ws e)
          (queue-IsFrom offset 9 (leb offset 9) refl))
      (5, message (some "42") (some "sessions")) (9, message (some "42") (some "sessions"))
      (inl refl) (inl refl)
