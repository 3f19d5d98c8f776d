-- ===== src/Steering/Listen.antt =====
-- The loop of horus/notify_listen.py: what it pushes and how it handles what Telegram holds. The answers
-- of Telegram in a round are given.
use horus_harness.Prelude.{
  ℕ, suc, ◌+◌, String, Bool, false, Option, none, some, List, [], ◌∷◌, ◌++◌, ◌==◌, not, ◌||◌,
  if◌then◌else◌, leb,
}
use horus_harness.Prelude.Text.{◌<>◌}
use horus_harness.Prelude.Decimal.{take_text, decimal}
use horus_harness.Notify.{NotifyConfig}
use horus_harness.InputBridge.{InputRequest, Store, list_pending, mark_pushed}
use horus_harness.Steering.{Update, Reply, handle_update, text_or}

pub record Button : Type 0 where
  pub text : String
  pub callback_data : String

abbrev buttons : String → ℕ → List String → List Button
buttons id i [] = []
buttons id i (opt ∷ opts) =
    record { text = opt; callback_data = "answer " <> id <> " #" <> decimal i }
    ∷ buttons id (suc i) opts

-- `sid or "..."`
abbrev or_text : Option String → String → String
or_text o other = if text_or o == "" then other else text_or o

-- The lines of the message and its buttons.
unfoldable pub format_request : InputRequest → List String × List Button
unfolding ◌<>◌ take_text decimal
format_request req = (
  ("❓ " <> or_text req.project "horus" <> " needs input:")
        ∷ req.question
        ∷ (if text_or req.session_id == ""
            then []
            else ("session "
                <> take_text 12 (text_or req.session_id)
                <> " — attach: horus tail "
                <> take_text 12 (text_or req.session_id))
              ∷ [])
      ++ (if req.free_text then "…or type: answer <reply>" ∷ [] else []),
  buttons req.id 0 req.options,
)

-- What a round meets: the time, what Telegram holds from an offset on (`none` is a failed poll), and
-- whether a message goes through.
pub record Round : Type 0 where
  pub now : ℕ
  pub clock : ℕ
  pub get_updates : ℕ → Option (List (ℕ × Update))
  pub send : Reply → Bool
  pub push : List String × List Button → Bool

abbrev push_one : Round → InputRequest → ℕ × Store → ℕ × Store
push_one round req (sent, store) =
    if req.pushed
    then (sent, store)
    else if round.push (format_request req)
    then (suc sent, mark_pushed store req.id)
    else (sent, store)

unfoldable pub push_each : Round → List InputRequest → ℕ × Store → ℕ × Store
unfolding mark_pushed format_request
push_each round [] s = s
push_each round (req ∷ reqs) s = push_each round reqs (push_one round req s)

-- How many were pushed, and the marks.
unfoldable pub emit_pending_requests : Round → Store → ℕ × Store
unfolding push_each list_pending
emit_pending_requests round store = push_each round (list_pending store) (0, store)

pub record ListenResult : Type 0 where
  pub handled : ℕ
  pub ignored : ℕ
  pub errors : ℕ

pub record Loop : Type 0 where
  pub offset : ℕ
  pub result : ListenResult
  pub store : Store

abbrev pub past : ℕ → ℕ → ℕ
past offset id = if leb offset (id + 1) then id + 1 else offset

abbrev counted : Round → ListenResult → Option Reply → ListenResult
counted round r none = record r { ignored = r.ignored + 1 }
counted round r (some reply) =
    if round.send reply
    then record r { handled = r.handled + 1 }
    else record r { errors = r.errors + 1 }

abbrev pub replying : Round → Loop → ℕ → Option Reply × Store → Loop
replying round l id (reply, store) = record {
  offset = past l.offset id;
  result = counted round l.result reply;
  store = store;
}

unfoldable pub handle_each : NotifyConfig → Option String → Round → List (ℕ × Update) → Loop → Loop
unfolding handle_update
handle_each cfg repo round [] l = l
handle_each cfg repo round ((id, update) ∷ us) l =
    handle_each cfg repo round us
      (replying round l id (handle_update cfg repo round.now l.store update))

abbrev pub polled : NotifyConfig → Option String → Round → Loop → Option (List (ℕ × Update)) → Loop
polled cfg repo round l none = record l {
  result = record l.result { errors = l.result.errors + 1 };
}
polled cfg repo round l (some us) = handle_each cfg repo round us l

abbrev pub pushing : Round → Loop → Loop
pushing round l = record l { store = (emit_pending_requests round l.store).1 }

-- One cycle.
unfoldable pub cycle : NotifyConfig → Option String → Round → Loop → Loop
unfolding handle_each emit_pending_requests
cycle cfg repo round l = polled cfg repo round (pushing round l) (round.get_updates l.offset)

pub data Stopped : Type 0 where
  duration_elapsed : Stopped
  max_iterations : Stopped

abbrev is_late : Option ℕ → ℕ → Bool
is_late none now = false
is_late (some deadline) now = leb deadline now

-- `listen` for so many rounds, where `last` is the time after them: where it stands, and why it stopped.
unfoldable pub listen :
    NotifyConfig → Option String → Option ℕ → ℕ → List Round → Loop → Loop × Stopped
unfolding cycle
listen cfg repo deadline last [] l =
    (l, if is_late deadline last then duration_elapsed else max_iterations)
listen cfg repo deadline last (round ∷ rounds) l =
    let rest = listen cfg repo deadline last rounds (cycle cfg repo round l) in
    if is_late deadline round.clock then (l, duration_elapsed) else rest

-- `validate_config`: the exit code where the configuration is no use.
unfoldable pub validate_config : NotifyConfig → Option ℕ
validate_config cfg =
    if not (cfg.sink == "telegram")
    then some 2
    else if text_or cfg.token == "" || text_or cfg.chat_id == ""
    then some 2
    else none
