-- ===== src/Notify.antt =====
-- horus/notify.py: the push channel by which an unattended run reaches its owner. The network and the
-- `hermes` program are a `Transport`; an exception is its text and its class.
pub mod Delivered
pub mod Examples
use horus_harness.Prelude.{
  ℕ, String, Bool, true, false, Option, none, some, List, [], ◌∷◌, ◌++◌, ◌==◌, map, filter,
}
use horus_harness.Prelude.{
  ◌&&◌, ◌||◌, not, if◌then◌else◌, member, or_text, Result, ok, err, ◌>>=◌, ◌>>◌, raise_if, leb, ltb,
  beq,
}
use horus_harness.Prelude.Text.{◌<>◌, strip, join}
use horus_harness.Prelude.Integers.{ℤ, pos}
use horus_harness.Prelude.Decimal.{decimal, decimal_ℤ, take_text, contains, without_char}

abbrev pub delivery_failed : String
delivery_failed = "delivery-failed"

abbrev pub usage_band : String
usage_band = "usage-band"

abbrev pub supervise_gate : String
supervise_gate = "supervise-gate"

abbrev pub dispatch_launch_failed : String
dispatch_launch_failed = "dispatch-launch-failed"

abbrev pub success : String
success = "success"

abbrev pub schedule_batch_complete : String
schedule_batch_complete = "schedule-batch-complete"

abbrev pub default_events : List String
default_events =
    delivery_failed ∷ usage_band ∷ supervise_gate ∷ dispatch_launch_failed ∷ schedule_batch_complete
    ∷ []

pub record NotifyConfig : Type 0 where
  pub sink : String
  pub events : List String
  pub token : Option String
  pub chat_id : Option String
  pub target : Option String
  pub url : Option String

abbrev pub pull_only : NotifyConfig
pull_only = record {
  sink = "none";
  events = default_events;
  token = none;
  chat_id = none;
  target = none;
  url = none;
}

-- `NotifyConfig.enabled`
abbrev pub enabled : NotifyConfig → String → Bool
enabled cfg event = member event cfg.events

pub record Escalation : Type 0 where
  pub event : String
  pub project : String
  pub summary : String
  pub session_id : Option String
  pub card : Option String
  pub sha : Option String
  pub pr : Option ℕ
  pub inspect : Option String
  pub details : List String
  pub succeeded : Option Bool
  pub actions : List (String × String)

-- `Escalation.subject`
unfoldable pub subject : Escalation → String
unfolding ◌<>◌
subject esc = "[horus] " <> esc.project <> ": " <> esc.summary

abbrev mark_of : Option Bool → String → String
mark_of (some good) event = if good then "✓" else "⚠"
mark_of none event = if member event (success ∷ schedule_batch_complete ∷ []) then "✓" else "⚠"

-- `if value: lines.append(...)`
abbrev labelled : String → Option String → List String
labelled label none = []
labelled label (some s) = if s == "" then [] else (label <> s) ∷ []

abbrev numbered : String → Option ℕ → List String
numbered label none = []
numbered label (some n) = if beq n 0 then [] else (label <> decimal n) ∷ []

-- `Escalation.body`
unfoldable pub body : Escalation → String
unfolding ◌<>◌ join decimal
body esc = join "\n" (
    (mark_of esc.succeeded esc.event <> " " <> esc.project <> " · " <> esc.summary)
    ∷ (map (λ d. "  " <> d) esc.details
        ++ labelled "card: " esc.card
        ++ labelled "session: " esc.session_id
        ++ labelled "sha: " esc.sha
        ++ numbered "PR: #" esc.pr
        ++ labelled "inspect: " esc.inspect))

-- `Escalation.text`
unfoldable pub text : Escalation → String
unfolding subject body ◌<>◌
text esc = subject esc <> "\n\n" <> body esc

pub record EscalationResult : Type 0 where
  pub sink : String
  pub delivered : Bool
  pub skipped : Option String
  pub error : Option String

abbrev filled : Option String → Bool
filled none = false
filled (some s) = not (s == "")

abbrev text_or : Option String → String
text_or none = ""
text_or (some s) = s

-- `EscalationResult.describe`
unfoldable pub describe : EscalationResult → String
unfolding ◌<>◌
describe r =
    if r.delivered
    then "delivered via " <> r.sink
    else if filled r.skipped
    then "skipped (" <> text_or r.skipped <> ")"
    else if filled r.error
    then "sink " <> r.sink <> " failed: " <> text_or r.error <> " (run unaffected — best-effort)"
    else "no-op (" <> r.sink <> ")"

-- What is posted: a message with its row of buttons, or an escalation with its subject and text.
pub data Payload : Type 0 where
  message : Option String → String → List (String × String) → Payload
  event_of : String → String → Escalation → Payload

pub record Process : Type 0 where
  pub returncode : ℤ
  pub stdout : String
  pub stderr : String

pub record Raised : Type 0 where
  pub what : String
  pub class_name : String

-- `_post_json`, and `hermes` run by its arguments.
pub record Transport : Type 0 where
  pub post : String → Payload → Result Raised (ℕ × String)
  pub run : List String → Result Raised Process

abbrev value_error : String → Raised
value_error what = record { what = what; class_name = "ValueError" }

abbrev runtime_error : String → Raised
runtime_error what = record { what = what; class_name = "RuntimeError" }

abbrev pub succeeded : ℤ → Bool
succeeded (pos ℕ.zero) = true
succeeded _ = false

abbrev pub Sent : Type 0
Sent = Result Raised (Unit {0})

module _ (transport : Transport) (cfg : NotifyConfig) (esc : Escalation) where
  -- `_send_telegram`
  unfoldable pub send_telegram : Sent
  unfolding body contains without_char take_text decimal ◌<>◌
  send_telegram =
      raise_if (not (filled cfg.token) || not (filled cfg.chat_id))
        (value_error "telegram sink needs both token and chat_id in [notify]")
      >> transport.post ("https://api.telegram.org/bot" <> text_or cfg.token <> "/sendMessage")
          (message cfg.chat_id (body esc) esc.actions)
      >>= λ (status, reply).
          raise_if (not (beq status 200) || not (contains "\"ok\":true" (without_char " " reply))) (
            runtime_error
              ("telegram API returned " <> decimal status <> ": " <> take_text 200 reply))

  -- `_send_webhook`
  unfoldable pub send_webhook : Sent
  unfolding subject text take_text decimal ◌<>◌
  send_webhook =
      raise_if (not (filled cfg.url)) (value_error "webhook sink needs a url in [notify]")
      >> transport.post (text_or cfg.url) (event_of (subject esc) (text esc) esc)
      >>= λ (status, reply).
          raise_if (not (leb 200 status && ltb status 300))
            (runtime_error ("webhook returned " <> decimal status <> ": " <> take_text 200 reply))

  abbrev send_to : Option String → List String
  send_to target = if filled target then "--to" ∷ text_or target ∷ [] else []

  abbrev hermes_ended : Result Raised Process → Sent
  hermes_ended (err e) =
      if e.class_name == "FileNotFoundError"
      then err (runtime_error "hermes not installed on this machine")
      else err e
  hermes_ended (ok p) = raise_if (not (succeeded p.returncode)) (
      runtime_error (
        "hermes send exited "
        <> decimal_ℤ p.returncode
        <> ": "
        <> take_text 200 (strip (or_text p.stderr p.stdout))))

  -- `_send_hermes`
  unfoldable pub send_hermes : Sent
  unfolding subject body take_text strip decimal_ℤ ◌<>◌
  send_hermes = hermes_ended (
      transport.run (
        ("hermes" ∷ "send" ∷ "--quiet" ∷ "--subject" ∷ subject esc ∷ [])
        ++ send_to cfg.target
        ++ body esc ∷ []))

  -- The sink of `_SINKS`, if there is one of the name.
  unfoldable pub sink_of : String → Option (Sent)
  unfolding send_telegram send_webhook send_hermes
  sink_of sink =
      if sink == "telegram"
      then some send_telegram
      else if sink == "hermes"
      then some send_hermes
      else if sink == "webhook"
      then some send_webhook
      else none

abbrev failed : NotifyConfig → String → EscalationResult
failed cfg error = record { sink = cfg.sink; delivered = false; skipped = none; error = some error }

abbrev pub sent : NotifyConfig → Option (Sent) → EscalationResult
sent cfg none = failed cfg ("unknown sink " <> cfg.sink)
sent cfg (some (err e)) = failed cfg (or_text e.what e.class_name)
sent cfg (some (ok _)) = record { sink = cfg.sink; delivered = true; skipped = none; error = none }

-- `escalate`; `force` is the test of the transport.
unfoldable pub escalate : Transport → NotifyConfig → Bool → Escalation → EscalationResult
unfolding sink_of ◌<>◌
escalate transport cfg force esc =
    if cfg.sink == "none"
    then record {
      sink = "none";
      delivered = false;
      skipped = some "no sink configured";
      error = none;
    }
    else if not force && not (enabled cfg esc.event)
    then record {
      sink = cfg.sink;
      delivered = false;
      skipped = some ("event '" <> esc.event <> "' not enabled");
      error = none;
    }
    else sent cfg (sink_of transport cfg esc cfg.sink)

-- The `[notify]` table of the file: a value of another type is `none`.
pub record Table : Type 0 where
  pub sink : Option String
  pub events : Option (List String)
  pub token : Option String
  pub chat_id : Option String
  pub target : Option String
  pub url : Option String

abbrev stripped : Option String → Option String
stripped none = none
stripped (some s) = if strip s == "" then none else some (strip s)

abbrev events_of : Option (List String) → List String
events_of none = default_events
events_of (some raw) = filter (λ e. not (e == "")) (map strip raw)

-- `load_notify_config`, of a file that may be missing, unreadable or without the table.
unfoldable pub load_notify_config : Option Table → NotifyConfig
unfolding strip
load_notify_config none = pull_only
load_notify_config (some raw) = record {
  sink = elim (stripped raw.sink) [ none ↦ "none" | some s ↦ s ];
  events = events_of raw.events;
  token = stripped raw.token;
  chat_id = raw.chat_id;
  target = stripped raw.target;
  url = stripped raw.url;
}
