-- ===== src/Execution.antt =====
-- horus/run_executor.py: one run of an agent. A payload is the dictionary that the request is written
-- as; `none` is a key that is missing.
pub mod RoundTrip
pub mod Agent
pub mod Execute
pub mod Finished
pub mod Examples
use horus_harness.Prelude.{
  ℕ, String, Bool, true, false, Option, none, some, List, [], ◌∷◌, ◌==◌, ◌&&◌, ◌||◌, not,
  if◌then◌else◌, member, any, all,
}
use horus_harness.Prelude.{Result, ok, err, ◌>>=◌, ◌>>◌, raise_if}
use horus_harness.Prelude.Dict
use horus_harness.Prelude.Dict.{Dict}
use horus_harness.Prelude.Integers.{ℤ, pos}

pub record RunRequest : Type 0 where
  pub session_id : String
  pub agent : String
  pub project : String
  pub prompt : String
  pub account : Option String
  pub posture : String
  pub model : Option String
  pub effort : Option String
  pub worker : Bool
  pub resume : Option String
  pub dispatch_base_sha : Option String
  pub dispatch_pending : ℤ
  pub delivery_expected : Bool
  pub watch : Bool
  pub proxied : Bool
  pub batch : Option String

-- A value of JSON, by what the checks ask of it.
pub data Value : Type 0 where
  null : Value
  text : String → Value
  flag : Bool → Value
  integer : ℤ → Value
  composite : Value

abbrev pub nullable : Option String → Value
nullable none = null
nullable (some s) = text s

-- `RunRequest.payload`
unfoldable pub payload : RunRequest → Dict Value
payload r =
    ("session_id", text r.session_id)
    ∷ ("agent", text r.agent)
    ∷ ("project", text r.project)
    ∷ ("prompt", text r.prompt)
    ∷ ("account", nullable r.account)
    ∷ ("posture", text r.posture)
    ∷ ("model", nullable r.model)
    ∷ ("effort", nullable r.effort)
    ∷ ("worker", flag r.worker)
    ∷ ("resume", nullable r.resume)
    ∷ ("dispatch_base_sha", nullable r.dispatch_base_sha)
    ∷ ("dispatch_pending", integer r.dispatch_pending)
    ∷ ("delivery_expected", flag r.delivery_expected)
    ∷ ("watch", flag r.watch)
    ∷ ("proxied", flag r.proxied)
    ∷ ("batch", nullable r.batch)
    ∷ []

pub data Invalid : Type 0 where
  not_a_request : Invalid
  missing_fields : Invalid
  bad_posture : Invalid
  bad_text : String → Invalid
  bad_worker_metadata : Invalid
  bad_delivery_expectation : Invalid
  bad_watch_flag : Invalid
  bad_proxied_flag : Invalid
  no_project_directory : Invalid

-- `adapters.PermissionPosture`
abbrev pub postures : List String
postures = "plan" ∷ "read-only" ∷ "default" ∷ "auto-edit" ∷ "full-auto" ∷ []

abbrev text_at : Option Value → Result Invalid String
text_at (some (text s)) = ok s
text_at _ = err missing_fields

-- A text, or nothing where it is null or missing.
abbrev pub text_or_none : String → Option Value → Result Invalid (Option String)
text_or_none name none = ok none
text_or_none name (some null) = ok none
text_or_none name (some (text s)) = ok (some s)
text_or_none name (some _) = err (bad_text name)

abbrev flag_at : Invalid → Option Value → Result Invalid Bool
flag_at e (some (flag b)) = ok b
flag_at e _ = err e

-- `payload.get(name, False)`
abbrev flag_or_false : Invalid → Option Value → Result Invalid Bool
flag_or_false e none = ok false
flag_or_false e (some (flag b)) = ok b
flag_or_false e (some _) = err e

-- An `int` of Python is a number or a truth value.
abbrev integer_at : Option Value → Result Invalid ℤ
integer_at (some (integer n)) = ok n
integer_at (some (flag b)) = ok (pos (if b then 1 else 0))
integer_at _ = err bad_worker_metadata

-- `RunRequest.from_payload`; `is_dir` is the file system.
unfoldable pub from_payload : (String → Bool) → Option (Dict Value) → Result Invalid RunRequest
unfolding Dict.get
from_payload is_dir none = err not_a_request
from_payload is_dir (some p) = text_at (Dict.get "project" p) >>= λ project.
    text_at (Dict.get "session_id" p) >>= λ session_id. text_at (Dict.get "agent" p) >>= λ agent.
    text_at (Dict.get "prompt" p) >>= λ prompt. text_at (Dict.get "posture" p) >>= λ posture.
    raise_if (not (member posture postures)) bad_posture
    >> (text_or_none "account" (Dict.get "account" p) >>= λ account.
        text_or_none "model" (Dict.get "model" p) >>= λ model.
        text_or_none "effort" (Dict.get "effort" p) >>= λ effort.
        text_or_none "resume" (Dict.get "resume" p) >>= λ resume.
        text_or_none "dispatch_base_sha" (Dict.get "dispatch_base_sha" p) >>= λ base.
        text_or_none "batch" (Dict.get "batch" p) >>= λ batch.
        flag_at bad_worker_metadata (Dict.get "worker" p) >>= λ worker.
        integer_at (Dict.get "dispatch_pending" p) >>= λ pending.
        flag_or_false bad_delivery_expectation (Dict.get "delivery_expected" p) >>= λ expected.
        flag_or_false bad_watch_flag (Dict.get "watch" p) >>= λ watch.
        flag_or_false bad_proxied_flag (Dict.get "proxied" p) >>= λ proxied.
        raise_if (not (is_dir project)) no_project_directory
        >> ok (record {
          session_id = session_id;
          agent = agent;
          project = project;
          prompt = prompt;
          account = account;
          posture = posture;
          model = model;
          effort = effort;
          worker = worker;
          resume = resume;
          dispatch_base_sha = base;
          dispatch_pending = pending;
          delivery_expected = expected;
          watch = watch;
          proxied = proxied;
          batch = batch;
        }))
