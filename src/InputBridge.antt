-- ===== src/InputBridge.antt =====
-- horus/input_bridge.py: questions of a run to its owner, and the answers. A `Store` is the files of
-- `~/.horus/input-requests/` by request id; `none` is a file that does not read.
pub mod Answered
pub mod Awaited
pub mod Board
pub mod Examples
use horus_harness.Prelude.{
  ℕ, zero, suc, ◌+◌, String, Bool, true, false, Option, none, some, List, [], ◌∷◌, ◌==◌, ◌&&◌, ◌||◌,
  not, map, filter, sorted,
}
use horus_harness.Prelude.{if◌then◌else◌, leb, is_some, ◌≡◌, refl}
use horus_harness.Prelude.Dict
use horus_harness.Prelude.Dict.{Dict}
use horus_harness.Prelude.Integers.{ℤ, pos, negsuc}
use horus_harness.Prelude.Text.{◌<>◌, strip, starts_with, text_le}
use horus_harness.Prelude.Decimal.{drop_text}
use horus_harness.Backlog.Order.{parse_int}

pub record InputRequest : Type 0 where
  pub id : String
  pub question : String
  pub options : List String
  pub free_text : Bool
  pub default : Option String
  pub session_id : Option String
  pub project : Option String
  pub created : ℕ
  pub pushed : Bool

pub data Kind : Type 0 where
  option : Kind
  typed : Kind

pub record InputResponse : Type 0 where
  pub id : String
  pub answer : String
  pub kind : Kind
  pub answered_at : ℕ

pub record Store : Type 0 where
  pub requests : Dict (Option InputRequest)
  pub responses : Dict (Option InputResponse)

-- What a new request is of; `fresh_id` is `_new_id`.
pub record Question : Type 0 where
  pub question : String
  pub options : List String
  pub free_text : Bool
  pub default : Option String
  pub session_id : Option String
  pub project : Option String

unfoldable pub write_request : Question → String → ℕ → Store → InputRequest × Store
unfolding strip
write_request q fresh_id now store =
    let req : InputRequest = record {
      id = fresh_id;
      question = strip q.question;
      options = q.options;
      free_text = q.free_text;
      default = q.default;
      session_id = q.session_id;
      project = q.project;
      created = now;
      pushed = false;
    } in
    (req, record store { requests = Dict.insert fresh_id (some req) store.requests })

abbrev by_file : String × Option InputRequest → String × Option InputRequest → Bool
by_file (a, _) (b, _) = text_le (a <> ".json") (b <> ".json")

abbrev older : InputRequest → InputRequest → Bool
older a b = leb a.created b.created

abbrev pub is_answered : Store → String → Bool
is_answered store id = is_some (Dict.get id store.responses)

-- Requests that read, and have no response.
unfoldable pub open_requests : Store → Dict (Option InputRequest) → List InputRequest
open_requests store [] = []
open_requests store ((id, none) ∷ rest) = open_requests store rest
open_requests store ((id, some req) ∷ rest) =
    let others = open_requests store rest in
    if is_answered store req.id then others else req ∷ others

unfoldable pub list_pending : Store → List InputRequest
unfolding open_requests sorted ◌<>◌
list_pending store = sorted older (open_requests store (sorted by_file store.requests))

-- `_load_request`
abbrev pub load_request : Store → String → Option InputRequest
load_request store id = elim (Dict.get id store.requests) [ none ↦ none | some file ↦ file ]

abbrev pub marked : Store → String → Option InputRequest → Store
marked store id none = store
marked store id (some req) = if req.pushed then store else record store {
  requests = Dict.insert id (some (record req { pushed = true })) store.requests;
}

unfoldable pub mark_pushed : Store → String → Store
mark_pushed store id = marked store id (load_request store id)

unfoldable pub read_response : Store → String → Option InputResponse
read_response store id = elim (Dict.get id store.responses) [ none ↦ none | some file ↦ file ]

-- `write_response`: whether it was written, and the store.
unfoldable pub write_response : String → String → Kind → ℕ → Store → Bool × Store
write_response id answer kind now store =
    if not (is_some (Dict.get id store.requests))
    then (false, store)
    else if is_answered store id
    then (false, store)
    else (
      true,
      record store {
        responses =
            Dict.insert id
              (some (record { id = id; answer = answer; kind = kind; answered_at = now }))
              store.responses;
      },
    )

abbrev pub only : List InputRequest → Option InputRequest
only (req ∷ []) = some req
only _ = none

-- `resolve`
unfoldable pub resolve : Store → String → Option InputRequest
unfolding list_pending starts_with
resolve store ident =
    only (filter (λ r. r.id == ident || starts_with r.id ident) (list_pending store))

-- What the owner is told.
pub data Told : Type 0 where
  no_single_match : String → Told
  nothing_open : Told
  several_open : List String → Told
  invalid_option : String → Told
  out_of_range : ℤ → String → Told
  empty_answer : Told
  takes_an_option : String → Told
  already_answered : String → Told
  answered : String → String → Told

abbrev pub nth : ℕ → List String → Option String
nth n [] = none
nth zero (x ∷ xs) = some x
nth (suc n) (x ∷ xs) = nth n xs

abbrev pub option_at : ℤ → List String → Option String
option_at (pos n) options = nth n options
option_at (negsuc n) options = none

-- The answer that a payload is, for a request, or why it is none.
pub data Choice : Type 0 where
  chosen : String → Kind → Choice
  refused : Told → Choice

abbrev pub indexed : InputRequest → ℤ → Option String → Choice
indexed req index none = refused (out_of_range index req.id)
indexed req index (some answer) = chosen answer option

abbrev pub picked : InputRequest → String → Option ℤ → Choice
picked req payload none = refused (invalid_option payload)
picked req payload (some index) = indexed req index (option_at index req.options)

unfoldable pub choose : InputRequest → String → Choice
unfolding starts_with parse_int strip drop_text
choose req payload =
    if starts_with payload "#"
    then picked req payload (parse_int (strip (drop_text 1 payload)))
    else if payload == ""
    then refused empty_answer
    else if not req.free_text
    then refused (takes_an_option req.id)
    else chosen payload typed

abbrev pub written : InputRequest → String → Bool × Store → Told × Store
written req answer (true, store) = (answered req.id answer, store)
written req answer (false, store) = (already_answered req.id, store)

abbrev pub answer_with : ℕ → Store → InputRequest → Choice → Told × Store
answer_with now store req (refused why) = (why, store)
answer_with now store req (chosen answer kind) =
    written req answer (write_response req.id answer kind now store)

pub data Target : Type 0 where
  found : InputRequest → Target
  missed : Told → Target

abbrev pub named : String → Option InputRequest → Target
named target none = missed (no_single_match target)
named target (some req) = found req

abbrev pub the_open_one : List InputRequest → Target
the_open_one [] = missed nothing_open
the_open_one (req ∷ []) = found req
the_open_one (a ∷ b ∷ rest) = missed (several_open (map (λ r. r.id) (a ∷ b ∷ rest)))

-- The request that an answer is for: the one named, or the only one that is open.
unfoldable pub target_of : Store → Option String → Target
unfolding resolve list_pending
target_of store none = the_open_one (list_pending store)
target_of store (some target) = named target (resolve store target)

abbrev pub record_for : ℕ → String → Store → Target → Told × Store
record_for now payload store (missed why) = (why, store)
record_for now payload store (found req) = answer_with now store req (choose req (strip payload))

unfoldable pub record_answer : Option String → String → ℕ → Store → Told × Store
unfolding target_of choose write_response strip
record_answer target payload now store = record_for now payload store (target_of store target)

-- `cleanup`
unfoldable pub cleanup : Store → String → Store
cleanup store id = record {
  requests = Dict.erase id store.requests;
  responses = Dict.erase id store.responses;
}
