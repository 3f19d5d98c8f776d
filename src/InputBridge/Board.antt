-- ===== src/InputBridge/Board.antt =====
-- The files of the bridge against what they stand for: a question that is open until it has one answer.
pub mod Steps
pub mod Refined
use horus_harness.Prelude.{
  ℕ, String, Bool, true, false, Option, none, some, List, [], ◌∷◌, ◌==◌, not, ◌≡◌, refl, ap, ◌∙◌,
  ◌&&◌, sym, Bool-cases, Option-cases, inl, inr, eq_iff, if◌then◌else◌, is_some,
}
use mathlib.Core.Path.{subst}
use mathlib.Core.Option
use mathlib.Core.Option.{some-injective}
use horus_harness.Prelude.Dict
use horus_harness.Prelude.Dict.{get-insert, get-erase}
use horus_harness.InputBridge.{
  marked, load_request, is_answered, InputRequest, InputResponse, Kind, Store, Question,
  write_request, write_response, mark_pushed, cleanup,
}

pub data Phase : Type 0 where
  absent : Phase
  asked : Phase
  settled : InputResponse → Phase

-- What happens to the bridge.
pub data Event : Type 0 where
  ask : Question → String → ℕ → Event
  push : String → Event
  reply : String → String → Kind → ℕ → Event
  clean : String → Event

abbrev pub Board : Type 0
Board = String → Phase

-- A question is asked once, answered once, and forgotten.
abbrev pub asked_once : Phase → Phase
asked_once absent = asked
asked_once p = p

abbrev pub replied_once : InputResponse → Phase → Phase
replied_once r asked = settled r
replied_once r p = p

abbrev pub is_asked : Phase → Bool
is_asked asked = true
is_asked _ = false

abbrev pub spec_step : Event → Board → Bool × Board
spec_step (ask q id now) board = (true, λ k. if id == k then asked_once (board k) else board k)
spec_step (push id) board = (true, board)
spec_step (reply id answer kind now) board = (
  is_asked (board id),
  λ k.
      if id == k
      then replied_once (record { id = id; answer = answer; kind = kind; answered_at = now })
          (board k)
      else board k,
)
spec_step (clean id) board = (true, λ k. if id == k then absent else board k)

-- The same events on the files.
abbrev stored : InputRequest × Store → Bool × Store
stored (req, store) = (true, store)

unfoldable pub step : Event → Store → Bool × Store
step (ask q id now) store = stored (write_request q id now store)
step (push id) store = (true, mark_pushed store id)
step (reply id answer kind now) store = write_response id answer kind now store
step (clean id) store = (true, cleanup store id)

-- The two files of a request stand for a phase.
abbrev pub phase_of : Option (Option InputRequest) → Option (Option InputResponse) → Option Phase
phase_of none none = some absent
phase_of (some req) none = some asked
phase_of (some req) (some (some r)) = some (settled r)
phase_of _ _ = none

abbrev pub phase_at : Store → String → Option Phase
phase_at store k = phase_of (Dict.get k store.requests) (Dict.get k store.responses)

abbrev pub Models : Store → Board → Type 0
Models store board = (k : String) → phase_at store k ≡ some (board k)

-- The results of a sequence of events, and what it ends in.
unfoldable pub run : List Event → Store → List Bool × Store
unfolding step
run [] store = ([], store)
run (e ∷ es) store =
    let (ok, after) = step e store in let (oks, last) = run es after in (ok ∷ oks, last)

unfoldable pub spec_run : List Event → Board → List Bool × Board
spec_run [] board = ([], board)
spec_run (e ∷ es) board =
    let (ok, after) = spec_step e board in let (oks, last) = spec_run es after in (ok ∷ oks, last)

abbrev pub no_files : Store
no_files = record { requests = []; responses = [] }
