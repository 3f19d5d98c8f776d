-- ===== src/InputBridge/Examples.antt =====
-- A question with two options, answered by the tap of one, and awaited.
use horus_harness.Prelude.{true, false, none, some, List, [], ◌∷◌, ◌≡◌, refl}
use horus_harness.Prelude.Dict
use horus_harness.InputBridge.{InputRequest, Store, answered, record_answer}
use horus_harness.InputBridge.Answered.{IsRecorded, record_answer-IsRecorded}
use horus_harness.InputBridge.{option}
use horus_harness.InputBridge.Board.{
  Event, ask, push, reply, clean, absent, run, spec_run, no_files, Models,
}
use horus_harness.InputBridge.Board.Refined.{run_refines}

abbrev request : InputRequest
request = record {
  id = "17-ab";
  question = "merge?";
  options = "yes" ∷ "no" ∷ [];
  free_text = false;
  default = none;
  session_id = none;
  project = none;
  created = 17;
  pushed = true;
}

abbrev store : Store
store = record { requests = ("17-ab", some request) ∷ []; responses = [] }

test_tap : (record_answer (some "17") "#1" 20 store).0 ≡ answered "17-ab" "no"
unfolding record_answer Dict.get
test_tap = refl

record_answer-IsRecorded_example : IsRecorded 20 store (record_answer (some "17") "#1" 20 store)
record_answer-IsRecorded_example = record_answer-IsRecorded (some "17") "#1" 20 store

abbrev events : List Event
events =
    ask
      (record {
        question = "merge?";
        options = "yes" ∷ "no" ∷ [];
        free_text = false;
        default = none;
        session_id = none;
        project = none;
      })
      "17-ab" 17
    ∷ push "17-ab"
    ∷ reply "17-ab" "no" option 20
    ∷ reply "17-ab" "yes" option 21
    ∷ clean "17-ab"
    ∷ reply "17-ab" "no" option 22
    ∷ []

test_double_tap : (spec_run events (λ k. absent)).0 ≡ true ∷ true ∷ true ∷ false ∷ true ∷ false ∷ []
unfolding spec_run
test_double_tap = refl

run_refines_example :
    ((run events no_files).0 ≡ (spec_run events (λ k. absent)).0)
    × Models (run events no_files).1 (spec_run events (λ k. absent)).1
run_refines_example = run_refines events
