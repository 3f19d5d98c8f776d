-- ===== src/InputBridge/Board/Refined.antt =====
-- A sequence of events, on the files and on the board.
use horus_harness.Prelude.{List, [], ◌∷◌, ◌≡◌, refl, ap, ◌∙◌}
use horus_harness.Prelude.Dict
use horus_harness.Prelude.Dict.{get-insert, get-erase}
use horus_harness.InputBridge.{Store}
use horus_harness.InputBridge.Board.{
  absent, Event, Board, spec_step, step, Models, run, spec_run, no_files,
}
use horus_harness.InputBridge.Board.Steps.{step-Models}

run-Models :
    (es : List Event) (store : Store) (board : Board)
    → Models store board
    → ((run es store).0 ≡ (spec_run es board).0) × Models (run es store).1 (spec_run es board).1
unfolding run spec_run
run-Models [] store board h = (refl, h)
run-Models (e ∷ es) store board h =
    let one = step-Models e store board h in
    let more = run-Models es (step e store).1 (spec_step e board).1 one.1 in
    (
      ap (λ ok. ok ∷ (run es (step e store).1).0) one.0
          ∙ ap (λ oks. (spec_step e board).0 ∷ oks) more.0,
      more.1,
    )

-- From no files on, any sequence of questions, pushes, answers and removals gives the same results on
-- the files as on a board that holds for each id whether it is absent, asked or settled: an answer is
-- taken just where its question is asked, the first one stays, and the files show the board's phase.
pub run_refines :
    (es : List Event)
    → ((run es no_files).0 ≡ (spec_run es (λ k. absent)).0)
      × Models (run es no_files).1 (spec_run es (λ k. absent)).1
unfolding Dict.get
run_refines es = run-Models es no_files (λ k. absent) (λ k. refl)
