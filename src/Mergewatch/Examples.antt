-- ===== src/Mergewatch/Examples.antt =====
-- A commit with one required check, which turns green in the second round.
use horus_harness.Prelude.{
  ℕ, zero, suc, String, true, some, List, [], ◌∷◌, ◌↔◌, ◌≡◌, refl, arith, ok, In,
}
use horus_harness.Mergewatch.{
  CheckState, pending, success, Target, Checks, awaited, watch, overall_state, is_watched,
  run_state,
}
use horus_harness.Mergewatch.Green.{IsReported, overall_success_iff}
use horus_harness.Mergewatch.Settles.{IsEnded, watch_ends}

abbrev target : Target
target = record {
  owner = "o";
  repo = "r";
  sha = "abc";
  pr_number = some 7;
  base_branch = some "main";
  is_open_pr = true;
}

abbrev states : ℕ → List (String × CheckState)
states zero = ("tests", pending) ∷ []
states (suc k) = ("tests", success) ∷ ("lint", pending) ∷ []

abbrev checks : Checks
checks = record {
  target = ok target;
  required = ok (some ("tests" ∷ []));
  workflows = ok [];
  states = λ k. ok (states k);
  clock = λ k. k;
}

watch_ends_example : IsEnded checks target (some ("tests" ∷ [])) 5 0 (watch checks 5)
unfolding awaited
watch_ends_example = watch_ends checks 5 target (some ("tests" ∷ [])) refl refl (λ k. omega arith)

overall_success_iff_example : overall_state (states 1) (some ("tests" ∷ [])) ≡ success ↔ (
    IsReported (some ("tests" ∷ [])) (states 1)
    × (((e : String × CheckState) × In e (states 1) × (is_watched (some ("tests" ∷ [])) e.0 ≡ true))
        × ((e : String × CheckState)
            → In e (states 1)
            → is_watched (some ("tests" ∷ [])) e.0 ≡ true
            → e.1 ≡ success)))
overall_success_iff_example = overall_success_iff (states 1) (some ("tests" ∷ []))

-- A run that could not start counts as passed.
startup_failure_passes :
    run_state (record {
      name = some "tests";
      status = some "completed";
      conclusion = some "startup_failure";
    })
    ≡ success
unfolding run_state
startup_failure_passes = refl
