-- ===== src/Mergewatch/Settles.antt =====
-- The loop of `watch` ends, in time and with what it saw.
use horus_harness.Prelude.{
  ℕ, zero, suc, ◌+◌, ◌≤◌, ◌<◌, String, Bool, true, false, Option, some, List, ◌≡◌, refl, ◌⊎◌, inl,
  inr, sym,
}
use horus_harness.Prelude.{arith, ok, err, Result, leb}
use horus_harness.Prelude.Dict.{Dict}
use horus_harness.Mergewatch.{
  CheckState, pending, success, failure, Target, Checks, WatchOutcome, WatchState, succeeded,
  failed, timed_out, outcome, overall_state, Watched, judged, round, rounds, awaited, watch,
}

module _ (checks : Checks) (target : Target) (required : Option (List String)) (deadline : ℕ) where
  -- What an outcome of a round says: green, red, or neither yet where the round was late.
  abbrev pub Meaning : ℕ → CheckState → WatchState → Type 0
  Meaning k success succeeded = Unit
  Meaning k failure failed = Unit
  Meaning k pending timed_out = deadline ≤ checks.clock (suc k)
  Meaning _ _ _ = ⊥

  -- The loop has gone past a round: its checks were pending, and it was not late.
  abbrev pub IsPassed : ℕ → Type 0
  IsPassed j =
      ((states : Dict CheckState) × (checks.states j ≡ ok states)
        × (overall_state states required ≡ pending))
      × (checks.clock (suc j) < deadline)

  -- An end in a round: an error of the round, or an outcome of the pinned commit and of its checks.
  abbrev pub IsEnd : ℕ → Watched → Type 0
  IsEnd k result =
      ((e : String) × (checks.states k ≡ err e) × (result ≡ err e))
      ⊎ ((o : WatchOutcome) × (states : Dict CheckState) × (checks.states k ≡ ok states)
          × (result ≡ ok (some o))
          × (o.sha ≡ target.sha)
          × (o.checks ≡ states)
          × Meaning k (overall_state states required) o.state)

  -- An end in some round from `from` on, after rounds that were passed.
  abbrev pub IsEnded : ℕ → Watched → Type 0
  IsEnded from result =
      (k : ℕ) × (from ≤ k) × IsEnd k result × ((j : ℕ) → from ≤ j → j < k → IsPassed j)

  here : (k : ℕ) (result : Watched) → IsEnd k result → IsEnded k result
  here k result end = (k, omega arith, end, λ j low high. absurd (omega (arith, low, high)))

  further : (k : ℕ) (result : Watched) → IsPassed k → IsEnded (suc k) result → IsEnded k result
  further k result passed (n, low, end, before) = (
    n,
    omega (arith, low),
    end,
    λ j from to. elim (split k j from) [
      | inl e ↦ rw (sym e) passed
      | inr later ↦ before j later to
    ],
  )
    where
      split : (k j : ℕ) → k ≤ j → (k ≡ j) ⊎ (suc k ≤ j)
      split k j h = ground arith

  judged-IsEnded :
      (k : ℕ) (states : Dict CheckState) (v : CheckState) (late : Bool) (later : Watched)
      → checks.states k ≡ ok states
      → overall_state states required ≡ v
      → (late ≡ true → deadline ≤ checks.clock (suc k))
      → (late ≡ false → (checks.clock (suc k) < deadline) × IsEnded (suc k) later)
      → IsEnded k (judged target states v late later)
  judged-IsEnded k states success late later s e past more =
      here k _ (inr (outcome target states succeeded, states, s, refl, refl, refl, rw e tt))
  judged-IsEnded k states failure late later s e past more =
      here k _ (inr (outcome target states failed, states, s, refl, refl, refl, rw e tt))
  judged-IsEnded k states pending true later s e past more =
      here k _
        (inr (outcome target states timed_out, states, s, refl, refl, refl, rw e (past refl)))
  judged-IsEnded k states pending false later s e past more =
      let (early, rest) = more refl in further k later ((states, s, e), early) rest

  round-IsEnded :
      (k : ℕ) (seen : Result String (Dict CheckState)) (later : Watched)
      → checks.states k ≡ seen
      → (checks.clock (suc k) < deadline → IsEnded (suc k) later)
      → IsEnded k (round target required seen (leb deadline (checks.clock (suc k))) later)
  round-IsEnded k (err e) later s more = here k (err e) (inl (e, s, refl))
  round-IsEnded k (ok states) later s more =
      judged-IsEnded k states (overall_state states required) (leb deadline (checks.clock (suc k)))
        later s refl (λ late. ground arith)
        (λ early. let soon : checks.clock (suc k) < deadline = ground arith in (soon, more soon))

  rounds_end :
      ((k : ℕ) → checks.clock k + 1 ≤ checks.clock (suc k))
      → (fuel k : ℕ) → deadline ≤ checks.clock (suc k) + fuel
      → IsEnded k (rounds checks target required deadline (suc fuel) k)
  unfolding rounds
  rounds_end ticks zero k h =
      round-IsEnded k (checks.states k) _ refl (λ early. absurd (omega (arith, early, h)))
  rounds_end ticks (suc fuel) k h =
      round-IsEnded k (checks.states k) _ refl
        (λ early. rounds_end ticks fuel (suc k) (omega (arith, ticks (suc k), h)))

-- A watch of a commit that is resolved, and whose contexts are, ends, if each round takes time. It ends
-- in one round, with what that round raises, or with the pinned commit and what that round saw of its
-- checks: green, red, or pending, where the timeout has passed by the time after the round. In every round
-- before it the checks were pending and the timeout had not passed.
pub watch_ends :
    (checks : Checks) (timeout : ℕ) (target : Target) (required : Option (List String))
    → checks.target ≡ ok target
    → awaited checks target ≡ ok required
    → ((k : ℕ) → checks.clock k + 1 ≤ checks.clock (suc k))
    → IsEnded checks target required (checks.clock 0 + timeout) 0 (watch checks timeout)
unfolding watch
watch_ends checks timeout target required resolved known ticks =
    rw (resolved, known)
      (rounds_end checks target required (checks.clock 0 + timeout) ticks timeout 0
        (omega (arith, ticks 0)))
