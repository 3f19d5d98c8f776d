-- ===== src/InputBridge/Awaited.antt =====
-- `await_response`: the loop that a run is blocked in. What the store holds in each round, and the time
-- after it, are given.
use horus_harness.Prelude.{
  ℕ, zero, suc, ◌+◌, ◌≤◌, String, Bool, true, false, Option, none, some, ◌≡◌, leb, ◌⊎◌,
}
use horus_harness.InputBridge.{Store, InputResponse, read_response}

abbrev waited :
    Option InputResponse → Bool → Option (Option InputResponse) → Option (Option InputResponse)
waited (some response) late later = some (some response)
waited none true later = some none
waited none false later = later

module _ (stores : ℕ → Store) (clock : ℕ → ℕ) (id : String) where
  -- The loop from round `k`, with fuel for so many rounds; `none` is a loop that has not ended by then,
  -- and `some none` is no answer in time.
  unfoldable pub await_from : ℕ → ℕ → ℕ → Option (Option InputResponse)
  unfolding read_response
  await_from deadline zero k = none
  await_from deadline (suc fuel) k =
      waited (read_response (stores k) id) (leb deadline (clock (suc k)))
        (await_from deadline fuel (suc k))

  -- With a round for each unit of the timeout and one more.
  unfoldable pub await_response : ℕ → Option (Option InputResponse)
  unfolding await_from
  await_response timeout = await_from (clock 0 + timeout) (suc timeout) 0

  -- Ended with the answer of a round, or after a round without one that was late.
  abbrev pub IsEnded : ℕ → Option (Option InputResponse) → Type 0
  IsEnded deadline result =
      (k : ℕ) × (result ≡ some (read_response (stores k) id))
      × (((response : InputResponse) × (read_response (stores k) id ≡ some response))
          ⊎ (deadline ≤ clock (suc k)))
