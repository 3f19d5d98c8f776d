-- ===== src/Envelope/Budget.antt =====
-- Attempts and dispatches stay within an envelope's bounds, over any sequence of launches.
use horus_harness.Prelude.{ℕ, String, ◌≡◌, ◌≢◌, sym, ap, refl, ◌≤◌, some}
use horus_harness.Prelude.{List, [], ◌∷◌, arith, eq_iff, All, Option-cases, inl, inr}
use horus_harness.Calendar.{Calendar}
use horus_harness.Envelope.{Envelope, Disk, load}
use horus_harness.Envelope.Ledger.{spend, read_ledger, row_of, record_dispatch}
use horus_harness.Envelope.Wall.{
  Verdict, authorized, refused, raised, validate, attempts_of, Attempt, dispatch, dispatch_all,
}
use horus_harness.Envelope.Authorized.{validate_iff}
use horus_harness.Envelope.Counts.{
  count_card, count_day, count_card-append, count_day-append, read_ledger-record, load-dispatch,
  attempts-spend, today-spend,
}

-- Every file that reads as the envelope `n` bounds the attempts on a card, and the dispatches of a
-- day, by these numbers.
abbrev pub IsGoverned : (cal : Calendar) → Disk → String → ℕ → ℕ → Type 0
IsGoverned cal disk n attempts dispatches =
    (file : String) (e : Envelope)
    → load cal disk file ≡ some e
    → e.name ≡ n
    → (e.max_attempts_per_card ≤ attempts) × (e.max_dispatches_per_day ≤ dispatches)

module _ (cal : Calendar) where
  -- What a dispatch does: nothing, or one row for an envelope that authorized it.
  data Outcome (disk : Disk) (a : Attempt cal) (after : Disk) : Type 0 where
    unchanged : after ≡ disk → Outcome disk a after
    recorded :
        (e : Envelope)
        → load cal disk a.envelope ≡ some e
        → validate cal disk e a.request a.usage_remaining a.checked_at ≡ authorized
        → after ≡ record_dispatch cal disk e.name a.request a.session_id a.recorded_at
        → Outcome disk a after

  verdict-Outcome :
      (disk : Disk) (a : Attempt cal) (e : Envelope) (v : Verdict)
      → load cal disk a.envelope ≡ some e
      → validate cal disk e a.request a.usage_remaining a.checked_at ≡ v
      → Outcome disk a (dispatch cal disk a)
  unfolding dispatch
  verdict-Outcome disk a e authorized l h = recorded e l h (rw (l, h, dispatch) refl)
  verdict-Outcome disk a e raised l h = unchanged (rw (l, h, dispatch) refl)
  verdict-Outcome disk a e (refused b) l h = unchanged (rw (l, h, dispatch) refl)

  dispatch-Outcome : (disk : Disk) (a : Attempt cal) → Outcome disk a (dispatch cal disk a)
  unfolding dispatch
  dispatch-Outcome disk a = elim (Option-cases (load cal disk a.envelope)) [
    | inl missing ↦ unchanged (rw (missing, dispatch) refl)
    | inr (e, found) ↦
        verdict-Outcome disk a e (validate cal disk e a.request a.usage_remaining a.checked_at)
          found refl
  ]

  IsGoverned-after :
      (n : String) (attempts dispatches : ℕ) (disk : Disk) (a : Attempt cal)
      → IsGoverned cal disk n attempts dispatches
      → IsGoverned cal (dispatch cal disk a) n attempts dispatches
  IsGoverned-after n attempts dispatches disk a g file e l q =
      g file e (rw (load-dispatch cal disk a file) at l) q

  module _ (n c : String) (named : c ≢ "") (attempts dispatches : ℕ) where
    attempts_kept :
        (disk : Disk) (a : Attempt cal) (after : Disk)
        → IsGoverned cal disk n attempts dispatches
        → count_card c (read_ledger disk n) ≤ attempts
        → Outcome disk a after
        → count_card c (read_ledger after n) ≤ attempts
    unfolding row_of
    attempts_kept disk a after g le (unchanged e) = rw e le
    attempts_kept disk a after g le (recorded e l v q) =
        let within = ((validate_iff cal disk e a.request a.usage_remaining a.checked_at).0 v).2 in
        let row = row_of cal a.request a.session_id a.recorded_at in
        rw q (
          ground (
            arith,
            g a.envelope e l,
            within.attempts,
            attempts-spend cal disk n c a.checked_at named,
            read_ledger-record cal disk e.name n a.request a.session_id a.recorded_at,
            count_card-append c (read_ledger disk n) row,
            eq_iff e.name n,
            eq_iff a.request.card c,
          ))

    count_card-dispatch_all :
        (disk : Disk) (launches : List (Attempt cal))
        → IsGoverned cal disk n attempts dispatches
        → count_card c (read_ledger disk n) ≤ attempts
        → count_card c (read_ledger (dispatch_all cal disk launches) n) ≤ attempts
    unfolding dispatch_all
    count_card-dispatch_all disk [] g le = le
    count_card-dispatch_all disk (a ∷ rest) g le =
        count_card-dispatch_all (dispatch cal disk a) rest
          (IsGoverned-after n attempts dispatches disk a g)
          (attempts_kept disk a (dispatch cal disk a) g le (dispatch-Outcome disk a))

  module _ (n : String) (attempts dispatches : ℕ) where
    today_kept :
        (disk : Disk) (a : Attempt cal) (after : Disk) (d : ℕ)
        → IsGoverned cal disk n attempts dispatches
        → cal.day a.checked_at ≡ cal.day a.recorded_at
        → count_day (cal.iso d) (read_ledger disk n) ≤ dispatches
        → Outcome disk a after
        → count_day (cal.iso d) (read_ledger after n) ≤ dispatches
    unfolding row_of
    today_kept disk a after d g same le (unchanged e) = rw e le
    today_kept disk a after d g same le (recorded e l v q) =
        let within = ((validate_iff cal disk e a.request a.usage_remaining a.checked_at).0 v).2 in
        let row = row_of cal a.request a.session_id a.recorded_at in
        rw q (
          ground (
            arith,
            g a.envelope e l,
            within.dispatches,
            today-spend cal disk n a.checked_at,
            read_ledger-record cal disk e.name n a.request a.session_id a.recorded_at,
            count_day-append (cal.iso d) (read_ledger disk n) row,
            cal.stamp-day a.recorded_at d,
            ap cal.iso same,
            eq_iff e.name n,
          ))

    count_day-dispatch_all :
        (disk : Disk) (launches : List (Attempt cal)) (d : ℕ)
        → IsGoverned cal disk n attempts dispatches
        → All (λ a. cal.day a.checked_at ≡ cal.day a.recorded_at) launches
        → count_day (cal.iso d) (read_ledger disk n) ≤ dispatches
        → count_day (cal.iso d) (read_ledger (dispatch_all cal disk launches) n) ≤ dispatches
    unfolding dispatch_all
    count_day-dispatch_all disk [] d g same le = le
    count_day-dispatch_all disk (a ∷ rest) d g (s, same) le =
        count_day-dispatch_all (dispatch cal disk a) rest d
          (IsGoverned-after n attempts dispatches disk a g) same
          (today_kept disk a (dispatch cal disk a) d g s le (dispatch-Outcome disk a))

-- Whatever launches follow one another, and whenever, the attempts that a ledger shows for a named
-- card never pass the bound that every file of its envelope sets.
pub attempts_bounded :
    (cal : Calendar) (n c : String) (attempts dispatches : ℕ) (disk : Disk)
    (launches : List (Attempt cal)) (now later : cal.Instant)
    → c ≢ ""
    → IsGoverned cal disk n attempts dispatches
    → attempts_of (spend cal disk n now) c ≤ attempts
    → attempts_of (spend cal (dispatch_all cal disk launches) n later) c ≤ attempts
attempts_bounded cal n c attempts dispatches disk launches now later named g le = omega (
  arith,
  attempts-spend cal (dispatch_all cal disk launches) n c later named,
  count_card-dispatch_all cal n c named attempts dispatches disk launches g
      (rw (sym (attempts-spend cal disk n c now named)) le),
)

-- Whatever launches follow one another, each recorded on the UTC day on which it was checked, the
-- dispatches that a ledger shows for a day never pass the daily bound that every file of its
-- envelope sets.
pub dispatches_bounded :
    (cal : Calendar) (n : String) (attempts dispatches : ℕ) (disk : Disk)
    (launches : List (Attempt cal)) (now : cal.Instant)
    → IsGoverned cal disk n attempts dispatches
    → All (λ a. cal.day a.checked_at ≡ cal.day a.recorded_at) launches
    → (spend cal disk n now).dispatches_today ≤ dispatches
    → (spend cal (dispatch_all cal disk launches) n now).dispatches_today ≤ dispatches
dispatches_bounded cal n attempts dispatches disk launches now g same le = omega (
  arith,
  today-spend cal (dispatch_all cal disk launches) n now,
  count_day-dispatch_all cal n attempts dispatches disk launches (cal.day now) g same
      (rw (sym (today-spend cal disk n now)) le),
)
