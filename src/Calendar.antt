-- ===== src/Calendar.antt =====
-- What the program asks of `datetime`: instants, their UTC dates as day numbers, and the ISO
-- spellings of both. The clock is not the program's: a `Calendar` stands for any that spells a date
-- so that it reads back, and that begins the stamp of an instant with its date.
pub mod Strokes
use horus_harness.Prelude.{ℕ, String, ◌≡◌, Bool, Option, some, beq}
use horus_harness.Prelude.Text.{starts_with}

pub record Calendar : Type 1 where
  pub Instant : Type 0
  pub day : Instant → ℕ
  -- `t.astimezone(timezone.utc).isoformat(timespec="seconds")`
  pub stamp : Instant → String
  -- `date.isoformat()`
  pub iso : ℕ → String
  -- `date.fromisoformat(text)`; `none` is its `ValueError`
  pub from_iso : String → Option ℕ
  pub from_iso-iso : (d : ℕ) → from_iso (iso d) ≡ some d
  pub stamp-day : (t : Instant) (d : ℕ) → starts_with (stamp t) (iso d) ≡ beq (day t) d
