-- ===== src/Envelope/Ledger.antt =====
-- The append-only ledger, and what an envelope has spent by it.
use horus_harness.Prelude.{ℕ, String, Option, none, some, List, [], ◌∷◌, ◌++◌, ◌+◌}
use horus_harness.Prelude.{◌==◌, if◌then◌else◌}
use horus_harness.Prelude.Dict
use horus_harness.Prelude.Dict.{Dict}
use horus_harness.Prelude.Text.{starts_with}
use horus_harness.Calendar.{Calendar}
use horus_harness.Envelope.{Disk, Row, DispatchRequest, or_default}

-- Lines that do not read as an object are skipped.
unfoldable pub readable : List (Option Row) → List Row
readable [] = []
readable (none ∷ lines) = readable lines
readable (some r ∷ lines) = r ∷ readable lines

unfoldable pub read_ledger : Disk → String → List Row
unfolding readable
read_ledger disk name = readable (or_default (Dict.get name disk.ledgers) [])

-- What an envelope has already authorized.
pub record Spend : Type 0 where
  pub attempts_by_card : Dict ℕ
  pub dispatches_today : ℕ
  pub total : ℕ

-- One round of the loop: `attempts[card] = attempts.get(card, 0) + 1`, and the rows of `today`.
unfoldable pub count_row : String → Spend → Row → Spend
count_row today s r = record {
  attempts_by_card =
      if r.card == ""
      then s.attempts_by_card
      else Dict.insert r.card (or_default (Dict.get r.card s.attempts_by_card) 0 + 1)
          s.attempts_by_card;
  dispatches_today = if starts_with r.ts today then s.dispatches_today + 1 else s.dispatches_today;
  total = s.total + 1;
}

unfoldable pub count_rows : String → Spend → List Row → Spend
unfolding count_row
count_rows today s [] = s
count_rows today s (r ∷ rows) = count_rows today (count_row today s r) rows

abbrev pub nothing_spent : Spend
nothing_spent = record { attempts_by_card = []; dispatches_today = 0; total = 0 }

module _ (cal : Calendar) where
  unfoldable pub spend : Disk → String → cal.Instant → Spend
  unfolding count_rows read_ledger
  spend disk name now = count_rows (cal.iso (cal.day now)) nothing_spent (read_ledger disk name)

  unfoldable pub row_of : DispatchRequest → String → cal.Instant → Row
  row_of request session_id now = record {
    ts = cal.stamp now;
    card = request.card;
    account = or_default request.account "";
    tier = request.tier;
    effort = request.effort;
    session_id = session_id;
  }

  unfoldable pub record_dispatch : Disk → String → DispatchRequest → String → cal.Instant → Disk
  unfolding row_of
  record_dispatch disk name request session_id now =
      let lines = or_default (Dict.get name disk.ledgers) [] in
      record disk {
        ledgers =
            Dict.insert name (lines ++ some (row_of request session_id now) ∷ []) disk.ledgers;
      }
