-- ===== src/Batch/Examples.antt =====
-- A batch of one leg, called twice by its worker; and versions of the CLI.
use horus_harness.Prelude.{
  String, true, false, Option, none, some, [], ◌∷◌, ◌≡◌, refl, ◌≤◌, if◌then◌else◌, member,
}
use horus_harness.Prelude.Dict
use horus_harness.Frontmatter.Focus.{Files}
use horus_harness.Schedule.Life.{Schedule}
use horus_harness.Batch.{BatchReport, Escalation, RanItem, report, emit_if_complete, emit_all}
use horus_harness.Batch.Once.{signals_of, emit_all_once}
use horus_harness.Versioning.{enforce, is_at_least}

abbrev leg : Schedule
leg = record {
  id = "ab12";
  description = "fix";
  when = "2026-07-22 09:00:00";
  command = "run" ∷ "--card" ∷ "fix" ∷ "--batch" ∷ "trip" ∷ [];
  next_run = none;
  fired = true;
  halted = false;
  halt_reason = none;
}

abbrev outcomes : String → Option RanItem
outcomes id = some (record { glyph = "✓"; status = "delivered"; pr_number = some 7 })

abbrev batch : BatchReport
batch = report outcomes (leg ∷ []) "trip"

emit_all_once_example :
    signals_of "trip" (emit_all ((batch, false) ∷ (batch, true) ∷ []) [])
    ≤ (if member "trip" [] then 0 else 1)
emit_all_once_example = emit_all_once "trip" ((batch, false) ∷ (batch, true) ∷ []) []

abbrev signal : Escalation
signal = record {
  batch_id = "trip";
  incomplete = false;
  finished = 1;
  total = 1;
  details = record { glyph = "✓"; label = "fix"; status = "delivered"; pr_number = some 7 } ∷ [];
  ok = true;
}

sends : (emit_if_complete batch false []).0 ≡ some signal
unfolding emit_if_complete report
sends = refl

abbrev project : Files
project name = some "---\nhorus_min_version: 0.0.26\n---\n"

is_newer : is_at_least "0.1.0" "0.0.30" ≡ true
unfolding is_at_least
is_newer = refl

admits : enforce project "0.0.30" ≡ none
unfolding enforce Dict.get Dict.insert
admits = refl
