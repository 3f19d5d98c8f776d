-- ===== src/Batch.antt =====
-- horus/batch.py: the one signal that a batch of dispatches is complete. `Outcomes` is what
-- `activity.fired_outcomes` finds for a schedule's id; `claimed` the sentinel files.
pub mod Once
pub mod Examples
use horus_harness.Prelude.{
  ℕ, suc, String, Bool, true, false, Option, none, some, List, [], ◌∷◌, map, filter, ◌==◌,
}
use horus_harness.Prelude.{if◌then◌else◌, ◌&&◌, ◌||◌, not, member, all, length}
use horus_harness.Prelude.{or_text, beq}
use horus_harness.Schedule.Life.{Schedule}

-- `activity.RanItem`, as far as a batch reads it.
pub record RanItem : Type 0 where
  pub glyph : String
  pub status : String
  pub pr_number : Option ℕ

pub record BatchMember : Type 0 where
  pub schedule_id : String
  pub description : String
  pub card : Option String
  pub outcome : Option RanItem
  pub done : Bool

pub record BatchReport : Type 0 where
  pub batch_id : String
  pub members : List BatchMember

abbrev pub is_empty : List BatchMember → Bool
is_empty [] = true
is_empty (m ∷ ms) = false

-- `BatchReport.all_done`
unfoldable pub all_done : BatchReport → Bool
all_done r = not (is_empty r.members) && all (λ m. m.done) r.members

-- `BatchReport.finished_count`
unfoldable pub finished_count : BatchReport → ℕ
finished_count r = length (filter (λ m. m.done) r.members)

abbrev head_of : List String → Option String
head_of [] = none
head_of (x ∷ xs) = some x

-- The word after the first of a flag, as `batch_of` and `activity._schedule_card` read it.
unfoldable pub tag_of : String → List String → Option String
tag_of flag [] = none
tag_of flag (x ∷ xs) = let rest = tag_of flag xs in if x == flag then head_of xs else rest

unfoldable pub batch_of : Schedule → Option String
unfolding tag_of
batch_of s = tag_of "--batch" s.command

-- A worker is done when its outcome is not the mark of a run that is pending or running.
abbrev is_done : Option RanItem → Bool
is_done none = false
is_done (some o) = not (o.glyph == "⧗")

abbrev is_tag : String → Option String → Bool
is_tag id none = false
is_tag id (some t) = t == id

abbrev member_of : (String → Option RanItem) → Schedule → BatchMember
member_of outcomes s = record {
  schedule_id = s.id;
  description = s.description;
  card = tag_of "--card" s.command;
  outcome = outcomes s.id;
  done = is_done (outcomes s.id);
}

-- `report` of the armed schedules.
unfoldable pub report : (String → Option RanItem) → List Schedule → String → BatchReport
unfolding batch_of
report outcomes armed batch_id = record {
  batch_id = batch_id;
  members = map (member_of outcomes) (filter (λ s. is_tag batch_id (batch_of s)) armed);
}

-- `_leg_line`, by its parts.
pub record Leg : Type 0 where
  pub glyph : String
  pub label : String
  pub status : String
  pub pr_number : Option ℕ

abbrev label_of : BatchMember → Option String → String
label_of m none = m.schedule_id
label_of m (some card) = or_text card m.schedule_id

abbrev nonzero : Option ℕ → Option ℕ
nonzero none = none
nonzero (some n) = if beq n 0 then none else some n

abbrev leg_of : String → Bool → Option RanItem → Leg
leg_of label true (some o) = record {
  glyph = o.glyph;
  label = label;
  status = o.status;
  pr_number = nonzero o.pr_number;
}
leg_of label _ _ = record {
  glyph = "?";
  label = label;
  status = "did not finish (timed out)";
  pr_number = none;
}

unfoldable pub leg_line : BatchMember → Leg
leg_line m = leg_of (label_of m m.card) m.done m.outcome

-- Without the project's name, which git gives, and the constant event and actions.
pub record Escalation : Type 0 where
  pub batch_id : String
  pub incomplete : Bool
  pub finished : ℕ
  pub total : ℕ
  pub details : List Leg
  pub ok : Bool

-- `_escalation`
unfoldable pub escalation : BatchReport → Bool → Escalation
unfolding all_done finished_count leg_line
escalation r deadline = record {
  batch_id = r.batch_id;
  incomplete = deadline && not (all_done r);
  finished = finished_count r;
  total = length r.members;
  details = map leg_line r.members;
  ok = all_done r;
}

-- `_claim_once`
unfoldable pub claim_once : String → List String → Bool × List String
claim_once batch_id claimed =
    if member batch_id claimed then (false, claimed) else (true, batch_id ∷ claimed)

abbrev pub emit_claimed : BatchReport → Bool → Bool × List String → Option Escalation × List String
emit_claimed r deadline (true, claimed) = (some (escalation r deadline), claimed)
emit_claimed r deadline (false, claimed) = (none, claimed)

-- The guards of `emit_if_complete`, on whether there are no members and whether all are done.
abbrev pub emit_when :
    Bool → Bool → BatchReport → Bool → List String → Option Escalation × List String
emit_when empty done r deadline claimed =
    if empty
    then (none, claimed)
    else if not done && not deadline
    then (none, claimed)
    else emit_claimed r deadline (claim_once r.batch_id claimed)

-- `emit_if_complete` of what `report` gives: the signal that is sent, if any, and the sentinels.
unfoldable pub emit_if_complete : BatchReport → Bool → List String → Option Escalation × List String
unfolding all_done escalation claim_once
emit_if_complete r deadline claimed = emit_when (is_empty r.members) (all_done r) r deadline claimed

abbrev pub note_signal : Option Escalation → List Escalation → List Escalation
note_signal none rest = rest
note_signal (some e) rest = e ∷ rest

-- Calls by workers and deadlines, one after another, and the signals that they send.
unfoldable pub emit_all : List (BatchReport × Bool) → List String → List Escalation
unfolding emit_if_complete
emit_all [] claimed = []
emit_all ((r, deadline) ∷ calls) claimed =
    let (sent, after) = emit_if_complete r deadline claimed in
    note_signal sent (emit_all calls after)
