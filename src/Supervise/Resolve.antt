-- ===== src/Supervise/Resolve.antt =====
-- From what an owner names to the delivery that is supervised, by the sessions, the envelopes and
-- their ledgers.
pub mod Granting
use horus_harness.Prelude.{
  ℕ, String, Bool, true, false, Option, none, some, List, [], ◌∷◌, ◌==◌, ◌&&◌, ◌||◌, not, map,
  filter, find?,
}
use horus_harness.Prelude.{if◌then◌else◌}
use horus_harness.Prelude.Text.{starts_with, text_le}
use horus_harness.Prelude.Decimal.{decimal}
use horus_harness.Calendar.{Calendar}
use horus_harness.Envelope.{Envelope, Disk, Row}
use horus_harness.Envelope.All.{load_all}
use horus_harness.Envelope.Ledger.{read_ledger}
use horus_harness.Registry.{SessionRecord, Sessions}

pub record SupervisionContext : Type 0 where
  pub root : String
  pub pr_ref : Option String
  pub head_sha : Option String
  pub base_ref : Option String
  pub card : Option String
  pub delivery_expected : Bool
  pub merge_authority : Bool
  pub session_id : Option String
  pub envelope_name : Option String

-- `text or None`
abbrev pub filled : String → Option String
filled s = if s == "" then none else some s

-- An envelope and the line of its ledger that is of a session.
pub record Authority : Type 0 where
  pub envelope : Envelope
  pub row : Row

abbrev pub in_envelope : Envelope → Option Row → Option Authority → Option Authority
in_envelope e none later = later
in_envelope e (some row) later = some (record { envelope = e; row = row })

-- `Registry.all`, of a registry that is reconciled.
abbrev pub records_of : Sessions → List SessionRecord
records_of sessions = map (λ (id, row). row.known) sessions

-- `Path(path) if path else Path(default)`
abbrev root_or : Option String → String → String
root_or none root = root
root_or (some path) root = if path == "" then root else path

-- `f"{n}" if n else sha`
abbrev pr_or_sha : Option ℕ → Option String → Option String
pr_or_sha none sha = sha
pr_or_sha (some ℕ.zero) sha = sha
pr_or_sha (some n) sha = some (decimal n)

abbrev name_of : Option Authority → Option String
name_of none = none
name_of (some a) = some a.envelope.name

abbrev card_of : Option Authority → Option String
card_of none = none
card_of (some a) = filled a.row.card

abbrev pub may_merge : Option Authority → Bool
may_merge none = false
may_merge (some a) = a.envelope.merge_authority

abbrev pub context_with : Option String → SessionRecord → Option Authority → SupervisionContext
context_with path rec found = record {
  root = root_or path rec.project;
  pr_ref = pr_or_sha rec.delivery_pr_number rec.delivery_head_sha;
  head_sha = rec.delivery_head_sha;
  base_ref = rec.dispatch_base_sha;
  card = card_of found;
  delivery_expected = rec.delivery_expected;
  merge_authority = may_merge found;
  session_id = some rec.session_id;
  envelope_name = name_of found;
}

-- The context of a ref that is no session's: it is verified, and never merged.
abbrev pub verify_only : Option String → String → Option String → Option String → SupervisionContext
verify_only path cwd pr_ref card = record {
  root = root_or path cwd;
  pr_ref = pr_ref;
  head_sha = none;
  base_ref = none;
  card = card;
  delivery_expected = false;
  merge_authority = false;
  session_id = none;
  envelope_name = none;
}

-- A dispatch of a card: its time and its session.
abbrev newer : Option Row → Row → Option Row
newer none row = some row
newer (some best) row = if not (text_le row.ts best.ts) then some row else some best

abbrev newest : (Row → Bool) → List Row → Option Row → Option Row
newest p [] best = best
newest p (row ∷ rows) best = newest p rows (if p row then newer best row else best)

abbrev is_text : String → Option String → Bool
is_text s none = false
is_text s (some t) = t == s

-- `r.updated_at or r.last_activity_at or ""`
abbrev moment : SessionRecord → String
moment r =
    if r.updated_at == "" then elim r.last_activity_at [ none ↦ "" | some t ↦ t ] else r.updated_at

-- `max(records, key=...)`: the first of those that are greatest.
abbrev latest : List SessionRecord → Option SessionRecord → Option SessionRecord
latest [] best = best
latest (r ∷ rs) none = latest rs (some r)
latest (r ∷ rs) (some b) = latest rs (if text_le (moment r) (moment b) then some b else some r)

-- `_latest_record_for_branch`
unfoldable pub latest_record_for_branch : Sessions → String → Option SessionRecord
latest_record_for_branch sessions branch =
    latest (filter (λ r. is_text branch r.delivery_branch) (records_of sessions)) none

module _ (cal : Calendar) where
  -- `_find_envelope_for_session`
  unfoldable pub authority_in : Disk → String → List Envelope → Option Authority
  unfolding read_ledger
  authority_in disk session_id [] = none
  authority_in disk session_id (e ∷ rest) =
      in_envelope e (find? (λ row. row.session_id == session_id) (read_ledger disk e.name))
        (authority_in disk session_id rest)

  unfoldable pub find_envelope_for_session : Disk → String → Option Authority
  unfolding authority_in load_all
  find_envelope_for_session disk session_id = authority_in disk session_id (load_all cal disk)

  -- `_context_from_record`
  unfoldable pub context_from_record : Disk → Option String → SessionRecord → SupervisionContext
  unfolding find_envelope_for_session decimal
  context_from_record disk path rec =
      context_with path rec (find_envelope_for_session disk rec.session_id)

  abbrev pub of_matches :
      Disk → Option String → String → String → List SessionRecord → Option SupervisionContext
  of_matches disk path cwd target [] = some (verify_only path cwd (some target) none)
  of_matches disk path cwd target (rec ∷ []) = some (context_from_record disk path rec)
  of_matches disk path cwd target (a ∷ b ∷ rest) = none

  -- `resolve_context`; `none` is a prefix that several sessions have.
  unfoldable pub resolve_context :
      Disk → Sessions → Option String → String → String → Option SupervisionContext
  unfolding context_from_record starts_with
  resolve_context disk sessions path cwd target = of_matches disk path cwd target (
      filter (λ r. r.session_id == target || starts_with r.session_id target) (records_of sessions))

  newest_in : Disk → String → List Envelope → Option Row → Option Row
  unfolding read_ledger
  newest_in disk card [] best = best
  newest_in disk card (e ∷ rest) best = newest_in disk card rest (
      newest (λ row. row.card == card && not (row.session_id == "")) (read_ledger disk e.name) best)

  abbrev session_of : Option Row → Option String
  session_of none = none
  session_of (some row) = some row.session_id

  -- `_latest_session_for_card`, of a card that is not the empty text
  unfoldable pub latest_session_for_card : Disk → String → Option String
  unfolding newest_in load_all
  latest_session_for_card disk card = session_of (newest_in disk card (load_all cal disk) none)

  abbrev record_of : Sessions → Option String → Option SessionRecord
  record_of sessions none = none
  record_of sessions (some id) = find? (λ r. r.session_id == id) (records_of sessions)

  unfoldable pub deferred_record :
      Disk → Sessions → Option String → Option String → Option SessionRecord
  unfolding latest_session_for_card latest_record_for_branch
  deferred_record disk sessions (some card) branch =
      record_of sessions (latest_session_for_card disk card)
  deferred_record disk sessions none (some branch) = latest_record_for_branch sessions branch
  deferred_record disk sessions none none = none

  abbrev pub context_of : Disk → Option String → Option SessionRecord → Option SupervisionContext
  context_of disk path none = none
  context_of disk path (some rec) = some (context_from_record disk path rec)

  -- `resolve_deferred`: by a card, or else by a branch; an empty text is given as `none`.
  unfoldable pub resolve_deferred :
      Disk → Sessions → Option String → Option String → Option String → Option SupervisionContext
  unfolding deferred_record context_from_record
  resolve_deferred disk sessions path card branch =
      context_of disk path (deferred_record disk sessions card branch)
