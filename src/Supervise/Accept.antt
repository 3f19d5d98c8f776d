-- ===== src/Supervise/Accept.antt =====
-- `supervise` and `escalate_unresolved` of horus/supervise.py. A step is an outcome, or the error that
-- shipping the card or halting a dispatch raises, and the world after it.
pub mod Granted
pub mod Andon
use horus_harness.Prelude.{
  ◌+◌, String, Bool, true, false, Option, none, some, List, [], ◌∷◌, ◌==◌, ◌&&◌, ◌||◌, not, map,
  if◌then◌else◌,
}
use horus_harness.Prelude.{Result, ok, err}
use horus_harness.Prelude.Text.{◌<>◌}
use horus_harness.Prelude.Decimal.{isdigit}
use horus_harness.Backlog.{Folder}
use horus_harness.Backlog.Ship.{ShipError}
use horus_harness.Notify.{escalate}
use horus_harness.Schedule.Life.{Units, Fault}
use horus_harness.Supervise.Resolve.{SupervisionContext, verify_only}
use horus_harness.Supervise.Halt.{Halted, halt_dependents}
use horus_harness.Supervise.{
  Outside, World, SuperviseOutcome, merged, verified, escalated, noop, verify_ci, verify_freshness,
  run_probe, pr_state, merge_pr, ship_card, escalation_of, given,
}

-- What shipping the card, or halting what depends on it, raises.
pub data Raised : Type 0 where
  ship_error : ShipError → Raised
  schedule_error : Fault → Raised

abbrev pub Step : Type 0
Step = Result Raised SuperviseOutcome × World

abbrev text_or : Option String → String
text_or none = ""
text_or (some s) = s

-- What halts for a card, if there is one.
abbrev pub halted_for :
    Outside → Option String → String → World → Result Fault (List Halted) × Units
halted_for out card summary w =
    if given card
    then halt_dependents out.systemd w.folder (text_or card) summary w.units
    else (ok [], w.units)

-- The escalation that follows a halt; a fault of the halt is raised, and nothing is pushed.
abbrev pub pushed :
    Outside → SupervisionContext → String → World → Result Fault (List Halted) × Units → Step
pushed out ctx summary w (err e, units) = (err (schedule_error e), record w { units = units })
pushed out ctx summary w (ok halted, units) =
    let esc = escalation_of ctx summary halted in
    (
      ok (record {
        verdict = escalated;
        reason = summary;
        escalation = some (escalate out.transport out.notify false esc);
        halted = map (λ (card, id). card) halted;
      }),
      record w { units = units; pushes = esc ∷ w.pushes },
    )

-- `_escalate_and_halt`
unfoldable pub escalate_and_halt : Outside → SupervisionContext → String → World → Step
unfolding halt_dependents escalation_of escalate
escalate_and_halt out ctx summary w = pushed out ctx summary w (halted_for out ctx.card summary w)

-- `escalate_unresolved`: a card or a branch that names no session.
unfoldable pub escalate_unresolved :
    Outside → Option String → String → Option String → Option String → World → Step
unfolding escalate_and_halt ◌<>◌
escalate_unresolved out path cwd card branch w =
    let selector =
      if given card
      then "card " <> text_or card
      else "branch " <> elim branch [ none ↦ "None" | some b ↦ b ] in
    escalate_and_halt out (verify_only path cwd none card)
      ("no worker session found for " <> selector <> " — nothing to supervise") w

-- `noop`, and what `merged` and `verified` fill in.
abbrev outcome : SuperviseOutcome
outcome = record { verdict = noop; reason = "PR already merged"; escalation = none; halted = [] }

abbrev pub is_text : String → Option String → Bool
is_text s none = false
is_text s (some t) = t == s

-- The card is shipped, where the delivery has one and a commit.
abbrev pub shipped : SupervisionContext → String → Folder → Result ShipError Folder
shipped ctx ref folder =
    if given ctx.card && given ctx.head_sha
    then ship_card folder (text_or ctx.card) ref (text_or ctx.head_sha)
    else ok folder

abbrev or_dash : Option String → String
or_dash card = if given card then text_or card else "-"

abbrev pub after_ship : SupervisionContext → String → World → Result ShipError Folder → Step
after_ship ctx ref w (err e) = (err (ship_error e), w)
after_ship ctx ref w (ok folder) = (
  ok (record outcome {
    verdict = merged;
    reason = "merged PR " <> ref <> " and shipped " <> or_dash ctx.card;
  }),
  record w { folder = folder },
)

abbrev pub no_basis : String
no_basis =
    "merge authorized but no pinned dispatch base / delivery expectation — refusing to accept on self-report"

abbrev pub no_probe : String
no_probe = "merge authorized but no live probe declared — refusing to merge unattended"

abbrev pub nothing_delivered : String
nothing_delivered = "no PR or head sha to verify — nothing delivered"

module _ (out : Outside) (ctx : SupervisionContext) (ref : String) where
  -- The merge, then the continuity that is closed whatever it answers, then the card.
  abbrev pub after_merge : World → Bool × String → Step
  after_merge w (false, detail) =
      escalate_and_halt out ctx ("verified green but merge failed — " <> detail) w
  after_merge w (true, detail) =
      let closed = record w { closes = w.closes + 1 } in
      after_ship ctx ref closed (shipped ctx ref w.folder)

  abbrev pub after_probe : World → Bool × String → Step
  after_probe w (false, detail) = escalate_and_halt out ctx ("live probe failed — " <> detail) w
  after_probe w (true, detail) =
      after_merge (record w { merges = ref ∷ w.merges }) (merge_pr out ref)

  -- The probe that a merge must pass.
  unfoldable pub probed : Option String → World → Step
  unfolding escalate_and_halt run_probe merge_pr ship_card ◌<>◌
  probed probe w =
      if not (given probe)
      then escalate_and_halt out ctx no_probe w
      else after_probe (record w { probes = text_or probe ∷ w.probes })
          (run_probe out (text_or probe))

  -- The gates that only a merge meets.
  unfoldable pub authorized_merge : Option String → World → Step
  unfolding escalate_and_halt probed
  authorized_merge probe w =
      if not (ctx.delivery_expected && given ctx.base_ref)
      then escalate_and_halt out ctx no_basis w
      else probed probe w

  abbrev pub after_fresh : Option String → World → Bool × String → Step
  after_fresh probe w (false, detail) =
      escalate_and_halt out ctx ("freshness gate failed — " <> detail) w
  after_fresh probe w (true, detail) =
      if not ctx.merge_authority
      then (
        ok (record outcome {
          verdict = verified;
          reason = "verified green; merge not authorized (verify+escalate only)";
        }),
        w,
      )
      else authorized_merge probe w

  -- The freshness gate is met only by a delivery with a pinned base.
  abbrev pub freshness : Bool × String
  freshness = if given ctx.base_ref then verify_freshness out (text_or ctx.base_ref) else (true, "")

  abbrev pub after_ci : Option String → World → Bool × String → Step
  after_ci probe w (false, detail) =
      escalate_and_halt out ctx ("verification failed — " <> detail) w
  after_ci probe w (true, detail) = after_fresh probe w freshness

  -- `supervise` of a delivery with a ref.
  unfoldable pub supervise_ref : Option String → World → Step
  unfolding isdigit pr_state verify_ci verify_freshness authorized_merge escalate_and_halt ◌<>◌
  supervise_ref probe w =
      if isdigit ref && is_text "MERGED" (pr_state out ref)
      then (ok outcome, w)
      else after_ci probe w (verify_ci out ref)

abbrev pub supervise_at :
    Outside → SupervisionContext → Option String → World → Option String → Step
supervise_at out ctx probe w none = escalate_and_halt out ctx nothing_delivered w
supervise_at out ctx probe w (some ref) = supervise_ref out ctx ref probe w

unfoldable pub supervise : Outside → SupervisionContext → Option String → World → Step
unfolding supervise_ref escalate_and_halt
supervise out ctx probe w = supervise_at out ctx probe w ctx.pr_ref
