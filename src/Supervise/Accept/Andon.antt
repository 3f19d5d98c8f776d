-- ===== src/Supervise/Accept/Andon.antt =====
-- What an escalation halts, and that nothing else does.
use horus_harness.Prelude.{
  ◌+◌, String, Bool, true, false, Option, none, some, List, ◌∷◌, ◌==◌, ◌&&◌, not, ◌⊎◌, inl, inr,
}
use horus_harness.Prelude.{
  ◌≡◌, ◌≢◌, refl, ap, ◌∙◌, sym, if◌then◌else◌, Result, ok, err, ok-injective, length, filter, In,
  test_of_ne,
}
use horus_harness.Prelude.Decimal.{isdigit}
use mathlib.Core.Path.{subst}
use horus_harness.Backlog.{Folder}
use horus_harness.Backlog.Ship.{ShipError}
use horus_harness.Schedule.Life.{Schedule, Units, Fault, load_all}
use horus_harness.Schedule.Life.Selected.{names}
use horus_harness.Supervise.Dependents.{IsDependent}
use horus_harness.Supervise.Halt.{Halted, card_deps, halt_dependents}
use horus_harness.Supervise.Halt.Blocked.{IsStopped, IsWaiting, halt_dependents_disarms}
use horus_harness.Supervise.Resolve.{SupervisionContext}
use horus_harness.Supervise.{
  Outside, World, SuperviseOutcome, escalated, verify_ci, run_probe, pr_state, given, merge_pr,
}
use horus_harness.Supervise.Accept.{
  Step, supervise, supervise_at, supervise_ref, after_ci, after_fresh, authorized_merge, probed,
  no_basis, no_probe, nothing_delivered, after_probe, after_merge, freshness, is_text, text_or,
  escalate_and_halt, halted_for, pushed, after_ship, shipped,
}

if_not {ℓ} : {A : Type ℓ} (b : Bool) (x y : A) → b ≡ false → (if not b then x else y) ≡ x
if_not true x y h = absurd (cc h)
if_not false x y h = refl

module _ (out : Outside) (ctx : SupervisionContext) (w : World) where
  -- An escalation left what it halts for its reason, without a fault; any other outcome left the
  -- schedules as they were.
  abbrev IsHalted : Step → SuperviseOutcome → Type 0
  IsHalted step o =
      (o.verdict ≡ escalated)
      × ((halted : List Halted) × ((halted_for out ctx.card o.reason w).0 ≡ ok halted))
      × (step.1.units ≡ (halted_for out ctx.card o.reason w).1)

  abbrev IsQuiet : Step → SuperviseOutcome → Type 0
  IsQuiet step o = (o.verdict ≢ escalated) × (step.1.units ≡ w.units)

  abbrev IsAndon : Step → Type 0
  IsAndon step = (o : SuperviseOutcome) → step.0 ≡ ok o → IsHalted step o ⊎ IsQuiet step o

  branch : (b : Bool) (x y : Step) → IsAndon x → IsAndon y → IsAndon (if b then x else y)
  branch true x y p q = p
  branch false x y p q = q

  -- A world that differs from `w` in what was run only.
  abbrev IsSame : World → Type 0
  IsSame v = (v.folder ≡ w.folder) × (v.units ≡ w.units)

  halts : (v : World) (summary : String) → IsSame v → IsAndon (escalate_and_halt out ctx summary v)
  unfolding escalate_and_halt
  halts v summary (f, u) = pushed-IsAndon (halted_for out ctx.card summary v) (rw (f, u) refl)
    where
      pushed-IsAndon :
          (halt : Result Fault (List Halted) × Units)
          → halted_for out ctx.card summary w ≡ halt
          → IsAndon (pushed out ctx summary v halt)
      pushed-IsAndon (err e, units) same o h = absurd (cc h)
      pushed-IsAndon (ok halted, units) same o h = inl (
        sym (ap (λ x. x.verdict) (ok-injective h)),
        (
          halted,
          ap (λ r. (halted_for out ctx.card r w).0) (sym (ap (λ x. x.reason) (ok-injective h)))
              ∙ ap (λ x. x.0) same,
        ),
        sym (
            ap (λ r. (halted_for out ctx.card r w).1) (sym (ap (λ x. x.reason) (ok-injective h)))
            ∙ ap (λ x. x.1) same),
      )

  quiet : (v : World) (o : SuperviseOutcome) → o.verdict ≢ escalated → IsSame v → IsAndon (ok o, v)
  quiet v o differs (f, u) p e = inr ((λ h. differs (ap (λ x. x.verdict) (ok-injective e) ∙ h)), u)

  after_ship-IsAndon :
      (v : World) (ref : String) (r : Result ShipError Folder)
      → IsSame v
      → IsAndon (after_ship ctx ref v r)
  after_ship-IsAndon v ref (ok folder) (f, u) p e =
      inr ((λ h. absurd (cc (ap (λ x. x.verdict) (ok-injective e) ∙ h))), u)
  after_ship-IsAndon v ref (err x) (f, u) p e = absurd (cc e)

  module _ (ref : String) where
    after_merge-IsAndon :
        (v : World) (r : Bool × String) → IsSame v → IsAndon (after_merge out ctx ref v r)
    after_merge-IsAndon v (true, detail) same =
        after_ship-IsAndon (record v { closes = v.closes + 1 }) ref (shipped ctx ref v.folder) same
    after_merge-IsAndon v (false, detail) same = halts v _ same

    after_probe-IsAndon :
        (v : World) (r : Bool × String) → IsSame v → IsAndon (after_probe out ctx ref v r)
    after_probe-IsAndon v (true, detail) same =
        after_merge-IsAndon (record v { merges = ref ∷ v.merges }) (merge_pr out ref) same
    after_probe-IsAndon v (false, detail) same = halts v _ same

    probed-IsAndon :
        (probe : Option String) (v : World) → IsSame v → IsAndon (probed out ctx ref probe v)
    unfolding probed
    probed-IsAndon probe v same =
        let asked = record v { probes = text_or probe ∷ v.probes } in
        branch (not (given probe)) (escalate_and_halt out ctx no_probe v)
          (after_probe out ctx ref asked (run_probe out (text_or probe))) (halts v no_probe same)
          (after_probe-IsAndon asked (run_probe out (text_or probe)) same)

    authorized-IsAndon :
        (probe : Option String) (v : World)
        → IsSame v
        → IsAndon (authorized_merge out ctx ref probe v)
    unfolding authorized_merge
    authorized-IsAndon probe v same =
        branch (not (ctx.delivery_expected && given ctx.base_ref))
          (escalate_and_halt out ctx no_basis v) (probed out ctx ref probe v)
          (halts v no_basis same) (probed-IsAndon probe v same)

    after_fresh-IsAndon :
        (probe : Option String) (v : World) (r : Bool × String)
        → IsSame v
        → IsAndon (after_fresh out ctx ref probe v r)
    after_fresh-IsAndon probe v (false, detail) same = halts v _ same
    after_fresh-IsAndon probe v (true, detail) same =
        branch (not ctx.merge_authority) _ _ (quiet v _ (λ h. absurd (cc h)) same)
          (authorized-IsAndon probe v same)

    after_ci-IsAndon :
        (probe : Option String) (v : World) (r : Bool × String)
        → IsSame v
        → IsAndon (after_ci out ctx ref probe v r)
    after_ci-IsAndon probe v (false, detail) same = halts v _ same
    after_ci-IsAndon probe v (true, detail) same =
        after_fresh-IsAndon probe v (freshness out ctx ref) same

  at-IsAndon : (probe o : Option String) → IsAndon (supervise_at out ctx probe w o)
  unfolding supervise_ref
  at-IsAndon probe none = halts w nothing_delivered (refl, refl)
  at-IsAndon probe (some ref) =
      branch (isdigit ref && is_text "MERGED" (pr_state out ref)) _ _
        (quiet w _ (λ h. absurd (cc h)) (refl, refl))
        (after_ci-IsAndon ref probe w (verify_ci out ref) (refl, refl))

escalated_halts :
    (out : Outside) (ctx : SupervisionContext) (w : World) (step : Step) (o : SuperviseOutcome)
    → IsAndon out ctx w step
    → step.0 ≡ ok o
    → o.verdict ≡ escalated
    → IsHalted out ctx w step o
escalated_halts out ctx w step o andon h k = elim (andon o h) [
  | inl halted ↦ halted
  | inr (other, u) ↦ absurd (other k)
]

-- Where `supervise` returns that a delivery is escalated, no fault of a halt having been raised, every
-- dispatch of a card that depends on its card is marked as halted and is not armed, or systemd did not
-- take its disabling, if it has neither fired nor been halted before and its id names one timer.
pub supervise_disarms :
    (out : Outside) (ctx : SupervisionContext) (probe : Option String) (w : World)
    (o : SuperviseOutcome) (failed : String) (s : Schedule) (card : String)
    → (supervise out ctx probe w).0 ≡ ok o
    → o.verdict ≡ escalated
    → ctx.card ≡ some failed
    → failed ≢ ""
    → In s (load_all out.systemd.live w.units)
    → IsWaiting s card
    → IsDependent (card_deps w.folder) failed card
    → length (filter (names s.id) w.units.timers) ≡ 1
    → IsStopped out.systemd s.id (supervise out ctx probe w).1.units
unfolding supervise
supervise_disarms out ctx probe w o failed s card ended bad named filled i waits depends one =
    let (verdict, went, units) =
      escalated_halts out ctx w (supervise_at out ctx probe w ctx.pr_ref) o
        (at-IsAndon out ctx w probe ctx.pr_ref) ended bad in
    let here : halted_for out ctx.card o.reason w
        ≡ halt_dependents out.systemd w.folder failed o.reason w.units =
      ap (λ c. halted_for out c o.reason w) named
      ∙ if_not (failed == "") _ _ (test_of_ne failed "" filled) in
    subst (IsStopped out.systemd s.id) (sym (units ∙ ap (λ x. x.1) here)) (
      halt_dependents_disarms out.systemd w.folder failed o.reason w.units s card went.0 filled i
        waits depends one (sym (ap (λ x. x.0) here) ∙ went.1))

-- Where a delivery is not escalated, no schedule is touched.
pub supervise_untouched :
    (out : Outside) (ctx : SupervisionContext) (probe : Option String) (w : World)
    (o : SuperviseOutcome)
    → (supervise out ctx probe w).0 ≡ ok o
    → o.verdict ≢ escalated
    → (supervise out ctx probe w).1.units ≡ w.units
unfolding supervise
supervise_untouched out ctx probe w o ended good =
    elim (at-IsAndon out ctx w probe ctx.pr_ref o ended) [
      | inl halted ↦ absurd (good halted.0)
      | inr (other, u) ↦ u
    ]
