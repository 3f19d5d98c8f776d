-- ===== src/Supervise/Accept/Granted.antt =====
-- When `supervise` merges.
use horus_harness.Prelude.{
  ◌+◌, String, Bool, true, false, Option, none, some, List, [], ◌∷◌, ◌&&◌, not,
}
use horus_harness.Prelude.{◌≡◌, refl, if◌then◌else◌, Result, ok, err, all}
use horus_harness.Prelude.Decimal.{isdigit}
use horus_harness.Supervise.Resolve.{SupervisionContext}
use horus_harness.Supervise.{Outside, World, verify_ci, run_probe, pr_state, given, merge_pr}
use horus_harness.Supervise.Accept.{
  Step, supervise, supervise_at, supervise_ref, after_ci, after_fresh, authorized_merge, probed,
  no_basis, no_probe, nothing_delivered, after_probe, after_merge, freshness, is_text, text_or,
  escalate_and_halt, after_ship, shipped, halted_for, pushed,
}
use horus_harness.Schedule.Life.{Units, Fault}
use horus_harness.Supervise.Halt.{Halted}
use horus_harness.Backlog.{Folder}
use horus_harness.Backlog.Ship.{ShipError}

-- All that a merge needs, whatever the order that it is asked in.
abbrev pub accepts : Outside → SupervisionContext → Option String → String → Bool
accepts out ctx probe ref =
    all (λ b. b)
      (not (isdigit ref && is_text "MERGED" (pr_state out ref))
        ∷ (verify_ci out ref).0
        ∷ (freshness out ctx ref).0
        ∷ ctx.merge_authority
        ∷ (ctx.delivery_expected && given ctx.base_ref)
        ∷ given probe
        ∷ (run_probe out (text_or probe)).0
        ∷ [])

-- The merges that a step leaves.
abbrev merges_of : Step → List String
merges_of (result, w) = w.merges

abbrev with_merge : Bool → String → List String → List String
with_merge granted ref merges = if granted then ref ∷ merges else merges

pushed_merges :
    (out : Outside) (ctx : SupervisionContext) (summary : String) (w : World)
    → merges_of (escalate_and_halt out ctx summary w) ≡ w.merges
unfolding escalate_and_halt
pushed_merges out ctx summary w = raised_merges (halted_for out ctx.card summary w)
  where
    raised_merges :
        (halt : Result Fault (List Halted) × Units)
        → merges_of (pushed out ctx summary w halt) ≡ w.merges
    raised_merges (err e, units) = refl
    raised_merges (ok halted, units) = refl

after_ship_merges :
    (ctx : SupervisionContext) (ref : String) (w : World) (r : Result ShipError Folder)
    → merges_of (after_ship ctx ref w r) ≡ w.merges
after_ship_merges ctx ref w (ok folder) = refl
after_ship_merges ctx ref w (err e) = refl

if_merges :
    (b : Bool) (stop go : Step) (granted : Bool) (ref : String) (merges : List String)
    → merges_of stop ≡ merges
    → merges_of go ≡ with_merge granted ref merges
    → merges_of (if not b then stop else go) ≡ with_merge (b && granted) ref merges
if_merges true stop go granted ref merges s g = g
if_merges false stop go granted ref merges s g = s

passed_merges :
    {m : List String} (ref : String) (passed : Bool) (merges : List String)
    → m ≡ with_merge passed ref merges
    → m ≡ with_merge (passed && true) ref merges
passed_merges ref true merges h = h
passed_merges ref false merges h = h

module _ (out : Outside) (ctx : SupervisionContext) (ref : String) where
  after_merge_merges :
      (w : World) (r : Bool × String) → merges_of (after_merge out ctx ref w r) ≡ w.merges
  after_merge_merges w (true, detail) =
      after_ship_merges ctx ref (record w { closes = w.closes + 1 }) (shipped ctx ref w.folder)
  after_merge_merges w (false, detail) = pushed_merges out ctx _ w

  after_probe_merges :
      (w : World) (r : Bool × String)
      → merges_of (after_probe out ctx ref w r) ≡ with_merge r.0 ref w.merges
  after_probe_merges w (true, detail) =
      after_merge_merges (record w { merges = ref ∷ w.merges }) (merge_pr out ref)
  after_probe_merges w (false, detail) = pushed_merges out ctx _ w

  probed_merges :
      (probe : Option String) (w : World)
      → merges_of (probed out ctx ref probe w)
        ≡ with_merge (given probe && ((run_probe out (text_or probe)).0 && true)) ref w.merges
  unfolding probed
  probed_merges probe w =
      let asked = record w { probes = text_or probe ∷ w.probes } in
      if_merges (given probe) (escalate_and_halt out ctx no_probe w)
        (after_probe out ctx ref asked (run_probe out (text_or probe))) _ ref w.merges
        (pushed_merges out ctx no_probe w)
        (passed_merges ref (run_probe out (text_or probe)).0 w.merges
          (after_probe_merges asked (run_probe out (text_or probe))))

  authorized_merges :
      (probe : Option String) (w : World)
      → merges_of (authorized_merge out ctx ref probe w)
        ≡ with_merge
            ((ctx.delivery_expected && given ctx.base_ref)
              && (given probe && ((run_probe out (text_or probe)).0 && true)))
            ref
            w.merges
  unfolding authorized_merge
  authorized_merges probe w =
      if_merges (ctx.delivery_expected && given ctx.base_ref) (escalate_and_halt out ctx no_basis w)
        (probed out ctx ref probe w) _ ref w.merges (pushed_merges out ctx no_basis w)
        (probed_merges probe w)

  after_fresh_merges :
      (probe : Option String) (w : World) (r : Bool × String)
      → merges_of (after_fresh out ctx ref probe w r)
        ≡ with_merge
            (r.0
              && (ctx.merge_authority
                  && ((ctx.delivery_expected && given ctx.base_ref)
                      && (given probe && ((run_probe out (text_or probe)).0 && true)))))
            ref
            w.merges
  after_fresh_merges probe w (false, detail) = pushed_merges out ctx _ w
  after_fresh_merges probe w (true, detail) =
      if_merges ctx.merge_authority _ _ _ ref w.merges refl (authorized_merges probe w)

  after_ci_merges :
      (probe : Option String) (w : World) (r : Bool × String)
      → merges_of (after_ci out ctx ref probe w r)
        ≡ with_merge
            (r.0
              && ((freshness out ctx ref).0
                  && (ctx.merge_authority
                      && ((ctx.delivery_expected && given ctx.base_ref)
                          && (given probe && ((run_probe out (text_or probe)).0 && true))))))
            ref
            w.merges
  after_ci_merges probe w (false, detail) = pushed_merges out ctx _ w
  after_ci_merges probe w (true, detail) = after_fresh_merges probe w (freshness out ctx ref)

abbrev with_accepted :
    Outside → SupervisionContext → Option String → Option String → List String → List String
with_accepted out ctx probe none merges = merges
with_accepted out ctx probe (some ref) merges =
    if accepts out ctx probe ref then ref ∷ merges else merges

settled_merges :
    (settled : Bool) (stop go : Step) (granted : Bool) (ref : String) (merges : List String)
    → merges_of stop ≡ merges
    → merges_of go ≡ with_merge granted ref merges
    → merges_of (if settled then stop else go) ≡ with_merge (not settled && granted) ref merges
settled_merges true stop go granted ref merges s g = s
settled_merges false stop go granted ref merges s g = g

at_merges :
    (out : Outside) (ctx : SupervisionContext) (probe : Option String) (w : World)
    (o : Option String)
    → merges_of (supervise_at out ctx probe w o) ≡ with_accepted out ctx probe o w.merges
unfolding supervise_ref escalate_and_halt
at_merges out ctx probe w none = pushed_merges out ctx nothing_delivered w
at_merges out ctx probe w (some ref) =
    settled_merges (isdigit ref && is_text "MERGED" (pr_state out ref)) _ _ _ ref w.merges refl
      (after_ci_merges out ctx ref probe w (verify_ci out ref))

-- A merge is asked for just if the delivery has a ref that is not merged already, its checks are green
-- on the pinned commit, it is fresh, its envelope has merge authority, a delivery from a pinned base
-- was expected, and a probe is declared and passes; it is asked for once.
pub supervise_merges_iff :
    (out : Outside) (ctx : SupervisionContext) (probe : Option String) (w : World)
    → (supervise out ctx probe w).1.merges ≡ with_accepted out ctx probe ctx.pr_ref w.merges
unfolding supervise
supervise_merges_iff out ctx probe w = at_merges out ctx probe w ctx.pr_ref
