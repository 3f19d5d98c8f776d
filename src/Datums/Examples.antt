-- ===== src/Datums/Examples.antt =====
-- A label of the tier vocabulary; and a run that is reviewed, and launched again by a resume.
use horus_harness.Prelude.{true, false, none, some, [], ◌∷◌, In, inl, ◌≡◌, refl}
use horus_harness.Prelude.Dict
use horus_harness.Prelude.Integers.{pos}
use horus_harness.Datums.Tiers.{normalize_tier}
use horus_harness.Datums.Store.{Datum, Rows, Capture, record_launch}
use horus_harness.Datums.Store.Judged.{
  IsKept, unjudged, judgement_of, launched, reconciled, write_all, write_all-IsKept,
}
use horus_harness.Datums.Overlap.{overlap_peers, overlap_peers_sym}
use horus_harness.Datums.Review.{Verdict, close, judged_row}
use horus_harness.Datums.Review.Resumed.{costless, close_launched}

opus : normalize_tier "Opus" ≡ some "high"
unfolding normalize_tier Dict.get Dict.insert
opus = refl

abbrev run : Datum
run = record {
  session_id = "s1";
  model = some "opus";
  launched_at = "t0";
  project = some "/p";
  account = none;
  effort = none;
  agent = some "claude";
  worker = true;
  posture = some "plan";
  environment = "host";
  agent_session_id = none;
  completed_at = none;
  runtime_seconds = none;
  exit = none;
  returncode = none;
  delivery_expected = false;
  delivery_status = "unknown";
  dispatch_base_sha = none;
  delivery_branch = none;
  delivery_head_sha = none;
  delivery_pushed_sha = none;
  delivery_pr_number = none;
  delivery_local_changes = none;
  delivery_continuity_closed = none;
  delivery_checked_at = none;
  tokens = none;
  pr_opened = none;
  ci = none;
  usage_launch = none;
  usage_close = none;
  judgement = unjudged;
  source = "run";
}

abbrev verdict : Verdict
verdict = record {
  outcome = "clean";
  shape = none;
  note = some "good";
  oversight = some "light";
  follow_on = some (pos 1);
  counterfactual = none;
  dividend = some "positive";
}

abbrev capture : Capture
capture = λ agent account since. none

abbrev rows : Rows
rows = ("s1", run) ∷ []

abbrev reviewed : Datum
reviewed = judged_row capture "t1" verdict run

close_launched_example :
    judgement_of (Dict.get "s1" (record_launch run (("s1", reviewed) ∷ []))) ≡ costless "t1" verdict
unfolding close Dict.get Dict.insert
close_launched_example =
    close_launched capture "t1" "s" verdict rows reviewed (("s1", reviewed) ∷ []) run refl refl refl

write_all-IsKept_example :
    IsKept
      (judgement_of (
        Dict.get "s1" (
          write_all capture
            (launched run ∷ reconciled (λ id. some ("t2", "completed", none)) ∷ [])
            (("s1", reviewed) ∷ []))))
      (judgement_of (Dict.get "s1" (("s1", reviewed) ∷ [])))
write_all-IsKept_example =
    write_all-IsKept capture (launched run ∷ reconciled (λ id. some ("t2", "completed", none)) ∷ [])
      (("s1", reviewed) ∷ []) "s1" (refl, (tt, tt))

-- Every stamp is read as the same instant.
abbrev other : Datum
other = record run { session_id = "s2" }

overlap_peers_sym_example :
    In run (overlap_peers (λ s. some 1) (λ id. none) (λ id. false) 5 other (run ∷ []))
unfolding overlap_peers
overlap_peers_sym_example =
    overlap_peers_sym (λ s. some 1) (λ id. none) (λ id. false) 5 run other (other ∷ []) (run ∷ [])
      refl (inl refl) (inl refl)
