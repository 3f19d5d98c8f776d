-- ===== src/Delivery/Examples.antt =====
-- A worktree whose branch `fix` was pushed one commit past its base.
use horus_harness.Prelude.{
  String, true, false, none, some, [], ◌==◌, ◌≡◌, refl, ◌≢◌, if◌then◌else◌, ◌&&◌, ne_of_test,
}
use horus_harness.Delivery.{Probes, classify_delivery, capture_delivery_evidence, given}
use horus_harness.Delivery.Ready.{IsBeyond, classify_delivery_ready}
use horus_harness.Delivery.Receipt.{delivery_receipt, sha_of}

abbrev pub worktree : Probes
worktree = record {
  is_dir = true;
  state = some (record { detached = false; branch = some "fix"; dirty = false });
  head = some "b";
  upstream = some "b";
  ls_remote = none;
  is_ancestor = λ base sha. if base == "a" && sha == "b" then some true else some false;
  ancestors = λ tip. [];
  has_session_end = true;
  pull = λ sha exact. none;
  continuity_closed = false;
}

abbrev exited : String
exited = "exited"

abbrev base : String
base = "a"

ready :
    classify_delivery "exited" true (some "a") (capture_delivery_evidence worktree (some "a"))
    ≡ "delivery-ready"
unfolding classify_delivery capture_delivery_evidence
ready = refl

classify_delivery_ready_example :
    (exited ≡ "exited")
    × (true ≡ true)
    × (b : String) × (p : String) × (given (some "a") ≡ some b)
    × ((capture_delivery_evidence worktree (some "a")).pushed_sha ≡ some p)
    × IsBeyond worktree b p
classify_delivery_ready_example = classify_delivery_ready worktree exited true (some "a") ready

named : base ≢ ""
named = ne_of_test "a" "" refl

receipt : sha_of (delivery_receipt worktree (some "a")) ≡ some "b"
unfolding delivery_receipt
receipt = refl
