-- ===== src/Registry/Examples.antt =====
-- Three sessions: one lost, one that its log says has failed, and one alive.
use horus_harness.Prelude.{
  ℕ, String, false, Option, none, some, [], ◌∷◌, map, All, ◌≡◌, ◌≢◌, refl, ne_of_test, beq, ◌==◌,
  if◌then◌else◌,
}
use horus_harness.Prelude.Dict
use horus_harness.Prelude.Text.{strip}
use horus_harness.Delivery.Examples.{worktree}
use horus_harness.Registry.{Row, Sessions, prune}
use horus_harness.Registry.Reconcile.{Machine, reconcile, snapshot}
use horus_harness.Registry.Pruned.{IsRunning, prune-IsRunning}
use horus_harness.Registry.Settled.{IsSettled, reconcile-IsSettled}
use horus_harness.Registry.Snapshot.{outcome, snapshot-reconcile}
use horus_harness.Registry.Resume.{resolve_resume_id, agent_id}

abbrev session : String → Option ℕ → Option String → Row
session id pid agent_id = record {
  known = record {
    session_id = id;
    agent = "claude";
    project = "/p";
    account = none;
    environment = "host";
    pid = pid;
    status = "running";
    returncode = none;
    updated_at = "";
    launch_target = "tmux";
    target_ref = none;
    agent_session_id = agent_id;
    termination_reason = none;
    delivery_expected = false;
    delivery_status = "unknown";
    dispatch_base_sha = none;
    delivery_branch = none;
    delivery_head_sha = none;
    delivery_pushed_sha = none;
    delivery_pr_number = none;
    delivery_local_changes = none;
    delivery_continuity_closed = none;
    delivery_checked_at = none;
    last_activity_at = none;
  };
  extra = [];
}

abbrev sessions : Sessions
sessions =
    ("a", session "a" none (some "agent-a"))
    ∷ ("b", session "b" (some 7) (some "b"))
    ∷ ("c", session "c" (some 7) (some "a"))
    ∷ []

abbrev machine : Machine
machine = record {
  now = "now";
  aware = λ s. some s;
  events = λ id. [];
  log = λ id. if id == "b" then "failed — session b\n" else "";
  alive = λ pid. beq pid 7;
  probes = λ project end. worktree;
}

reconcile-IsSettled_example : All (λ e. IsSettled machine e.1) (reconcile machine sessions).sessions
reconcile-IsSettled_example = reconcile-IsSettled machine sessions

snapshot-reconcile_example :
    map outcome (snapshot machine sessions)
    ≡ map (λ (id, row). outcome row.known) (reconcile machine sessions).sessions
snapshot-reconcile_example = snapshot-reconcile machine sessions

a_given : strip "a " ≢ ""
unfolding strip
a_given = ne_of_test "a" "" refl

a_found : Dict.get (strip "a ") sessions ≡ some (session "a" none (some "agent-a"))
unfolding strip Dict.get
a_found = refl

a_recorded : agent_id (session "a" none (some "agent-a")) ≢ ""
unfolding agent_id
a_recorded = ne_of_test "agent-a" "" refl

z_unknown : (resolve_resume_id sessions "z").known ≡ false
unfolding resolve_resume_id Dict.get
z_unknown = refl

prune-IsRunning_example :
    All (λ e. IsRunning machine e.1) (prune (reconcile machine sessions).sessions).1
prune-IsRunning_example = prune-IsRunning machine sessions
