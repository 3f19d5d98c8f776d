-- ===== src/Mergewatch.antt =====
-- horus/mergewatch.py: waiting for the checks of one commit. What `gh` and `git` answer is given, the
-- answers of each round and the clock as sequences.
pub mod Green
pub mod Settles
pub mod Examples
use horus_harness.Prelude.{
  ℕ, zero, suc, ◌+◌, String, Bool, true, false, Option, none, some, List, [], ◌∷◌, ◌++◌, ◌==◌,
  filter,
}
use horus_harness.Prelude.{
  ◌≡◌, refl, ◌&&◌, ◌||◌, not, if◌then◌else◌, member, Result, ok, err, leb, any, all, map, is_some,
}
use Prim.Native.Char.{Char}
use horus_harness.Prelude.Dict
use horus_harness.Prelude.Dict.{Dict}
use horus_harness.Prelude.Text.{strip, lower, same_char}

pub data CheckState : Type 0 where
  pending : CheckState
  success : CheckState
  failure : CheckState

-- What was resolved of a ref: the pinned commit and, where known, its pull request.
pub record Target : Type 0 where
  pub owner : String
  pub repo : String
  pub sha : String
  pub pr_number : Option ℕ
  pub base_branch : Option String
  pub is_open_pr : Bool

pub data WatchState : Type 0 where
  succeeded : WatchState
  failed : WatchState
  timed_out : WatchState

pub record WatchOutcome : Type 0 where
  pub state : WatchState
  pub sha : String
  pub checks : Dict CheckState

abbrev failure_conclusions : List String
failure_conclusions = "failure" ∷ "cancelled" ∷ "timed_out" ∷ "action_required" ∷ "stale" ∷ []

-- `_STATUS_STATE_MAP`
abbrev status_state_map : Dict CheckState
status_state_map = ("success", success) ∷ ("failure", failure) ∷ ("error", failure) ∷ []

-- `_is_open_state`
unfoldable pub is_open_state : Option String → Bool
unfolding lower strip
is_open_state none = true
is_open_state (some s) = lower (strip s) == "open"

pub record CheckRun : Type 0 where
  pub name : Option String
  pub status : Option String
  pub conclusion : Option String

pub record Status : Type 0 where
  pub context : Option String
  pub state : Option String

abbrev is_text : String → Option String → Bool
is_text s none = false
is_text s (some t) = t == s

abbrev concludes : List String → Option String → Bool
concludes cs none = false
concludes cs (some c) = member c cs

-- The state that one check run is given.
unfoldable pub run_state : CheckRun → CheckState
run_state run =
    if not (is_text "completed" run.status)
    then pending
    else if concludes failure_conclusions run.conclusion
    then failure
    else success

abbrev or_pending : Option CheckState → CheckState
or_pending none = pending
or_pending (some s) = s

unfoldable pub status_state : Status → CheckState
unfolding Dict.get
status_state s = elim s.state [
  | none ↦ pending
  | some text ↦ or_pending (Dict.get text status_state_map)
]

-- `states[name] = state` of a name that is not empty.
abbrev put : Option String → CheckState → Dict CheckState → Dict CheckState
put none s states = states
put (some name) s states = if name == "" then states else Dict.insert name s states

add_runs : List CheckRun → Dict CheckState → Dict CheckState
unfolding run_state
add_runs [] states = states
add_runs (run ∷ runs) states = add_runs runs (put run.name (run_state run) states)

add_statuses : List Status → Dict CheckState → Dict CheckState
unfolding status_state
add_statuses [] states = states
add_statuses (s ∷ rest) states = add_statuses rest (put s.context (status_state s) states)

-- `fetch_check_states` of the two answers, each empty where `gh` has none.
unfoldable pub fetch_check_states : List CheckRun → List Status → Dict CheckState
unfolding add_runs add_statuses
fetch_check_states runs statuses = add_statuses statuses (add_runs runs [])

-- `")"` and blanks, after characters that are no `")"`.
closes : String → Bool
unfolding strip
closes String.[] = false
closes (String.◌∷◌ c s) = if same_char c ")" then strip s == "" else closes s

without_suffix : String → String
unfolding closes
without_suffix String.[] = ""
without_suffix (String.◌∷◌ c s) =
    if same_char c "(" && closes s then "" else String.◌∷◌ c (without_suffix s)

-- `_context_base`
unfoldable pub context_base : String → String
unfolding without_suffix strip
context_base name = strip (without_suffix name)

-- What `_parse_workflow` says of a file, `none` where it is unreadable or not understood.
pub record Workflow : Type 0 where
  pub has_push : Bool
  pub has_pr : Bool
  pub contexts : List String

pub record Triggers : Type 0 where
  pub pr_only : List String
  pub push_triggered : List String

abbrev add_workflow : Workflow → Triggers → Triggers
add_workflow w t =
    if not w.has_pr
    then t
    else if w.has_push
    then record t { push_triggered = t.push_triggered ++ w.contexts }
    else record t { pr_only = t.pr_only ++ w.contexts }

triggers_from : Triggers → List (Option Workflow) → List String
triggers_from t [] = filter (λ c. not (member c t.push_triggered)) t.pr_only
triggers_from t (none ∷ rest) = []
triggers_from t (some w ∷ rest) = triggers_from (add_workflow w t) rest

-- `pr_only_contexts`: nothing, where one of the files is not understood.
unfoldable pub pr_only_contexts : List (Option Workflow) → List String
unfolding triggers_from
pr_only_contexts = triggers_from (record { pr_only = []; push_triggered = [] })

abbrev pub is_watched : Option (List String) → String → Bool
is_watched none name = true
is_watched (some required) name = member name required

abbrev pub watched : Option (List String) → Dict CheckState → Dict CheckState
watched required states = filter (λ (name, s). is_watched required name) states

abbrev pub some_missing : Option (List String) → Dict CheckState → Bool
some_missing none states = false
some_missing (some required) states = any (λ c. not (is_some (Dict.get c states))) required

abbrev pub is_failure : CheckState → Bool
is_failure failure = true
is_failure _ = false

abbrev pub is_success : CheckState → Bool
is_success success = true
is_success _ = false

abbrev pub verdict_of : Dict CheckState → CheckState
verdict_of [] = pending
verdict_of (entry ∷ rest) =
    if any (λ (name, s). is_failure s) (entry ∷ rest)
    then failure
    else if all (λ (name, s). is_success s) (entry ∷ rest)
    then success
    else pending

unfoldable pub overall_state : Dict CheckState → Option (List String) → CheckState
overall_state states required =
    let seen = watched required states in
    if some_missing required seen then pending else verdict_of seen

-- `filtered or None`
abbrev or_none : List String → Option (List String)
or_none [] = none
or_none (c ∷ cs) = some (c ∷ cs)

-- The contexts of a pull request that is closed: those that a push can post.
unfoldable pub postable : List String → List (Option Workflow) → Option (List String)
unfolding context_base pr_only_contexts
postable required workflows =
    or_none (filter (λ c. not (member (context_base c) (pr_only_contexts workflows))) required)

-- What a watch meets: the ref resolved, the contexts that are required, the workflows of the commit,
-- and for each round the checks that are reported and the time that it is. A call of `gh` or `git` that
-- does not run is an error, which `_run` raises.
pub record Checks : Type 0 where
  pub target : Result String Target
  pub required : Result String (Option (List String))
  pub workflows : Result String (List (Option Workflow))
  pub states : ℕ → Result String (Dict CheckState)
  pub clock : ℕ → ℕ

abbrev filtered :
    List String → Result String (List (Option Workflow)) → Result String (Option (List String))
filtered required (err e) = err e
filtered required (ok workflows) = ok (postable required workflows)

abbrev of_required :
    Checks → Target → Result String (Option (List String)) → Result String (Option (List String))
of_required checks target (err e) = err e
of_required checks target (ok none) = ok none
of_required checks target (ok (some [])) = ok (some [])
of_required checks target (ok (some (c ∷ cs))) =
    if target.is_open_pr then ok (some (c ∷ cs)) else filtered (c ∷ cs) checks.workflows

-- The contexts that `watch` waits for.
unfoldable pub awaited : Checks → Target → Result String (Option (List String))
unfolding postable
awaited checks target = of_required checks target checks.required

abbrev pub outcome : Target → Dict CheckState → WatchState → WatchOutcome
outcome target checks state = record { state = state; sha = target.sha; checks = checks }

-- How a watch ends: with an outcome, or what is raised; `none` is a loop that has not ended yet.
abbrev pub Watched : Type 0
Watched = Result String (Option WatchOutcome)

-- A round: what its checks say, whether it is late, and otherwise what the later rounds say.
abbrev pub judged : Target → Dict CheckState → CheckState → Bool → Watched → Watched
judged target states success late later = ok (some (outcome target states succeeded))
judged target states failure late later = ok (some (outcome target states failed))
judged target states pending true later = ok (some (outcome target states timed_out))
judged target states pending false later = later

abbrev pub round :
    Target → Option (List String) → Result String (Dict CheckState) → Bool → Watched → Watched
round target required (err e) late later = err e
round target required (ok states) late later =
    judged target states (overall_state states required) late later

module _ (checks : Checks) (target : Target) (required : Option (List String)) (deadline : ℕ) where
  -- The loop from round `k`, with fuel for so many.
  unfoldable pub rounds : ℕ → ℕ → Watched
  unfolding overall_state
  rounds zero k = ok none
  rounds (suc fuel) k =
      round target required (checks.states k) (leb deadline (checks.clock (suc k)))
        (rounds fuel (suc k))

abbrev pub waiting : Checks → ℕ → Target → Result String (Option (List String)) → Watched
waiting checks timeout target (err e) = err e
waiting checks timeout target (ok required) =
    rounds checks target required (checks.clock 0 + timeout) (suc timeout) 0

abbrev pub watch_at : Checks → ℕ → Result String Target → Watched
watch_at checks timeout (err e) = err e
watch_at checks timeout (ok target) = waiting checks timeout target (awaited checks target)

-- `watch`, with a round for each unit of the timeout and one more.
unfoldable pub watch : Checks → ℕ → Watched
unfolding rounds awaited
watch checks timeout = watch_at checks timeout checks.target

test_context_base : context_base "test (3.12) " ≡ "test"
unfolding context_base
test_context_base = refl
