-- ===== src/Delivery.antt =====
-- horus/delivery.py: what a finished run has delivered. `Probes` are the answers of git and GitHub
-- about one worktree; `none` is a query that failed.
pub mod Ready
pub mod Receipt
pub mod Examples
use horus_harness.Prelude.{ℕ, String, Bool, true, false, Option, none, some, List, [], ◌∷◌, ◌==◌}
use horus_harness.Prelude.{if◌then◌else◌, ◌&&◌, ◌||◌, not, member, is_some, leb}
use horus_harness.Prelude.Text.{lstrip, is_space}

pub record GitState : Type 0 where
  pub detached : Bool
  pub branch : Option String
  pub dirty : Bool

pub record Pull : Type 0 where
  pub number : ℕ
  pub url : String
  pub state : String

pub record Probes : Type 0 where
  pub is_dir : Bool
  pub state : Option GitState
  -- `git rev-parse HEAD`
  pub head : Option String
  -- `git rev-parse @{upstream}`
  pub upstream : Option String
  -- `git ls-remote origin refs/heads/<branch>`
  pub ls_remote : Option String
  -- `git merge-base --is-ancestor`
  pub is_ancestor : String → String → Option Bool
  -- The commits up to a tip, and how far each is from the session's end in time.
  pub ancestors : String → List (String × ℕ)
  pub has_session_end : Bool
  -- `pr_for_branch`, of a head and whether it must be the same.
  pub pull : Option String → Bool → Option Pull
  pub continuity_closed : Bool

pub record DeliveryEvidence : Type 0 where
  pub inspectable : Bool
  pub branch : Option String
  pub head_sha : Option String
  pub pushed_sha : Option String
  pub pr_number : Option ℕ
  pub local_changes : Option Bool
  pub continuity_closed : Option Bool
  pub head_beyond_base : Option Bool
  pub pushed_beyond_base : Option Bool

abbrev pub nonclean_statuses : List String
nonclean_statuses = "failed" ∷ "stale" ∷ "stopped" ∷ []

-- A text that is there and not empty.
abbrev pub given : Option String → Option String
given none = none
given (some s) = if s == "" then none else some s

abbrev pub is_true : Option Bool → Bool
is_true none = false
is_true (some b) = b

unfoldable pub classify_delivery : String → Bool → Option String → DeliveryEvidence → String
classify_delivery status expected base e =
    if status == "running" || not expected || not (is_some (given base)) || not e.inspectable
    then "unknown"
    else if status == "exited"
    then (if is_true e.pushed_beyond_base
        then "delivery-ready"
        else if is_true e.local_changes
        then "blocked"
        else "no-op")
    else if member status nonclean_statuses
    then (if is_true e.pushed_beyond_base || is_true e.local_changes then "blocked" else "failed")
    else "unknown"

first_word : String → String
unfolding is_space
first_word String.[] = ""
first_word (String.◌∷◌ c s) =
    let rest = String.◌∷◌ c (first_word s) in if is_space c then "" else rest

-- `parts[0] if parts else None` of `.split()`
unfoldable pub first_part : String → Option String
unfolding first_word lstrip
first_part s = given (some (first_word (lstrip s)))

abbrev or_part : Option String → Option String
or_part none = none
or_part (some s) = first_part s

abbrev or_option : Option String → Option String → Option String
or_option none b = b
or_option (some a) b = some a

unfoldable pub pushed_tip : Probes → Option String
unfolding first_part
pushed_tip g = or_option (given g.upstream) (or_part (given g.ls_remote))

abbrev answered : Option String → Option (Option String)
answered none = none
answered (some s) = some (first_part s)

-- `none` where the remote could not be asked.
unfoldable pub pushed_tip_checked : Probes → Option (Option String)
unfolding first_part
pushed_tip_checked g = elim g.upstream [
  | none ↦ answered g.ls_remote
  | some tip ↦ some (given (some tip))
]

-- The sha of the least distance, the first of several.
unfoldable pub closest : String × ℕ → List (String × ℕ) → String
closest (sha, d) [] = sha
closest (sha, d) ((t, e) ∷ pairs) =
    let kept = closest (sha, d) pairs in
    let nearer = closest (t, e) pairs in if leb d e then kept else nearer

unfoldable pub closest_to : List (String × ℕ) → Option String
unfolding closest
closest_to [] = none
closest_to (pair ∷ pairs) = some (closest pair pairs)

abbrev attributed : Probes → Option String → Option String
attributed g none = none
attributed g (some tip) =
    if g.has_session_end
    then or_option (given (closest_to (g.ancestors tip))) (some tip)
    else some tip

-- `_pushed_sha`
unfoldable pub pushed_sha : Probes → Option String
unfolding pushed_tip closest_to
pushed_sha g = attributed g (pushed_tip g)

unfoldable pub is_beyond_base : Probes → String → String → Option Bool
is_beyond_base g base candidate =
    if candidate == base then some false else g.is_ancestor base candidate

abbrev pub nothing_known : Option String → DeliveryEvidence
nothing_known branch = record {
  inspectable = false;
  branch = branch;
  head_sha = none;
  pushed_sha = none;
  pr_number = none;
  local_changes = none;
  continuity_closed = none;
  head_beyond_base = none;
  pushed_beyond_base = none;
}

-- The branch that is checked out, where it can be told.
abbrev named_branch : Option String → Option String
named_branch none = none
named_branch (some b) = if b == "" || b == "?" then none else some b

unfoldable pub branch_of : Probes → Option (String × Bool)
branch_of g =
    if g.is_dir
    then elim g.state [
      | none ↦ none
      | some st ↦
          if st.detached
          then none
          else elim (named_branch st.branch) [ none ↦ none | some b ↦ some (b, st.dirty) ]
    ]
    else none

abbrev number_of : Option Pull → Option ℕ
number_of none = none
number_of (some p) = some p.number

-- The pushed commit of this run, with its tip as the last resort.
abbrev pub run_sha : Probes → Option (Option String) → Option String
run_sha g none = none
run_sha g (some none) = none
run_sha g (some (some tip)) = or_option (given (pushed_sha g)) (some tip)

abbrev pub beyond : Probes → Option String → Option String → Option Bool
beyond g none sha = none
beyond g (some base) none = some false
beyond g (some base) (some sha) = is_beyond_base g base sha

abbrev differs : String → Option String → Bool
differs head none = true
differs head (some base) = not (head == base)

abbrev exact_pull : Probes → Option String → Option ℕ
exact_pull g none = none
exact_pull g (some sha) = number_of (g.pull (some sha) true)

abbrev evidence_at : Probes → Option String → String → Bool → String → DeliveryEvidence
evidence_at g base branch dirty head =
    let tip = pushed_tip_checked g in
    let sha = run_sha g tip in
    let head_beyond = beyond g (given base) (some head) in
    let pushed_beyond = beyond g (given base) sha in
    record {
      inspectable =
          is_some (given base) && is_some tip && is_some head_beyond && is_some pushed_beyond;
      branch = some branch;
      head_sha = some head;
      pushed_sha = sha;
      pr_number = exact_pull g sha;
      local_changes = some (dirty || differs head base);
      continuity_closed = some g.continuity_closed;
      head_beyond_base = head_beyond;
      pushed_beyond_base = pushed_beyond;
    }

abbrev evidence_head : Probes → Option String → String → Bool → Option String → DeliveryEvidence
evidence_head g base branch dirty none = nothing_known (some branch)
evidence_head g base branch dirty (some head) = evidence_at g base branch dirty head

abbrev evidence_of : Probes → Option String → Option (String × Bool) → DeliveryEvidence
evidence_of g base none = nothing_known none
evidence_of g base (some (branch, dirty)) = evidence_head g base branch dirty (given g.head)

unfoldable pub capture_delivery_evidence : Probes → Option String → DeliveryEvidence
unfolding branch_of pushed_tip_checked pushed_sha is_beyond_base
capture_delivery_evidence g base = evidence_of g base (branch_of g)
