-- ===== src/Registry.antt =====
-- horus/registry.py: the sessions of a machine, and their correction against run logs and live
-- processes. A registry is the `sessions` table of its file; `extra` of a row is what a newer Horus
-- wrote there.
pub mod Logs
pub mod Reconcile
pub mod Settled
pub mod Snapshot
pub mod Resume
pub mod Pruned
pub mod Examples
use horus_harness.Prelude.{ℕ, String, Bool, true, false, Option, none, some, List, [], ◌∷◌, ◌==◌}
use horus_harness.Prelude.{if◌then◌else◌, ◌&&◌, ◌||◌, not, member, is_some, leb, filter, map}
use horus_harness.Prelude.Integers.{ℤ}
use horus_harness.Prelude.Dict
use horus_harness.Prelude.Dict.{Dict}

abbrev pub terminal : List String
terminal = "exited" ∷ "failed" ∷ "orphaned" ∷ "stale" ∷ "stopped" ∷ []

pub record SessionRecord : Type 0 where
  pub session_id : String
  pub agent : String
  pub project : String
  pub account : Option String
  pub environment : String
  pub pid : Option ℕ
  pub status : String
  pub returncode : Option ℤ
  pub updated_at : String
  pub launch_target : String
  pub target_ref : Option String
  pub agent_session_id : Option String
  pub termination_reason : Option String
  pub delivery_expected : Bool
  pub delivery_status : String
  pub dispatch_base_sha : Option String
  pub delivery_branch : Option String
  pub delivery_head_sha : Option String
  pub delivery_pushed_sha : Option String
  pub delivery_pr_number : Option ℕ
  pub delivery_local_changes : Option Bool
  pub delivery_continuity_closed : Option Bool
  pub delivery_checked_at : Option String
  pub last_activity_at : Option String

pub record Row : Type 0 where
  pub known : SessionRecord
  pub extra : Dict String

abbrev pub Sessions : Type 0
Sessions = Dict Row

abbrev is_text : Option String → String → Bool
is_text none s = false
is_text (some t) s = t == s

-- `is_deliberate_close`; a status that is missing is the empty text.
unfoldable pub is_deliberate_close : String → Option String → Bool
is_deliberate_close status reason =
    status == "stopped" || (status == "failed" && is_text reason "stopped")

unfoldable pub display_status : String → Option String → String
unfolding is_deliberate_close
display_status status reason = if is_deliberate_close status reason then "stopped" else status

unfoldable pub is_terminal : Row → Bool
is_terminal row = member row.known.status terminal

abbrev pub or_code : Option ℤ → Option ℤ → Option ℤ
or_code none old = old
or_code (some n) old = some n

abbrev extra_of : Option Row → Dict String
extra_of none = []
extra_of (some row) = row.extra

-- `upsert` at a time: what a newer Horus wrote is kept.
unfoldable pub upsert : String → SessionRecord → Sessions → Sessions
upsert now r sessions =
    Dict.insert r.session_id
      (record {
        known = record r { updated_at = now };
        extra = extra_of (Dict.get r.session_id sessions);
      })
      sessions

-- A write to a row that is there: whether it is, and the sessions.
abbrev pub at_row : String → (Row → Row) → Sessions → Option Row → Bool × Sessions
at_row session_id change sessions none = (false, sessions)
at_row session_id change sessions (some row) = (true, Dict.insert session_id (change row) sessions)

unfoldable pub set_status : String → String → String → Option ℤ → Sessions → Bool × Sessions
set_status now session_id status returncode sessions =
    at_row session_id
      (λ row. record row {
        known = record row.known {
          status = status;
          returncode = or_code returncode row.known.returncode;
          updated_at = now;
        };
      })
      sessions (Dict.get session_id sessions)

-- `update`: `change` writes the fields that are given and that this version knows.
unfoldable pub update :
    String → String → (SessionRecord → SessionRecord) → Sessions → Bool × Sessions
update now session_id change sessions =
    at_row session_id (λ row. record row { known = record (change row.known) { updated_at = now } })
      sessions (Dict.get session_id sessions)

unfoldable pub remove : String → Sessions → Bool × Sessions
remove session_id sessions =
    if is_some (Dict.get session_id sessions)
    then (true, Dict.erase session_id sessions)
    else (false, sessions)

abbrev ids : List (String × Row) → List String
ids rows = map (λ (id, row). id) rows

-- `prune`: the ids that go, and the rows that stay.
unfoldable pub prune : Sessions → List String × Sessions
unfolding is_terminal
prune sessions = (
  ids (filter (λ (id, row). is_terminal row) sessions),
  filter (λ (id, row). not (is_terminal row)) sessions,
)
