-- ===== src/Registry/Snapshot.antt =====
-- The read-only projection shows the outcomes that a reconciliation would record.
use horus_harness.Prelude.{ℕ, String, Option, none, some, [], ◌∷◌, map}
use horus_harness.Prelude.{◌≡◌, refl, inl, inr, Bool-cases}
use horus_harness.Prelude.Integers.{ℤ}
use horus_harness.Registry.{SessionRecord, Row, Sessions, is_terminal}
use horus_harness.Registry.Logs.{RunResult}
use horus_harness.Registry.Reconcile.{
  Machine, reconcile, reconcile_row, settle, stamped, run_result, process_alive, apply_delivery,
  snapshot, project_row, projected,
}

-- A session's outcome, and which process it is.
abbrev pub outcome : SessionRecord → String × String × Option ℤ × Option ℕ
outcome r = (r.session_id, r.status, r.returncode, r.pid)

projected-settle :
    (m : Machine) (row : Row) (o : Option RunResult)
    → outcome (projected m row o) ≡ outcome (settle m row o).row.known
unfolding apply_delivery
projected-settle m row (some r) = refl
projected-settle m row none = elim (Bool-cases (process_alive m row.known.pid)) [
  | inl e ↦ rw e refl
  | inr e ↦ rw e refl
]

project_row-reconcile_row :
    (m : Machine) (row : Row)
    → outcome (project_row m row) ≡ outcome (reconcile_row m row).row.known
unfolding project_row reconcile_row
project_row-reconcile_row m row = elim (Bool-cases (is_terminal row)) [
  | inl e ↦ rw e refl
  | inr e ↦ rw e (projected-settle m (stamped m row) (run_result m row.known.session_id))
]

-- A snapshot lists, for every session in order, the id, status, return code and process that a
-- reconciliation would leave it with.
pub snapshot-reconcile :
    (m : Machine) (sessions : Sessions)
    → map outcome (snapshot m sessions)
      ≡ map (λ (id, row). outcome row.known) (reconcile m sessions).sessions
unfolding snapshot reconcile
snapshot-reconcile m [] = refl
snapshot-reconcile m ((id, row) ∷ rows) =
    rw (project_row-reconcile_row m row, snapshot-reconcile m rows) refl
