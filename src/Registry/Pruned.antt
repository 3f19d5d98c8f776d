-- ===== src/Registry/Pruned.antt =====
-- A registry that is reconciled and pruned has only sessions that run.
use horus_harness.Prelude.{true, false, none, [], ◌∷◌, All, filter, not}
use horus_harness.Prelude.{◌≡◌, inl, inr, Bool-cases}
use horus_harness.Registry.{Row, Sessions, is_terminal, prune}
use horus_harness.Registry.Reconcile.{Machine, reconcile, process_alive, run_result}
use horus_harness.Registry.Settled.{IsSettled, reconcile-IsSettled}

-- The process of the row is alive, and no log says that its run ended.
abbrev pub IsRunning : Machine → Row → Type 0
IsRunning m row =
    (process_alive m row.known.pid ≡ true) × (run_result m row.known.session_id ≡ none)

IsRunning-settled :
    (m : Machine) (row : Row) → is_terminal row ≡ false → IsSettled m row → IsRunning m row
IsRunning-settled m row h (inl e) = absurd (cc (h, e))
IsRunning-settled m row h (inr r) = r

IsRunning-filter :
    (m : Machine) (sessions : Sessions)
    → All (λ e. IsSettled m e.1) sessions
    → All (λ e. IsRunning m e.1) (filter (λ (id, row). not (is_terminal row)) sessions)
IsRunning-filter m [] h = tt
IsRunning-filter m ((id, row) ∷ rows) (h, hs) = elim (Bool-cases (is_terminal row)) [
  | inl e ↦ rw e (IsRunning-filter m rows hs)
  | inr e ↦ rw e (IsRunning-settled m row e h, IsRunning-filter m rows hs)
]

-- Where a registry is reconciled and then pruned, the process of every session that stays is alive
-- and no log says that it ended.
pub prune-IsRunning :
    (m : Machine) (sessions : Sessions)
    → All (λ e. IsRunning m e.1) (prune (reconcile m sessions).sessions).1
unfolding prune
prune-IsRunning m sessions =
    IsRunning-filter m (reconcile m sessions).sessions (reconcile-IsSettled m sessions)
