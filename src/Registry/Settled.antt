-- ===== src/Registry/Settled.antt =====
-- What a reconciliation leaves: no row runs that has ended, and another changes nothing.
use horus_harness.Prelude.{String, true, false, Option, none, some, List, [], ◌∷◌, All}
use horus_harness.Prelude.{◌≡◌, refl, ◌⊎◌, inl, inr, arith, eq_iff, ◌&&◌, member, Bool-cases}
use horus_harness.Prelude.Text.{splitlines}
use horus_harness.Registry.{Row, Sessions, terminal, is_terminal}
use horus_harness.Registry.Logs.{
  RunResult, Event, is_result, result_at, or_named, newlines, jsonl_result, legacy_log_result,
  matched, named, ends_as, contains,
}
use horus_harness.Registry.Reconcile.{
  Machine, reconcile, reconcile_row, settle, stamped, run_result, or_result, process_alive,
  apply_delivery,
}

-- The result is that of a run that ended.
abbrev IsEnd : Option RunResult → Type 0
IsEnd none = Unit
IsEnd (some r) = member r.status terminal ≡ true

jsonl_result-IsEnd : (id : String) (events : List Event) → IsEnd (jsonl_result id events)
unfolding jsonl_result
jsonl_result-IsEnd id [] = tt
jsonl_result-IsEnd id (e ∷ events) = go (jsonl_result id events) (jsonl_result-IsEnd id events)
  where
    kinds : is_result id e ≡ true → (e.status ≡ "exited") ⊎ (e.status ≡ "failed")
    kinds h = ground (arith, eq_iff e.status "exited", eq_iff e.status "failed")

    ends : (e.status ≡ "exited") ⊎ (e.status ≡ "failed") → member e.status terminal ≡ true
    ends (inl h) = rw h refl
    ends (inr h) = rw h refl

    go : (o : Option RunResult) → IsEnd o → IsEnd (result_at id e o)
    go (some r) h = h
    go none h = elim (Bool-cases (is_result id e)) [
      | inl b ↦ rw b (ends (kinds b))
      | inr b ↦ rw b tt
    ]

matched-IsEnd : (id : String) (lines : List String) → IsEnd (matched id lines)
unfolding matched
matched-IsEnd id [] = tt
matched-IsEnd id (line ∷ lines) = elim (Bool-cases (ends_as "exited" id line)) [
  | inl e ↦ rw e refl
  | inr e ↦ elim (Bool-cases (ends_as "failed" id line)) [
    | inl e2 ↦ rw (e, e2) refl
    | inr e2 ↦ rw (e, e2) (matched-IsEnd id lines)
  ]
]

named-IsEnd : (id : String) (lines : List String) → IsEnd (named id lines)
unfolding named
named-IsEnd id [] = tt
named-IsEnd id (line ∷ lines) = elim (Bool-cases (contains line "RESULT" && contains line id)) [
  | inr e ↦ rw e (named-IsEnd id lines)
  | inl e ↦ elim (Bool-cases (contains line "failed")) [
    | inl e2 ↦ rw (e, e2) refl
    | inr e2 ↦ elim (Bool-cases (contains line "exited")) [
      | inl e3 ↦ rw (e, e2, e3) refl
      | inr e3 ↦ rw (e, e2, e3) (named-IsEnd id lines)
    ]
  ]
]

or_result-IsEnd : (a b : Option RunResult) → IsEnd a → IsEnd b → IsEnd (or_result a b)
or_result-IsEnd none b h k = k
or_result-IsEnd (some r) b h k = h

or_named-IsEnd : (a b : Option RunResult) → IsEnd a → IsEnd b → IsEnd (or_named a b)
or_named-IsEnd none b h k = k
or_named-IsEnd (some r) b h k = h

run_result-IsEnd : (m : Machine) (id : String) → IsEnd (run_result m id)
unfolding run_result legacy_log_result
run_result-IsEnd m id =
    or_result-IsEnd (jsonl_result id (m.events id)) (legacy_log_result id (m.log id))
      (jsonl_result-IsEnd id (m.events id))
      (or_named-IsEnd (matched id (newlines (m.log id))) (named id (splitlines (m.log id)))
        (matched-IsEnd id (newlines (m.log id))) (named-IsEnd id (splitlines (m.log id))))

-- A row is terminal, or its process is alive and no log says that it ended.
abbrev pub IsSettled : Machine → Row → Type 0
IsSettled m row =
    (is_terminal row ≡ true)
    ⊎ ((process_alive m row.known.pid ≡ true) × (run_result m row.known.session_id ≡ none))

settle-IsSettled :
    (m : Machine) (row : Row) (o : Option RunResult)
    → IsEnd o
    → run_result m row.known.session_id ≡ o
    → IsSettled m (settle m row o).row
unfolding is_terminal apply_delivery
settle-IsSettled m row (some r) h e = inl h
settle-IsSettled m row none h e = elim (Bool-cases (process_alive m row.known.pid)) [
  | inl a ↦ rw a (inr (a, e))
  | inr a ↦ rw a (inl refl)
]

stamped_terminal :
    (m : Machine) (row : Row) → is_terminal row ≡ true → is_terminal (stamped m row) ≡ true
unfolding is_terminal
stamped_terminal m row h = h

reconcile_row-IsSettled : (m : Machine) (row : Row) → IsSettled m (reconcile_row m row).row
unfolding reconcile_row
reconcile_row-IsSettled m row = elim (Bool-cases (is_terminal row)) [
  | inl e ↦ rw e (inl (stamped_terminal m row e))
  | inr e ↦ rw e (
      settle-IsSettled m (stamped m row) (run_result m row.known.session_id)
        (run_result-IsEnd m row.known.session_id) refl)
]

-- After a reconciliation every session is terminal, or its process is alive and no log says that it
-- ended.
pub reconcile-IsSettled :
    (m : Machine) (sessions : Sessions) → All (λ e. IsSettled m e.1) (reconcile m sessions).sessions
unfolding reconcile
reconcile-IsSettled m [] = tt
reconcile-IsSettled m ((id, row) ∷ rows) =
    (reconcile_row-IsSettled m row, reconcile-IsSettled m rows)

settled-unchanged :
    (m : Machine) (row : Row)
    → IsSettled m row
    → ((reconcile_row m row).changed ≡ false) × ((reconcile_row m row).effects ≡ [])
unfolding reconcile_row
settled-unchanged m row (inl t) = rw t (refl, refl)
settled-unchanged m row (inr (alive, running)) = elim (Bool-cases (is_terminal row)) [
  | inl e ↦ rw e (refl, refl)
  | inr e ↦ rw (e, running, alive) (refl, refl)
]

reconcile_settled :
    (m : Machine) (sessions : Sessions)
    → All (λ e. IsSettled m e.1) sessions
    → ((reconcile m sessions).changed ≡ []) × ((reconcile m sessions).effects ≡ [])
unfolding reconcile
reconcile_settled m [] h = (refl, refl)
reconcile_settled m ((id, row) ∷ rows) (h, hs) =
    let (same, quiet) = settled-unchanged m row h in
    let (rest, silent) = reconcile_settled m rows hs in
    (rw (same, rest) refl, rw (quiet, silent) refl)

-- On the same machine, a second reconciliation changes no status and writes no event and no
-- completion.
pub reconcile_twice :
    (m : Machine) (sessions : Sessions)
    → ((reconcile m (reconcile m sessions).sessions).changed ≡ [])
      × ((reconcile m (reconcile m sessions).sessions).effects ≡ [])
reconcile_twice m sessions =
    reconcile_settled m (reconcile m sessions).sessions (reconcile-IsSettled m sessions)
