-- ===== src/Steering/Once.antt =====
-- No update is handled in two rounds.
use horus_harness.Prelude.{
  ℕ, ◌+◌, ◌≤◌, String, Option, none, some, List, [], ◌∷◌, ◌≡◌, sym, All, All-In, In, arith,
}
use mathlib.Core.Path.{subst}
use horus_harness.Notify.{NotifyConfig}
use horus_harness.Steering.{Update, handle_update}
use horus_harness.Steering.Listen.{
  Round, Loop, past, replying, handle_each, polled, pushing, cycle, listen,
}

past_lem : (offset id : ℕ) → (offset ≤ past offset id) × (id + 1 ≤ past offset id)
past_lem offset id = ground arith

handle_each-past :
    (cfg : NotifyConfig) (repo : Option String) (round : Round) (us : List (ℕ × Update)) (l : Loop)
    → (l.offset ≤ (handle_each cfg repo round us l).offset)
      × All (λ e. e.0 + 1 ≤ (handle_each cfg repo round us l).offset) us
unfolding handle_each
handle_each-past cfg repo round [] l = (omega arith, tt)
handle_each-past cfg repo round ((id, update) ∷ us) l =
    let next = replying round l id (handle_update cfg repo round.now l.store update) in
    let (more, all) = handle_each-past cfg repo round us next in
    let (up, over) = past_lem l.offset id in
    (omega (arith, more, up), (omega (arith, more, over), all))

polled_past :
    (cfg : NotifyConfig) (repo : Option String) (round : Round) (l : Loop)
    (o : Option (List (ℕ × Update)))
    → l.offset ≤ (polled cfg repo round l o).offset
polled_past cfg repo round l none = omega arith
polled_past cfg repo round l (some us) = (handle_each-past cfg repo round us l).0

listen_past :
    (cfg : NotifyConfig) (repo : Option String) (last : ℕ) (rounds : List Round) (l : Loop)
    → l.offset ≤ (listen cfg repo none last rounds l).0.offset
unfolding listen cycle
listen_past cfg repo last [] l = omega arith
listen_past cfg repo last (round ∷ rounds) l = omega (
  arith,
  polled_past cfg repo round (pushing round l) (round.get_updates l.offset),
  listen_past cfg repo last rounds (cycle cfg repo round l),
)

-- Where Telegram gives only updates from the offset on that it is asked for, what a round handles is
-- older than what any later round of the loop handles, whatever fails in between: no update is handled
-- in two rounds.
pub listen_once :
    (cfg : NotifyConfig) (repo : Option String) (last : ℕ) (before after : Round)
    (between : List Round) (l : Loop) (us vs : List (ℕ × Update))
    → before.get_updates l.offset ≡ some us
    → after.get_updates (listen cfg repo none last (before ∷ between) l).0.offset ≡ some vs
    → ((offset : ℕ) (ws : List (ℕ × Update))
        → after.get_updates offset ≡ some ws
        → All (λ e. offset ≤ e.0) ws)
    → (u v : ℕ × Update) → In u us
    → In v vs
    → u.0 + 1 ≤ v.0
unfolding listen cycle
listen_once cfg repo last before after between l us vs first later contract u v i j =
    let pushed = pushing before l in
    let next = cycle cfg repo before l in
    let all : All (λ e. e.0 + 1 ≤ next.offset) us =
      subst (λ o. All (λ e. e.0 + 1 ≤ (polled cfg repo before pushed o).offset) us) (sym first)
        (handle_each-past cfg repo before us pushed).1 in
    omega (
      arith,
      All-In (λ e. e.0 + 1 ≤ next.offset) u us all i,
      listen_past cfg repo last between next,
      All-In (λ e. (listen cfg repo none last between next).0.offset ≤ e.0) v vs
          (contract (listen cfg repo none last between next).0.offset vs later) j,
    )
