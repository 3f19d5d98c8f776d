-- ===== src/Supervise/Dependents.antt =====
-- `_transitive_dependents` of horus/supervise.py: the cards that depend on one, by a stack of cards
-- that are still to be looked at. A set of texts is the list of its members.
pub mod Edges
pub mod Progress
pub mod Reached
use horus_harness.Prelude.{
  ℕ, zero, suc, String, Bool, true, false, Option, none, some, List, [], ◌∷◌, map, ◌==◌, ◌&&◌, ◌||◌,
}
use horus_harness.Prelude.{◌≡◌, refl, if◌then◌else◌, member, any, length}
use horus_harness.Prelude.Dict
use horus_harness.Prelude.Dict.{Dict}

-- The dependencies of each card.
abbrev pub Deps : Type 0
Deps = Dict (List String)

abbrev pub all_of : Option (List String) → List String
all_of none = []
all_of (some cards) = cards

-- `reverse.get(card, ())`
unfoldable pub dependents_at : String → Deps → List String
dependents_at card reverse = all_of (Dict.get card reverse)

-- `cards.add(card)`
abbrev pub add : String → List String → List String
add card cards = if member card cards then cards else card ∷ cards

-- `reverse.setdefault(d, set()).add(card)` for each `d`, and for each card.
unfoldable pub reverse_card : String → List String → Deps → Deps
unfolding dependents_at
reverse_card card [] reverse = reverse
reverse_card card (d ∷ ds) reverse =
    reverse_card card ds (Dict.insert d (add card (dependents_at d reverse)) reverse)

unfoldable pub reverse_all : Deps → Deps → Deps
unfolding reverse_card
reverse_all [] reverse = reverse
reverse_all ((card, ds) ∷ deps) reverse = reverse_all deps (reverse_card card ds reverse)

pub record Walk : Type 0 where
  pub seen : List String
  pub stack : List String

abbrev pub visit_one : String → Walk → Walk
visit_one d w = if member d w.seen then w else record { seen = d ∷ w.seen; stack = d ∷ w.stack }

-- The inner loop: dependents that are new are seen, and stacked.
unfoldable pub visit : List String → Walk → Walk
visit [] w = w
visit (d ∷ ds) w = visit ds (visit_one d w)

-- The outer loop, with fuel for so many rounds; `none` is a loop that has not ended by then.
unfoldable pub walk : Deps → ℕ → List String → List String → Option (List String)
unfolding dependents_at visit
walk reverse fuel seen [] = some seen
walk reverse zero seen (x ∷ stack) = none
walk reverse (suc fuel) seen (x ∷ stack) =
    let w = visit (dependents_at x reverse) (record { seen = seen; stack = stack }) in
    walk reverse fuel w.seen w.stack

-- A round for the failed card and one for each card of the backlog are enough.
unfoldable pub transitive_dependents : String → Deps → Option (List String)
unfolding reverse_all walk
transitive_dependents target deps = walk (reverse_all deps []) (suc (length deps)) [] (target ∷ [])

-- `card` names `on` among its dependencies.
abbrev pub is_direct : Deps → String → String → Bool
is_direct deps on card = any (λ (name, ds). name == card && member on ds) deps

-- `card` depends on the target, through any number of cards.
pub data IsDependent (deps : Deps) (target : String) : String → Type 0 where
  direct : {card : String} → is_direct deps target card ≡ true → IsDependent deps target card
  through :
      {d card : String}
      → IsDependent deps target d
      → is_direct deps d card ≡ true
      → IsDependent deps target card

test_dependents :
    transitive_dependents "a" (("b", "a" ∷ []) ∷ ("c", "x" ∷ "b" ∷ []) ∷ ("d", "e" ∷ []) ∷ [])
    ≡ some ("c" ∷ "b" ∷ [])
unfolding transitive_dependents Dict.get Dict.insert
test_dependents = refl
