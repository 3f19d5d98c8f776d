-- ===== src/Supervise/Dependents/Reached.antt =====
-- What `_transitive_dependents` returns: just the cards that depend on the failed one.
use horus_harness.Prelude.{suc, String, true, false, some, List, [], ◌∷◌, map, ◌==◌, ◌⊎◌, ◌↔◌}
use horus_harness.Prelude.{
  ◌≡◌, refl, inl, inr, arith, eq_iff, eq_refl, member, length, Bool-cases, ap, ◌∙◌,
}
use mathlib.Core.Path.{subst}
use horus_harness.Prelude.Dict
use horus_harness.Supervise.Dependents.{
  Deps, dependents_at, Walk, visit, transitive_dependents, reverse_all, is_direct, IsDependent,
  direct, through,
}
use horus_harness.Supervise.Dependents.Edges.{member-reverse_all, member-seen, member-stack}
use horus_harness.Supervise.Dependents.Progress.{unseen, walk_ind}

abbrev IsFrom : Deps → String → String → Type 0
IsFrom deps target x = (x ≡ target) ⊎ IsDependent deps target x

abbrev IsSeen : String → List String → String → Type 0
IsSeen target seen x = (x ≡ target) ⊎ (member x seen ≡ true)

-- What is seen depends on the target, what is stacked does or is the target, and the dependents of
-- whatever is off the stack are seen.
abbrev IsExplored : Deps → String → List String → List String → Type 0
IsExplored deps target seen stack =
    ((x : String) → member x seen ≡ true → IsDependent deps target x)
    × ((x : String) → member x stack ≡ true → IsFrom deps target x)
    × ((x c : String)
        → IsSeen target seen x
        → member x stack ≡ false
        → is_direct deps x c ≡ true
        → member c seen ≡ true)

edge :
    (deps : Deps) (x c : String)
    → member c (dependents_at x (reverse_all deps [])) ≡ is_direct deps x c
unfolding dependents_at Dict.get
edge deps x c = ground (arith, member-reverse_all c x deps [])

IsFrom-next :
    (deps : Deps) (target x c : String)
    → IsFrom deps target x
    → is_direct deps x c ≡ true
    → IsDependent deps target c
IsFrom-next deps target x c (inl e) h = direct (rw e at h)
IsFrom-next deps target x c (inr d) h = through d h

-- What is seen after a round was a dependent of the card, or was seen before it.
seen_before :
    (target y : String) (ds : List String) (w : Walk)
    → IsSeen target (visit ds w).seen y
    → member y (visit ds w).stack ≡ false
    → IsSeen target w.seen y
seen_before target y ds w (inl e) off = inl e
seen_before target y ds w (inr h) off =
    inr (ground (arith, member-seen y ds w, member-stack y ds w))

module _ (deps : Deps) (target x : String) (ds : List String) (w : Walk)
    (edges : (c : String) → member c ds ≡ is_direct deps x c) where
  seen-IsDependent :
      (c : String)
      → IsExplored deps target w.seen (x ∷ w.stack)
      → (member c ds ≡ true) ⊎ (member c w.seen ≡ true)
      → IsDependent deps target c
  seen-IsDependent c (sound, stacked, closed) (inl h) =
      IsFrom-next deps target x c (stacked x (ground (arith, eq_refl x))) (rw edges at h)
  seen-IsDependent c (sound, stacked, closed) (inr h) = sound c h

  stack-IsFrom :
      (c : String)
      → IsExplored deps target w.seen (x ∷ w.stack)
      → (member c ds ≡ true) ⊎ (member c w.stack ≡ true)
      → IsFrom deps target c
  stack-IsFrom c p (inl h) = inr (seen-IsDependent c p (inl h))
  stack-IsFrom c (sound, stacked, closed) (inr h) = stacked c (ground arith)

  seen_closed :
      (y c : String)
      → IsExplored deps target w.seen (x ∷ w.stack)
      → IsSeen target (visit ds w).seen y
      → member y (visit ds w).stack ≡ false
      → is_direct deps y c ≡ true
      → (member c ds ≡ true) ⊎ (member c w.seen ≡ true)
  seen_closed y c (sound, stacked, closed) known off h = elim (Bool-cases (y == x)) [
    | inl e ↦ inl (edges c ∙ subst (λ z. is_direct deps z c ≡ true) ((eq_iff y x).0 e) h)
    | inr e ↦
        inr
          (closed y c (seen_before target y ds w known off) (ground (arith, member-stack y ds w)) h)
  ]

  visit-IsExplored :
      IsExplored deps target w.seen (x ∷ w.stack)
      → IsExplored deps target (visit ds w).seen (visit ds w).stack
  visit-IsExplored p = (
    λ c h. seen-IsDependent c p (ground (arith, member-seen c ds w)),
    λ c h. stack-IsFrom c p (ground (arith, member-stack c ds w)),
    λ y c known off h.
        let found = seen_closed y c p known off h in ground (arith, member-seen c ds w),
  )

-- Where a card is named, the card is a key.
is_key :
    (deps : Deps) (x c : String)
    → is_direct deps x c ≡ true
    → member c (map (λ (name, ds). name) deps) ≡ true
is_key [] x c h = absurd (cc h)
is_key ((name, ds) ∷ deps) x c h = ground (arith, is_key deps x c, eq_iff name c, eq_iff c name)

complete :
    (deps : Deps) (target : String) (seen : List String)
    → IsExplored deps target seen []
    → (c : String) → IsDependent deps target c
    → member c seen ≡ true
complete deps target seen p c (direct h) = p.2 target c (inl refl) refl h
complete deps target seen p c (through {d} m h) =
    p.2 d c (inr (complete deps target seen p d m)) refl h

unseen_none : (cards : List String) → unseen cards [] ≡ length cards
unseen_none [] = refl
unseen_none (c ∷ cards) = ap suc (unseen_none cards)

length-keys : (deps : Deps) → length (map (λ (name, ds). name) deps) ≡ length deps
length-keys [] = refl
length-keys ((name, ds) ∷ deps) = ap suc (length-keys deps)

start : (deps : Deps) (target : String) → IsExplored deps target [] (target ∷ [])
start deps target = (
  λ c h. absurd (cc h),
  λ c h. inl (ground (arith, eq_iff c target)),
  λ x c known off h. elim known [ inl e ↦ ground (arith, eq_iff x target) | inr m ↦ absurd (cc m) ],
)

-- The search ends, whatever cycles the dependencies have, and a card is in what it returns just if it
-- depends on the target through some number of cards.
pub transitive_dependents_iff :
    (target : String) (deps : Deps)
    → (result : List String) × (transitive_dependents target deps ≡ some result)
      × ((card : String) → member card result ≡ true ↔ IsDependent deps target card)
unfolding transitive_dependents
transitive_dependents_iff target deps =
    let keys = map (λ (name, ds). name) deps in
    let (result, ended, p) =
      walk_ind (reverse_all deps []) keys (λ x c h. is_key deps x c (rw edge at h))
        (IsExplored deps target)
        (λ x w p.
          visit-IsExplored deps target x (dependents_at x (reverse_all deps [])) w (edge deps x) p)
        (suc (length deps)) [] (target ∷ []) (omega (arith, unseen_none keys, length-keys deps))
        (start deps target) in
    (result, ended, λ card. (p.0 card, complete deps target result p card))
