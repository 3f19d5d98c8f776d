-- ===== src/Prelude/Dict.antt =====
-- Python's `dict` with text keys, in insertion order: a write to a key that is there keeps its place.
use mathlib.Core.List.{List, [], ◌∷◌}
use mathlib.Core.Option.{Option, none, some, some-injective}
use mathlib.Core.Path.{◌≡◌, ◌∙◌, refl, subst}
use mathlib.Core.Logic.{inl, inr}
use native.Mathlib.Omega.{arith}
use Prim.Native.String.{String}
use text.Mathlib.Text.{◌==◌}
use text.Mathlib.TextEquality.{eq_iff}
use text.Mathlib.TextPositions.{eq_refl}
use horus_harness.Prelude.Tests.{if◌then◌else◌, Bool-cases}
use horus_harness.Prelude.Lists.{All}

abbrev pub Dict {ℓ} : Type ℓ → Type ℓ
Dict V = List (String × V)

module _ {ℓ} {V : Type ℓ} where
  unfoldable pub get : String → Dict V → Option V
  get k [] = none
  get k ((j, v) ∷ d) = if j == k then some v else get k d

  unfoldable pub insert : String → V → Dict V → Dict V
  insert k v [] = (k, v) ∷ []
  insert k v ((j, w) ∷ d) = if j == k then (j, v) ∷ d else (j, w) ∷ insert k v d

  unfoldable pub erase : String → Dict V → Dict V
  erase k [] = []
  erase k ((j, w) ∷ d) = let rest = erase k d in if j == k then rest else (j, w) ∷ rest

  pub get-insert :
      (k j : String) (v : V) (d : Dict V)
      → get j (insert k v d) ≡ (if k == j then some v else get j d)
  unfolding get insert
  get-insert k j v [] = refl
  get-insert k j v ((i, w) ∷ d) =
      ground (arith, eq_iff k j, eq_iff i k, eq_iff i j, get-insert k j v d)

  pub get-insert_same : (k : String) (v : V) (d : Dict V) → get k (insert k v d) ≡ some v
  get-insert_same k v d = get-insert k k v d ∙ rw (eq_refl k) refl

  pub get-erase :
      (k j : String) (d : Dict V) → get j (erase k d) ≡ (if k == j then none else get j d)
  unfolding get erase
  get-erase k j [] = ground arith
  get-erase k j ((i, w) ∷ d) = ground (arith, eq_iff k j, eq_iff i k, eq_iff i j, get-erase k j d)

  -- What holds of every value holds of one that is found.
  pub get-All {κ} :
      (P : V → Type κ) (k : String) {v : V} (d : Dict V)
      → All (λ e. P e.1) d
      → get k d ≡ some v
      → P v
  unfolding get
  get-All P k [] h e = absurd (cc e)
  get-All P k {v} ((j, w) ∷ d) (h, hs) e = elim (Bool-cases (j == k)) [
    | inl here ↦ subst P (some-injective w v (rw here at e)) h
    | inr there ↦ get-All P k d hs (rw there at e)
  ]
