-- ===== src/Prelude/Sorted.antt =====
-- What `sorted` keeps: the elements, and how many there are.
use Prim.Native.Nat.{suc}
use mathlib.Core.Path.{◌≡◌, refl, ap, ◌∙◌}
use mathlib.Core.Logic.{◌⊎◌, ◌↔◌}
use mathlib.Core.Bool.{Bool}
use mathlib.Core.List.{List, [], ◌∷◌}
use native.Mathlib.Omega.{arith}
use horus_harness.Prelude.Lists.{length, In, insert_sorted, sorted}

module _ {A : Type 0} (le : A → A → Bool) where
  In-insert_sorted : (x a : A) (ys : List A) → In x (insert_sorted le a ys) ↔ ((x ≡ a) ⊎ In x ys)
  unfolding insert_sorted
  In-insert_sorted x a [] = ground arith
  In-insert_sorted x a (y ∷ ys) = ground (arith, In-insert_sorted x a ys)

  pub In-sorted : (x : A) (xs : List A) → In x (sorted le xs) ↔ In x xs
  unfolding sorted
  In-sorted x [] = ground arith
  In-sorted x (a ∷ xs) = ground (arith, In-insert_sorted x a (sorted le xs), In-sorted x xs)

  length-insert_sorted : (a : A) (ys : List A) → length (insert_sorted le a ys) ≡ suc (length ys)
  unfolding insert_sorted
  length-insert_sorted a [] = refl
  length-insert_sorted a (y ∷ ys) = ground (arith, length-insert_sorted a ys)

  pub length-sorted : (xs : List A) → length (sorted le xs) ≡ length xs
  unfolding sorted
  length-sorted [] = refl
  length-sorted (a ∷ xs) = length-insert_sorted a (sorted le xs) ∙ ap suc (length-sorted xs)
