-- ===== src/Versioning/Monotone.antt =====
-- A newer CLI passes wherever an older one does.
use horus_harness.Prelude.{ℕ, String, true, Option, none, some, List, [], ◌∷◌}
use horus_harness.Prelude.{◌≡◌, refl, arith, Bool-cases, inl, inr}
use horus_harness.Frontmatter.Focus.{Files}
use horus_harness.Versioning.{tuple_le, version_tuple, is_at_least, read_floor, refusal, enforce}

tuple_le_trans : (a b c : List ℕ) → tuple_le a b ≡ true → tuple_le b c ≡ true → tuple_le a c ≡ true
unfolding tuple_le
tuple_le_trans [] b c h k = refl
tuple_le_trans (x ∷ a) [] c h k = absurd (cc h)
tuple_le_trans (x ∷ a) (y ∷ b) [] h k = absurd (cc k)
tuple_le_trans (x ∷ a) (y ∷ b) (z ∷ c) h k = ground (arith, tuple_le_trans a b c)

is_at_least_trans :
    (newer older floor : String)
    → is_at_least newer older ≡ true
    → is_at_least older floor ≡ true
    → is_at_least newer floor ≡ true
unfolding is_at_least
is_at_least_trans newer older floor h k =
    tuple_le_trans (version_tuple floor) (version_tuple older) (version_tuple newer) k h

refusal-newer :
    (newer older : String) (o : Option String)
    → is_at_least newer older ≡ true
    → refusal older o ≡ none
    → refusal newer o ≡ none
refusal-newer newer older none h k = refl
refusal-newer newer older (some floor) h k = elim (Bool-cases (is_at_least older floor)) [
  | inl e ↦ rw (is_at_least_trans newer older floor h e) refl
  | inr e ↦ absurd (cc (rw e at k))
]

-- Where a project admits a version, it admits every version that is at least as high.
pub enforce_newer :
    (files : Files) (newer older : String)
    → is_at_least newer older ≡ true
    → enforce files older ≡ none
    → enforce files newer ≡ none
unfolding enforce
enforce_newer files newer older h k = refusal-newer newer older (read_floor files) h k
