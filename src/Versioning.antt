-- ===== src/Versioning.antt =====
-- horus/versioning.py: the oldest CLI that a project's structure admits.
pub mod Monotone
use horus_harness.Prelude.{
  ℕ, suc, ◌+◌, ◌-◌, ◌*◌, String, Bool, true, false, Option, none, some, List, [], ◌∷◌, map, ◌==◌,
}
use horus_harness.Prelude.{if◌then◌else◌, ◌&&◌, leb, ltb, beq, ◌≡◌, refl}
use horus_harness.Prelude.Dict
use Prim.Native.Char.{Char, code}
use horus_harness.Prelude.Text.{strip}
use horus_harness.Frontmatter.{Document}
use horus_harness.Frontmatter.Focus.{Files, parse_file}
use horus_harness.Backlog.Order.{split_on}

is_digit : Char → Bool
is_digit c = leb b'0' (code c) && leb (code c) b'9'

-- The number that a piece's digits are, the others left out.
digits : ℕ → String → ℕ
unfolding is_digit
digits n String.[] = n
digits n (String.◌∷◌ c s) = digits (if is_digit c then n * 10 + (code c - b'0') else n) s

unfoldable pub version_tuple : String → List ℕ
unfolding digits split_on
version_tuple version = map (digits 0) (split_on "." version)

-- `a <= b` of tuples
unfoldable pub tuple_le : List ℕ → List ℕ → Bool
tuple_le [] b = true
tuple_le (x ∷ a) [] = false
tuple_le (x ∷ a) (y ∷ b) = let rest = tuple_le a b in if ltb x y then true else beq x y && rest

unfoldable pub is_at_least : String → String → Bool
unfolding version_tuple tuple_le
is_at_least installed floor = tuple_le (version_tuple floor) (version_tuple installed)

abbrev stripped : Option String → Option String
stripped none = none
stripped (some s) = if strip s == "" then none else some (strip s)

abbrev floor_of : Option Document → Option String
floor_of none = none
floor_of (some doc) = stripped (Dict.get "horus_min_version" doc.front_matter)

unfoldable pub read_floor : Files → Option String
unfolding parse_file strip
read_floor files = floor_of (parse_file files "PRD.md")

-- What the refusal names: the floor, and the version that is installed.
abbrev pub refusal : String → Option String → Option (String × String)
refusal installed none = none
refusal installed (some floor) =
    if is_at_least installed floor then none else some (floor, installed)

unfoldable pub enforce : Files → String → Option (String × String)
unfolding read_floor is_at_least
enforce files installed = refusal installed (read_floor files)

test_tuple : version_tuple "0.0.26rc1" ≡ 0 ∷ 0 ∷ 261 ∷ []
unfolding version_tuple
test_tuple = refl

test_enforce :
    enforce (λ name. some "---\nhorus_min_version: 0.0.26\n---\n") "0.0.9"
    ≡ some ("0.0.26", "0.0.9")
unfolding enforce Dict.get Dict.insert
test_enforce = refl
