-- ===== src/Backlog/Order.antt =====
-- Small parsers of `horus/backlog.py`: the `order:` stamp as Python's `int` reads it, quotes and
-- commas.
use horus_harness.Prelude.{
  ℕ, ◌+◌, ◌-◌, ◌*◌, String, Bool, true, false, Option, none, some, List, [], ◌∷◌, ◌≡◌, refl,
}
use horus_harness.Prelude.{◌==◌, if◌then◌else◌, ◌&&◌, ◌||◌, leb}
use horus_harness.Prelude.Integers.{ℤ, pos, negsuc, negate}
use Prim.Native.Char.{Char, code}
use horus_harness.Prelude.Text.{strip, same_char}

is_mark : Char → Bool
is_mark c = same_char c "'" || same_char c "\""

lstrip_marks : String → String
unfolding is_mark
lstrip_marks String.[] = ""
lstrip_marks (String.◌∷◌ c s) =
    let rest = lstrip_marks s in if is_mark c then rest else String.◌∷◌ c s

rstrip_marks : String → String
unfolding is_mark
rstrip_marks String.[] = ""
rstrip_marks (String.◌∷◌ c s) =
    let rest = rstrip_marks s in if rest == "" && is_mark c then "" else String.◌∷◌ c rest

-- `s.strip("'\"")`
unfoldable pub strip_marks : String → String
unfolding lstrip_marks rstrip_marks
strip_marks s = rstrip_marks (lstrip_marks s)

abbrev on_head : Char → List String → List String
on_head c [] = String.◌∷◌ c "" ∷ []
on_head c (t ∷ ts) = String.◌∷◌ c t ∷ ts

-- `s.split(d)` for one character
unfoldable pub split_on : Char → String → List String
split_on d String.[] = "" ∷ []
split_on d (String.◌∷◌ c s) =
    let rest = split_on d s in if same_char c d then "" ∷ rest else on_head c rest

is_digit : Char → Bool
is_digit c = leb b'0' (code c) && leb (code c) b'9'

-- The digits of `int`, ASCII ones: an underscore may stand between two. `after` says that a digit
-- stands before what is left.
digits : Bool → ℕ → String → Option ℕ
unfolding is_digit
digits after n String.[] = if after then some n else none
digits after n (String.◌∷◌ c s) =
    let more = digits true (n * 10 + (code c - b'0')) s in
    let apart = digits false n s in
    if is_digit c then more else (if after && same_char c "_" then apart else none)

abbrev signed : (ℕ → ℤ) → Option ℕ → Option ℤ
signed f none = none
signed f (some n) = some (f n)

-- `int(text)` of a text that is stripped.
unfoldable pub parse_int : String → Option ℤ
unfolding digits
parse_int String.[] = none
parse_int (String.◌∷◌ c s) =
    if same_char c "-"
    then signed negate (digits false 0 s)
    else if same_char c "+"
    then signed pos (digits false 0 s)
    else signed pos (digits false 0 (String.◌∷◌ c s))

-- `_parse_order`
unfoldable pub parse_order : String → Option ℤ
unfolding strip strip_marks parse_int
parse_order raw =
    let text = strip (strip_marks (strip raw)) in if text == "" then none else parse_int text

test_order : parse_order " '-1_0' " ≡ some (negsuc 9)
unfolding parse_order
test_order = refl

test_not_integer : parse_order "1.5" ≡ none
unfolding parse_order
test_not_integer = refl

test_split : split_on "," "a,,b" ≡ "a" ∷ "" ∷ "b" ∷ []
unfolding split_on
test_split = refl
