-- ===== src/Prelude/Decimal.antt =====
-- Numbers as texts, and the beginnings of texts.
use Prim.Native.Char.{Char, code}
use Prim.Native.Nat.{ℕ, zero, suc, ◌+◌, ◌-◌, ◌*◌, ◌/◌, ◌%◌}
use Prim.Native.String.{String}
use mathlib.Core.Bool.{Bool, true, false, ◌&&◌, ◌||◌}
use mathlib.Core.Path.{◌≡◌, refl}
use text.Mathlib.Text.{◌==◌}
use horus_harness.Prelude.Tests.{if◌then◌else◌, leb}
use horus_harness.Prelude.Integers.{ℤ, pos, negsuc}
use horus_harness.Prelude.Text.{same_char, starts_with, ◌<>◌}

-- `s[:n]`
unfoldable pub take_text : ℕ → String → String
take_text zero s = ""
take_text (suc n) String.[] = ""
take_text (suc n) (String.◌∷◌ c s) = String.◌∷◌ c (take_text n s)

-- `s[n:]`
unfoldable pub drop_text : ℕ → String → String
drop_text zero s = s
drop_text (suc n) String.[] = ""
drop_text (suc n) (String.◌∷◌ c s) = drop_text n s

-- `len(s)`
unfoldable pub text_length : String → ℕ
text_length String.[] = 0
text_length (String.◌∷◌ c s) = suc (text_length s)

-- `s[-n:]`, for a positive `n`
unfoldable pub last_text : ℕ → String → String
unfolding text_length drop_text
last_text n s = drop_text (text_length s - n) s

digit : ℕ → String
unfolding take_text drop_text
digit n = take_text 1 (drop_text n "0123456789")

-- The digits of `n`, of which there are at most `fuel`, before those of `rest`.
digits_of : ℕ → ℕ → String → String
unfolding digit ◌<>◌
digits_of zero n rest = rest
digits_of (suc fuel) n rest =
    let spelled = digit (n % 10) <> rest in
    elim (leb n 9) [ true ↦ spelled | false ↦ digits_of fuel (n / 10) spelled ]

-- `str(n)`: a number has no more digits than it has units, or one.
unfoldable pub decimal : ℕ → String
unfolding digits_of
decimal n = digits_of (suc n) n ""

-- `str(z)`
unfoldable pub decimal_ℤ : ℤ → String
unfolding decimal ◌<>◌
decimal_ℤ (pos n) = decimal n
decimal_ℤ (negsuc n) = "-" <> decimal (suc n)

is_digit : Char → Bool
is_digit c = leb b'0' (code c) && leb (code c) b'9'

all_digits : String → Bool
unfolding is_digit
all_digits String.[] = true
all_digits (String.◌∷◌ c s) = is_digit c && all_digits s

-- `s.isdigit()`, of ASCII digits
unfoldable pub isdigit : String → Bool
unfolding all_digits
isdigit String.[] = false
isdigit (String.◌∷◌ c s) = all_digits (String.◌∷◌ c s)

value_from : ℕ → String → ℕ
value_from n String.[] = n
value_from n (String.◌∷◌ c s) = value_from (n * 10 + (code c - b'0')) s

-- `int(s)` of digits
unfoldable pub digits_value : String → ℕ
unfolding value_from
digits_value s = value_from 0 s

-- `t in s`
unfoldable pub contains : String → String → Bool
unfolding starts_with
contains t String.[] = t == ""
contains t (String.◌∷◌ c s) = starts_with (String.◌∷◌ c s) t || contains t s

-- `s.replace(d, "")` for one character
unfoldable pub without_char : Char → String → String
without_char d String.[] = ""
without_char d (String.◌∷◌ c s) =
    let rest = without_char d s in if same_char c d then rest else String.◌∷◌ c rest

test_decimal : decimal 1042 ≡ "1042"
unfolding decimal
test_decimal = refl

test_value : digits_value "0142" ≡ 142
unfolding digits_value
test_value = refl

test_contains : contains "bc" "abcd" ≡ true
unfolding contains
test_contains = refl
