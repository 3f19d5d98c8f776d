-- ===== src/Calendar/Strokes.antt =====
-- A calendar that spells a day by that many strokes and a dot: the assumptions can be met.
use horus_harness.Prelude.{
  ℕ, zero, suc, String, ◌≡◌, refl, Option, none, some, arith, beq, if◌then◌else◌,
}
use horus_harness.Prelude.Text.{starts_with, same_char}
use horus_harness.Calendar.{Calendar}

abbrev pub strokes : ℕ → String
strokes zero = "."
strokes (suc n) = String.◌∷◌ "/" (strokes n)

abbrev one_more : Option ℕ → Option ℕ
one_more none = none
one_more (some n) = some (suc n)

abbrev pub read_strokes : String → Option ℕ
read_strokes String.[] = none
read_strokes (String.◌∷◌ c s) =
    let rest = one_more (read_strokes s) in if same_char c "." then some 0 else rest

pub read-strokes : (n : ℕ) → read_strokes (strokes n) ≡ some n
read-strokes zero = refl
read-strokes (suc n) = ground (arith, read-strokes n)

pub starts-strokes : (t d : ℕ) → starts_with (strokes t) (strokes d) ≡ beq t d
unfolding starts_with
starts-strokes zero zero = refl
starts-strokes zero (suc d) = ground arith
starts-strokes (suc t) zero = ground arith
starts-strokes (suc t) (suc d) = ground (arith, starts-strokes t d)

-- An instant is its day.
abbrev pub stroke_calendar : Calendar
stroke_calendar = record {
  Instant = ℕ;
  day = λ t. t;
  stamp = strokes;
  iso = strokes;
  from_iso = read_strokes;
  from_iso-iso = read-strokes;
  stamp-day = starts-strokes;
}
