-- ===== src/Prelude/Text.antt =====
-- Python's `str` methods over native strings, by recursion on the characters.
use Prim.Native.Char.{Char, code}
use Prim.Native.Nat.{Ordering}
use Prim.Native.String.{String, compare}
use mathlib.Core.List.{List, [], ◌∷◌}
use mathlib.Core.Option.{Option, none, some}
use mathlib.Core.Bool.{Bool, true, false, ◌&&◌, ◌||◌}
use mathlib.Core.Path.{◌≡◌, refl}
use text.Mathlib.Text.{◌==◌}
use horus_harness.Prelude.Tests.{if◌then◌else◌, beq, leb}

-- `s + t`
infixr 65 ◌<>◌
unfoldable pub ◌<>◌ : String → String → String
String.[] <> t = t
String.◌∷◌ c s <> t = String.◌∷◌ c (s <> t)

-- `str.isspace` of one character
unfoldable pub is_space : Char → Bool
is_space c =
    let n = code c in
    (leb 9 n && leb n 13)
    || (leb 28 n && leb n 32)
    || beq n 0x85
    || beq n 0xa0
    || beq n 0x1680
    || (leb 0x2000 n && leb n 0x200a)
    || beq n 0x2028
    || beq n 0x2029
    || beq n 0x202f
    || beq n 0x205f
    || beq n 0x3000

test_concat : ("ab" <> "c") ≡ "abc"
unfolding ◌<>◌
test_concat = refl

-- `s == t` of single characters
abbrev pub same_char : Char → Char → Bool
same_char c d = beq (code c) (code d)

-- `s.startswith(t)`
unfoldable pub starts_with : String → String → Bool
starts_with s String.[] = true
starts_with String.[] (String.◌∷◌ d t) = false
starts_with (String.◌∷◌ c s) (String.◌∷◌ d t) = same_char c d && starts_with s t

-- `s.lstrip()`
unfoldable pub lstrip : String → String
unfolding is_space
lstrip String.[] = ""
lstrip (String.◌∷◌ c s) = let rest = lstrip s in if is_space c then rest else String.◌∷◌ c s

-- `s.rstrip()`
unfoldable pub rstrip : String → String
unfolding is_space
rstrip String.[] = ""
rstrip (String.◌∷◌ c s) =
    let rest = rstrip s in if rest == "" && is_space c then "" else String.◌∷◌ c rest

-- `s.strip()`
unfoldable pub strip : String → String
unfolding lstrip rstrip
strip s = rstrip (lstrip s)

-- The character of `to` at the place of `c` in `from`, or `c` itself.
unfoldable pub translate : String → String → Char → Char
translate (String.◌∷◌ a from) (String.◌∷◌ b to) c =
    let rest = translate from to c in if same_char a c then b else rest
translate _ _ c = c

-- `s.lower()` and `s.casefold()` on ASCII letters; other characters stay.
unfoldable pub lower : String → String
unfolding translate
lower String.[] = ""
lower (String.◌∷◌ c s) =
    String.◌∷◌ (translate "ABCDEFGHIJKLMNOPQRSTUVWXYZ" "abcdefghijklmnopqrstuvwxyz" c) (lower s)

test_lower : lower "GPT-5.6-Sol" ≡ "gpt-5.6-sol"
unfolding lower
test_lower = refl

test_strip : strip "  a b " ≡ "a b"
unfolding strip
test_strip = refl

-- `sep.join(parts)`
unfoldable pub join : String → List String → String
unfolding ◌<>◌
join sep [] = ""
join sep (s ∷ []) = s
join sep (s ∷ rest) = s <> sep <> join sep rest

-- `s <= t` of texts, by code points
abbrev pub text_le : String → String → Bool
text_le s t = elim (compare s t) [ Ordering.gt ↦ false | _ ↦ true ]

unfoldable pub is_alnum : Char → Bool
is_alnum c =
    let n = code c in
    (leb b'0' n && leb n b'9') || (leb b'A' n && leb n b'Z') || (leb b'a' n && leb n b'z')

abbrev keep_word : String → List String → List String
keep_word t rest = if t == "" then rest else t ∷ rest

-- The word that the text begins with, and the words after it.
words_from : String → String × List String
words_from String.[] = ("", [])
words_from (String.◌∷◌ c s) =
    let (word, rest) = words_from s in
    if is_alnum c then (String.◌∷◌ c word, rest) else ("", keep_word word rest)

-- `[t for t in re.split(r"[^A-Za-z0-9]+", s) if t]`
unfoldable pub words : String → List String
unfolding words_from is_alnum
words s = let (word, rest) = words_from s in keep_word word rest

test_words : words "  claude--Personal acc" ≡ "claude" ∷ "Personal" ∷ "acc" ∷ []
unfolding words
test_words = refl

-- The line boundaries of `str.splitlines`; `"\r\n"` is one.
unfoldable pub is_break : Char → Bool
is_break c =
    let n = code c in
    (leb 10 n && leb n 13) || (leb 28 n && leb n 30) || beq n 0x85 || beq n 0x2028 || beq n 0x2029

abbrev on_head : Char → List String → List String
on_head c [] = String.◌∷◌ c "" ∷ []
on_head c (line ∷ lines) = String.◌∷◌ c line ∷ lines

-- The lines of what is left of a text, where `cr` says that a carriage return has just ended a
-- line. A break ends an empty line, and other characters stand before the line that follows them.
unfoldable pub lines_after : Bool → String → List String
unfolding is_break
lines_after cr String.[] = []
lines_after cr (String.◌∷◌ c s) =
    let skipped = lines_after false s in
    let ended = "" ∷ lines_after (beq (code c) 13) s in
    let inside = on_head c (lines_after false s) in
    if is_break c then (if cr && beq (code c) 10 then skipped else ended) else inside

-- `s.splitlines()`
unfoldable pub splitlines : String → List String
unfolding lines_after
splitlines = lines_after false

-- `s.partition(":")`: the parts around the first colon, `none` where there is none.
abbrev before : Char → Option (String × String) → Option (String × String)
before c none = none
before c (some (a, b)) = some (String.◌∷◌ c a, b)

unfoldable pub partition_colon : String → Option (String × String)
partition_colon String.[] = none
partition_colon (String.◌∷◌ c s) =
    let rest = before c (partition_colon s) in if same_char c ":" then some ("", s) else rest

-- `s.endswith(t)` for one character
unfoldable pub ends_with_char : Char → String → Bool
ends_with_char d String.[] = false
ends_with_char d (String.◌∷◌ c String.[]) = same_char c d
ends_with_char d (String.◌∷◌ c s) = ends_with_char d s

test_splitlines : splitlines "a\n\nb\r\nc\n" ≡ "a" ∷ "" ∷ "b" ∷ "c" ∷ []
unfolding splitlines
test_splitlines = refl

test_partition : partition_colon "k: a:b" ≡ some ("k", " a:b")
unfolding partition_colon
test_partition = refl
