-- ===== src/Backlog/Edit/Values.antt =====
-- The value that lines give to a key, as the parser reads them, and what an edit does to it.
use horus_harness.Prelude.{String, Bool, true, false, Option, none, some, List, [], ◌∷◌, ◌++◌}
use horus_harness.Prelude.{
  ◌≡◌, refl, ap, ◌∙◌, ◌⊎◌, inl, inr, ◌==◌, if◌then◌else◌, All, arith, eq_iff, eq_refl,
}
use horus_harness.Prelude.{Bool-cases, Option-cases}
use mathlib.Core.Path.{subst}
use horus_harness.Prelude.Dict
use horus_harness.Prelude.Dict.{Dict, get-insert}
use horus_harness.Prelude.Text.{strip, partition_colon}
use horus_harness.Frontmatter.{is_fence, is_skipped, read_line, add_pair, strip_quotes}
use horus_harness.Backlog.Edit.{
  field_line, line_key, key_of, update_of, rewrite, rewrite_line, then_line, new_lines, found,
}

-- A line writes the key.
abbrev pub is_key : String → Option String → Bool
is_key k none = false
is_key k (some i) = i == k

unfoldable pub writes : String → String → Bool
writes k line = is_key k (line_key line)

abbrev pub value_at : String → Option (String × String) → Option String
value_at j none = none
value_at j (some (key, value)) = if strip key == j then some (strip_quotes value) else none

-- The value that one line gives to a key.
unfoldable pub value_of : String → String → Option String
value_of j line = if is_skipped line then none else value_at j (partition_colon line)

abbrev pub or_else : Option String → Option String → Option String
or_else none b = b
or_else (some a) b = some a

-- The last value that the lines give to a key.
unfoldable pub last_value : String → List String → Option String
last_value j [] = none
last_value j (line ∷ lines) = or_else (last_value j lines) (value_of j line)

unfoldable pub read_all : Dict String → List String → Dict String
read_all front [] = front
read_all front (line ∷ lines) = read_all (read_line line front) lines

get-add_pair :
    (j : String) (pair : Option (String × String)) (front : Dict String)
    → Dict.get j (add_pair pair front) ≡ or_else (value_at j pair) (Dict.get j front)
get-add_pair j none front = refl
get-add_pair j (some (key, value)) front =
    get-insert (strip key) j (strip_quotes value) front ∙ split (strip key == j)
  where
    split :
        (b : Bool)
        → (if b then some (strip_quotes value) else Dict.get j front)
          ≡ or_else (if b then some (strip_quotes value) else none) (Dict.get j front)
    split true = refl
    split false = refl

get-read_line :
    (j line : String) (front : Dict String)
    → Dict.get j (read_line line front) ≡ or_else (value_of j line) (Dict.get j front)
unfolding read_line value_of
get-read_line j line front = elim (Bool-cases (is_skipped line)) [
  | inl e ↦ rw e refl
  | inr e ↦ rw e (get-add_pair j (partition_colon line) front)
]

or_else_assoc : (a b c : Option String) → or_else a (or_else b c) ≡ or_else (or_else a b) c
or_else_assoc none b c = refl
or_else_assoc (some a) b c = refl

pub get-read_all :
    (j : String) (lines : List String) (front : Dict String)
    → Dict.get j (read_all front lines) ≡ or_else (last_value j lines) (Dict.get j front)
unfolding read_all last_value
get-read_all j [] front = refl
get-read_all j (line ∷ lines) front =
    get-read_all j lines (read_line line front)
    ∙ ap (or_else (last_value j lines)) (get-read_line j line front)
    ∙ or_else_assoc (last_value j lines) (value_of j line) (Dict.get j front)

-- The only line that can write the key is one.
abbrev pub IsOnce : String → List String → Type 0
IsOnce k [] = Unit
IsOnce k (line ∷ lines) =
    ((writes k line ≡ true) × All (λ l. writes k l ≡ false) lines)
    ⊎ ((writes k line ≡ false) × IsOnce k lines)

-- The line that is written reads as the value `w`, whatever stands before it.
abbrev pub IsField : String → String → String → Type 0
IsField k v w =
    (is_fence (field_line k v) ≡ false)
    × ((j : String) → value_of j (field_line k v) ≡ (if k == j then some w else none))

value_of-other : (j line : String) → writes j line ≡ false → value_of j line ≡ none
unfolding value_of writes line_key
value_of-other j line h = elim (Bool-cases (is_skipped line)) [
  | inl e ↦ rw e refl
  | inr e ↦ rw e (at (partition_colon line) h)
]
  where
    at : (p : Option (String × String)) → is_key j (key_of p) ≡ false → value_at j p ≡ none
    at none h2 = refl
    at (some (key, value)) h2 = rw h2 refl

writes_unique :
    (k j line : String) → writes k line ≡ true → (k == j) ≡ false → writes j line ≡ false
unfolding writes
writes_unique k j line h ne = elim (Option-cases (line_key line)) [
  | inl e ↦ rw e refl
  | inr (i, e) ↦ rw e (same i (rw e at h))
]
  where
    same : (i : String) → (i == k) ≡ true → (i == j) ≡ false
    same i e = ground (arith, eq_iff i k, eq_iff i j, eq_iff k j)

last_value-none :
    (k : String) (lines : List String)
    → All (λ l. writes k l ≡ false) lines
    → last_value k lines ≡ none
unfolding last_value
last_value-none k [] h = refl
last_value-none k (line ∷ lines) (h, hs) =
    rw (last_value-none k lines hs, value_of-other k line h) refl

rewrite-none : (lines : List String) → rewrite [] lines ≡ (lines, [])
unfolding rewrite update_of Dict.get Dict.erase
rewrite-none [] = refl
rewrite-none (line ∷ lines) = go (line_key line) (rewrite-none lines)
  where
    go :
        (o : Option String)
        → rewrite [] lines ≡ (lines, [])
        → rewrite_line line (found o []) (rewrite [] lines) (rewrite [] lines) ≡ (line ∷ lines, [])
    go none ih = ap (then_line line) ih
    go (some key) ih = ap (then_line line) ih

pub rewrite-writes :
    (k v line : String) (lines : List String)
    → writes k line ≡ true
    → rewrite ((k, v) ∷ []) (line ∷ lines) ≡ (field_line k v ∷ lines, [])
unfolding rewrite update_of writes Dict.get Dict.erase
rewrite-writes k v line lines h = elim (Option-cases (line_key line)) [
  | inl e ↦ absurd (cc (rw e at h))
  | inr (i, e) ↦
      let same = (eq_iff i k).0 (rw e at h) in
      rw (e, same, eq_refl k, rewrite-none lines, e, same) refl
]

pub rewrite-keeps :
    (k v line : String) (lines : List String)
    → writes k line ≡ false
    → rewrite ((k, v) ∷ []) (line ∷ lines) ≡ then_line line (rewrite ((k, v) ∷ []) lines)
unfolding rewrite update_of writes Dict.get
rewrite-keeps k v line lines h = elim (Option-cases (line_key line)) [
  | inl e ↦ rw e refl
  | inr (i, e) ↦ rw (e, other i (rw e at h)) refl
]
  where
    other : (i : String) → (i == k) ≡ false → (k == i) ≡ false
    other i e = ground (arith, eq_iff i k, eq_iff k i)

-- The header that is written, of what `rewrite` gives.
abbrev pub header : List String × Dict String → List String
header (lines, left) = lines ++ new_lines left

pub or_else-none : (a : Option String) → or_else a none ≡ a
or_else-none none = refl
or_else-none (some a) = refl

last_value-written :
    (k v w j line : String) (lines : List String)
    → IsField k v w
    → writes k line ≡ true
    → All (λ l. writes k l ≡ false) lines
    → last_value j (field_line k v ∷ lines)
      ≡ (if k == j then some w else last_value j (line ∷ lines))
unfolding last_value
last_value-written k v w j line lines (_, value) h hs = elim (Bool-cases (k == j)) [
  | inl e ↦
      rw
        (
          value j,
          e,
          subst (λ x. last_value x lines ≡ none) ((eq_iff k j).0 e) (last_value-none k lines hs),
        )
        refl
  | inr e ↦ rw (value j, e, value_of-other j line (writes_unique k j line h e)) refl
]

pub append_nil : (xs : List String) → xs ++ [] ≡ xs
append_nil [] = refl
append_nil (x ∷ xs) = ap (◌∷◌ x) (append_nil xs)

spread :
    (b : Bool) (w : String) (a c : Option String)
    → or_else (if b then some w else a) c ≡ (if b then some w else or_else a c)
spread true w a c = refl
spread false w a c = refl

pub last_value-rewrite :
    (k v w j : String) (lines : List String)
    → IsField k v w
    → IsOnce k lines
    → last_value j (header (rewrite ((k, v) ∷ []) lines))
      ≡ (if k == j then some w else last_value j lines)
unfolding last_value rewrite
last_value-rewrite k v w j [] (_, value) h = value j
last_value-rewrite k v w j (line ∷ lines) field (inl (h, hs)) =
    rw (rewrite-writes k v line lines h)
      (rw (append_nil lines) (last_value-written k v w j line lines field h hs))
last_value-rewrite k v w j (line ∷ lines) field (inr (h, hs)) =
    rw (rewrite-keeps k v line lines h) (
      ap (λ o. or_else o (value_of j line)) (last_value-rewrite k v w j lines field hs)
      ∙ spread (k == j) w (last_value j lines) (value_of j line))
