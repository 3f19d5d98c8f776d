-- ===== src/Backlog/Reviews/Inserted.antt =====
-- A review changes a card by insertion.
use horus_harness.Prelude.{String, true, false, Option, none, some, List, [], ◌∷◌, ◌++◌}
use horus_harness.Prelude.{◌≡◌, refl, sym, ap, ◌∙◌, ◌==◌, Bool-cases, All, inl, inr, ◌⊎◌}
use horus_harness.Prelude.Text.{strip, starts_with}
use horus_harness.Backlog.Reviews.{
  Sections, is_heading, until_heading, reviews_span, on_before, trim_end, trim_line, blank_end,
  blank_line, insert_entry, add_entry, reviews_heading,
}

append_assoc : (xs ys zs : List String) → xs ++ ys ++ zs ≡ xs ++ (ys ++ zs)
append_assoc [] ys zs = refl
append_assoc (x ∷ xs) ys zs = ap (◌∷◌ x) (append_assoc xs ys zs)

trim_end-blank_end : (lines : List String) → trim_end lines ++ blank_end lines ≡ lines
unfolding trim_end blank_end
trim_end-blank_end [] = refl
trim_end-blank_end (line ∷ lines) =
    go (trim_end lines) (blank_end lines) (trim_end-blank_end lines) (Bool-cases (strip line == ""))
  where
    go :
        (kept blanks : List String)
        → kept ++ blanks ≡ lines
        → ((strip line == "") ≡ true) ⊎ ((strip line == "") ≡ false)
        → trim_line line kept ++ blank_line line kept blanks ≡ line ∷ lines
    go [] blanks h (inl e) = rw e (ap (◌∷◌ line) h)
    go [] blanks h (inr e) = rw e (ap (◌∷◌ line) h)
    go (next ∷ rest) blanks h b = ap (◌∷◌ line) h

-- The lines that are dropped are blank.
blank_end-IsBlank : (lines : List String) → All (λ l. (strip l == "") ≡ true) (blank_end lines)
unfolding blank_end trim_end
blank_end-IsBlank [] = tt
blank_end-IsBlank (line ∷ lines) = go (trim_end lines) (blank_end-IsBlank lines)
  where
    go :
        (kept : List String)
        → All (λ l. (strip l == "") ≡ true) (blank_end lines)
        → All (λ l. (strip l == "") ≡ true) (blank_line line kept (blank_end lines))
    go [] h = elim (Bool-cases (strip line == "")) [ inl e ↦ rw e (e, h) | inr e ↦ rw e h ]
    go (next ∷ rest) h = h

until_heading-parts :
    (lines : List String) → (until_heading lines).0 ++ (until_heading lines).1 ≡ lines
unfolding until_heading
until_heading-parts [] = refl
until_heading-parts (line ∷ lines) = elim (Bool-cases (starts_with line "## ")) [
  | inl e ↦ rw e refl
  | inr e ↦ rw e (ap (◌∷◌ line) (until_heading-parts lines))
]

-- The parts are the lines.
abbrev IsCut : List String → Option Sections → Type 0
IsCut lines none = Unit
IsCut lines (some s) = lines ≡ s.before ++ s.heading ∷ s.body ++ s.after

reviews_span-IsCut : (lines : List String) → IsCut lines (reviews_span lines)
unfolding reviews_span
reviews_span-IsCut [] = tt
reviews_span-IsCut (line ∷ lines) = elim (Bool-cases (is_heading line)) [
  | inl e ↦ rw e (ap (◌∷◌ line) (sym (until_heading-parts lines)))
  | inr e ↦ rw e (push (reviews_span lines) (reviews_span-IsCut lines))
]
  where
    push : (o : Option Sections) → IsCut lines o → IsCut (line ∷ lines) (on_before line o)
    push none h = tt
    push (some s) h = ap (◌∷◌ line) h

-- The entry stands between two parts of the old lines, after a blank line.
abbrev pub IsInserted : List String → List String → List String → Type 0
IsInserted entry old new =
    (pre : List String) × (post : List String) × (old ≡ pre ++ post)
    × (new ≡ pre ++ "" ∷ entry ++ post)

-- The entry stands at the end in a section of its own, where only blank lines have gone.
abbrev pub IsCreated : List String → List String → List String → Type 0
IsCreated entry old new =
    (kept : List String) × (blanks : List String) × (old ≡ kept ++ blanks)
    × All (λ l. (strip l == "") ≡ true) blanks
    × (new ≡ kept ++ "" ∷ reviews_heading ∷ "" ∷ entry)

-- A review entry changes a card only by insertion: after a blank line between two parts of the old
-- lines, or, where there is no section, in a new one at the end, in place of blank lines only.
pub add_entry-IsInserted :
    (entry lines : List String)
    → IsInserted entry lines (add_entry entry lines) ⊎ IsCreated entry lines (add_entry entry lines)
unfolding add_entry
add_entry-IsInserted entry lines = go (reviews_span lines) (reviews_span-IsCut lines)
  where
    go :
        (o : Option Sections)
        → IsCut lines o
        → IsInserted entry lines (insert_entry entry lines o)
          ⊎ IsCreated entry lines (insert_entry entry lines o)
    go none h = inr (
      trim_end lines,
      blank_end lines,
      sym (trim_end-blank_end lines),
      blank_end-IsBlank lines,
      refl,
    )
    go (some s) h = inl (
      s.before ++ s.heading ∷ trim_end s.body,
      blank_end s.body ++ s.after,
      h
          ∙ ap (λ x. x ++ s.after)
              (ap (λ b. s.before ++ s.heading ∷ b) (sym (trim_end-blank_end s.body))
                ∙ sym (append_assoc s.before (s.heading ∷ trim_end s.body) (blank_end s.body)))
          ∙ append_assoc (s.before ++ s.heading ∷ trim_end s.body) (blank_end s.body) s.after,
      append_assoc (s.before ++ s.heading ∷ trim_end s.body ++ "" ∷ entry) (blank_end s.body)
          s.after,
    )
