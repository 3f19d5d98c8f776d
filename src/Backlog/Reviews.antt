-- ===== src/Backlog/Reviews.antt =====
-- The `## Reviews` section of a card, in horus/backlog.py. `today` and the author are read by the
-- caller.
pub mod Inserted
use horus_harness.Prelude.{
  ℕ, suc, String, Bool, true, false, Option, none, some, List, [], ◌∷◌, ◌++◌,
}
use horus_harness.Prelude.{◌≡◌, refl, ◌==◌, if◌then◌else◌, not}
use horus_harness.Prelude.Dict
use horus_harness.Prelude.Text.{◌<>◌, strip, lower, starts_with, splitlines, join}
use horus_harness.Backlog.{Card, Folder, find_card}
use horus_harness.Backlog.Claim.{text_at, write_card}

abbrev pub reviews_heading : String
reviews_heading = "## Reviews"

unfoldable pub is_heading : String → Bool
unfolding strip lower
is_heading line = lower (strip line) == lower reviews_heading

-- A file's lines: those before the section, its heading and body, and those after it.
pub record Sections : Type 0 where
  pub before : List String
  pub heading : String
  pub body : List String
  pub after : List String

abbrev on_body : String → List String × List String → List String × List String
on_body line (body, after) = (line ∷ body, after)

-- The lines up to the next `## ` heading.
unfoldable pub until_heading : List String → List String × List String
unfolding starts_with
until_heading [] = ([], [])
until_heading (line ∷ lines) =
    let rest = on_body line (until_heading lines) in
    if starts_with line "## " then ([], line ∷ lines) else rest

abbrev on_before : String → Option Sections → Option Sections
on_before line none = none
on_before line (some s) =
    some (record { before = line ∷ s.before; heading = s.heading; body = s.body; after = s.after })

abbrev found_at : String → List String × List String → Sections
found_at line (body, after) = record { before = []; heading = line; body = body; after = after }

-- `_reviews_span`, as the parts that it cuts the lines into.
unfoldable pub reviews_span : List String → Option Sections
unfolding is_heading until_heading
reviews_span [] = none
reviews_span (line ∷ lines) =
    let rest = on_before line (reviews_span lines) in
    if is_heading line then some (found_at line (until_heading lines)) else rest

abbrev outside : List String → Option Sections → List String
outside lines none = lines
outside lines (some s) = s.before ++ s.after

-- `_lines_outside_reviews`
unfoldable pub lines_outside_reviews : String → List String
unfolding reviews_span splitlines
lines_outside_reviews body = outside (splitlines body) (reviews_span (splitlines body))

-- Without the blank lines at the end.
abbrev trim_line : String → List String → List String
trim_line line [] = if strip line == "" then [] else line ∷ []
trim_line line (next ∷ rest) = line ∷ next ∷ rest

unfoldable pub trim_end : List String → List String
unfolding strip
trim_end [] = []
trim_end (line ∷ lines) = trim_line line (trim_end lines)

-- The blank lines at the end.
abbrev blank_line : String → List String → List String → List String
blank_line line [] blanks = if strip line == "" then line ∷ blanks else blanks
blank_line line (next ∷ rest) blanks = blanks

unfoldable pub blank_end : List String → List String
unfolding strip trim_end
blank_end [] = []
blank_end (line ∷ lines) = blank_line line (trim_end lines) (blank_end lines)

abbrev insert_entry : List String → List String → Option Sections → List String
insert_entry entry lines none = trim_end lines ++ "" ∷ reviews_heading ∷ "" ∷ entry
insert_entry entry lines (some s) =
    s.before ++ s.heading ∷ trim_end s.body ++ "" ∷ entry ++ blank_end s.body ++ s.after

-- The lines of the file with the entry at the end of the section.
unfoldable pub add_entry : List String → List String → List String
unfolding reviews_span trim_end blank_end
add_entry entry lines = insert_entry entry lines (reviews_span lines)

-- `review_entry`
unfoldable pub review_entry : String → String → String → String → String → String
unfolding join strip ◌<>◌
review_entry today author source verdict note = join "\n" (
    ("### " <> today <> " — " <> author <> " (" <> source <> ")")
      ∷ (if verdict == "" then [] else ("Verdict: " <> verdict) ∷ [])
    ++ (if strip note == "" then [] else "" ∷ strip note ∷ []))

abbrev reviewed : Folder → String → Option Card → Folder
reviewed folder entry none = folder
reviewed folder entry (some target) =
    write_card folder target.name
      (join "\n" (add_entry (splitlines entry) (splitlines (text_at folder target.name))) <> "\n")

-- `add_review`: the folder after it, and the card read again.
unfoldable pub add_review : Folder → String → String → Folder × Option Card
unfolding find_card add_entry join splitlines ◌<>◌
add_review folder name entry =
    let target = find_card folder name in
    let after = reviewed folder entry target in
    (after, elim target [ none ↦ none | some c ↦ find_card after name ])

test_reviewed :
    add_entry ("### new" ∷ []) ("a" ∷ "## REVIEWS" ∷ "" ∷ "### old" ∷ "" ∷ "## Next" ∷ [])
    ≡ "a" ∷ "## REVIEWS" ∷ "" ∷ "### old" ∷ "" ∷ "### new" ∷ "" ∷ "## Next" ∷ []
unfolding add_entry
test_reviewed = refl

test_created :
    add_entry ("### new" ∷ []) ("a" ∷ " " ∷ []) ≡ "a" ∷ "" ∷ "## Reviews" ∷ "" ∷ "### new" ∷ []
unfolding add_entry
test_created = refl
