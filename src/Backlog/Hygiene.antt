-- ===== src/Backlog/Hygiene.antt =====
-- `hygiene_findings` of horus/backlog.py: what is reported of a backlog's lifecycle.
pub mod Gates
use horus_harness.Prelude.{
  ℕ, String, Bool, true, false, Option, none, some, List, [], ◌∷◌, ◌++◌, map,
}
use horus_harness.Prelude.{
  ◌≡◌, refl, ◌==◌, if◌then◌else◌, ◌&&◌, ◌||◌, not, member, filter, any, is_some, or_text, leb,
}
use horus_harness.Prelude.Dict
use horus_harness.Prelude.Dict.{Dict}
use horus_harness.Prelude.Text.{strip, lstrip, lower, starts_with, same_char}
use Prim.Native.Char.{Char, code}
use horus_harness.Frontmatter.{parse}
use horus_harness.Backlog.{Card, Folder, load_cards, field_value, inactive_statuses}
use horus_harness.Backlog.Order.{split_on}
use horus_harness.Backlog.Claim.{text_at}
use horus_harness.Backlog.Reviews.{lines_outside_reviews}
use horus_harness.Backlog.Readiness.Findings.{
  Finding, Message, Level, warning, when_, fail, readiness_findings, order_findings,
}
use horus_harness.Backlog.Readiness.Findings.{
  missing_dependency, gated_on, lingering_done, shelved_bug, shipped_provenance,
}

-- The rest of a text after so many characters.
drop : List Bool → String → String
drop [] s = s
drop (x ∷ xs) String.[] = ""
drop (x ∷ xs) (String.◌∷◌ c s) = drop xs s

is_digit : Char → Bool
is_digit c = leb b'0' (code c) && leb (code c) b'9'

-- After `\d*\.`, or `none`.
after_number : String → Option String
unfolding is_digit
after_number String.[] = none
after_number (String.◌∷◌ c s) =
    let rest = after_number s in
    if is_digit c then rest else if same_char c "." then some s else none

-- After an item's mark, `[-*]|\d+\.`.
after_mark : String → Option String
unfolding after_number is_digit
after_mark String.[] = none
after_mark (String.◌∷◌ c s) =
    if same_char c "-" || same_char c "*"
    then some s
    else if is_digit c
    then after_number s
    else none

abbrev or_here : String → Option String → String
or_here s none = s
or_here s (some t) = lstrip t

-- After `[x]`, or `none`.
after_check : String → Option String
unfolding starts_with lower drop
after_check s =
    if starts_with (lower s) "[x]" then some (drop (true ∷ true ∷ true ∷ []) s) else none

abbrev has_check : Option String → Bool
has_check none = false
has_check (some s) = is_some (after_check (lstrip s))

-- `_CHECKED_ITEM_RE.match`
unfoldable pub is_checked : String → Bool
unfolding after_mark after_check lstrip
is_checked line = has_check (after_mark (lstrip line))

-- What may follow the word: nothing, a colon or a dash.
abbrev ends_done : String → Bool
ends_done s = s == "" || starts_with s ":" || starts_with s "-" || starts_with s "—"

-- `_LINGERING_DONE_RE.match`
unfoldable pub is_done_line : String → Bool
unfolding after_mark after_check lstrip lower starts_with drop
is_done_line line =
    let start = lstrip line in
    let item = or_here start (after_mark start) in
    let text = or_here item (after_check item) in
    starts_with (lower text) "done"
    && ends_done (lstrip (drop (true ∷ true ∷ true ∷ true ∷ []) text))

test_done : is_done_line " 1. [x] Done — shipped" ≡ true
unfolding is_done_line
test_done = refl

test_word : is_done_line "doneness" ≡ false
unfolding is_done_line
test_word = refl

abbrev pub dependency_satisfied : List String
dependency_satisfied = "shipped" ∷ "done" ∷ "folded-in" ∷ []

-- A blocker that no one means to deliver.
unfoldable pub is_stranded : String → Bool
is_stranded status = member status inactive_statuses && not (member status dependency_satisfied)

-- `{card.name: card for card in cards}`
abbrev pub by_name : List Card → Dict Card → Dict Card
by_name [] d = d
by_name (c ∷ cs) d = by_name cs (Dict.insert c.name c d)

abbrev gate_of : Card → String → Bool → Option Card → List Finding
gate_of c dep archived none = when_ (not archived) (missing_dependency c.name dep)
gate_of c dep archived (some target) =
    when_ (is_stranded target.status) (gated_on c.name dep target.status)

-- One name of a `depends-on`.
unfoldable pub dependency_finding : Folder → List Card → Card → String → List Finding
unfolding is_stranded
dependency_finding folder cards c dep =
    gate_of c dep (is_some (Dict.get dep folder.archive)) (Dict.get dep (by_name cards []))

abbrev pub concat : List (List Finding) → List Finding
concat [] = []
concat (xs ∷ rest) = xs ++ concat rest

abbrev split_all : Char → List String → List String
split_all d [] = []
split_all d (s ∷ rest) = split_on d s ++ split_all d rest

-- The names that a card depends on.
unfoldable pub dependencies : Card → List String
unfolding field_value split_on strip
dependencies c =
    filter (λ s. not (s == ""))
      (map strip (
        split_all "\n"
          (split_on "," (or_text (field_value c "depends-on") (field_value c "depends_on")))))

unfoldable pub gates_of : Folder → List Card → Card → List Finding
unfolding dependencies dependency_finding
gates_of folder cards c =
    if member c.status inactive_statuses
    then []
    else concat (map (dependency_finding folder cards c) (dependencies c))

unfoldable pub unreachable_gate_findings : Folder → List Card → List Finding
unfolding gates_of
unreachable_gate_findings folder cards = concat (map (gates_of folder cards) cards)

-- The findings of one card.
unfoldable pub lifecycle_findings : Folder → Card → List Finding
unfolding readiness_findings parse lines_outside_reviews is_checked is_done_line
lifecycle_findings folder c =
    let body = (parse (text_at folder c.name)).body in
    readiness_findings c
    ++ when_
        (c.status == "done"
          || any (λ line. is_checked line || is_done_line line) (lines_outside_reviews body))
        (lingering_done c.name)
    ++ (if c.type == "bug" && c.status == "shelved"
        then record { level = fail; message = shelved_bug c.name } ∷ []
        else [])
    ++ when_
        (not (c.status == "shipped")
          && not (c.shipped_pr == "" && c.shipped_sha == "" && c.shipped == ""))
        (shipped_provenance c.name c.status)

unfoldable pub hygiene_findings : Folder → List Finding
unfolding load_cards order_findings unreachable_gate_findings lifecycle_findings
hygiene_findings folder =
    let cards = load_cards folder in
    order_findings cards
    ++ unreachable_gate_findings folder cards
    ++ concat (map (lifecycle_findings folder) cards)
