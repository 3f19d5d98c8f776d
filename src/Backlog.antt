-- ===== src/Backlog.antt =====
-- horus/backlog.py: one Markdown file per card. A `Folder` is `.horus/backlog/`: the texts of the
-- cards by file stem, and those of `archive/`.
pub mod Order
pub mod Readiness
pub mod Edit
pub mod Claim
pub mod Examples
pub mod Hygiene
pub mod Reviews
pub mod Ship
use horus_harness.Prelude.{
  ℕ, suc, ◌+◌, ◌-◌, ◌*◌, String, Bool, true, false, Option, none, some, List, [], ◌∷◌, map,
}
use horus_harness.Prelude.{
  ◌==◌, if◌then◌else◌, ◌&&◌, ◌||◌, filter, not, member, or_text, sorted, find?, leb,
}
use horus_harness.Prelude.Dict
use horus_harness.Prelude.Dict.{Dict}
use horus_harness.Prelude.Text.{◌<>◌, strip, lower, starts_with, splitlines, same_char, text_le}
use horus_harness.Frontmatter.{Document, parse}
use horus_harness.Prelude.Integers.{ℤ}
use horus_harness.Backlog.Order.{parse_order, strip_marks, split_on}

abbrev pub inactive_statuses : List String
inactive_statuses = "done" ∷ "folded-in" ∷ "retired" ∷ "shipped" ∷ "shelved" ∷ []

abbrev pub delivered_statuses : List String
delivered_statuses = "shipped" ∷ []

-- Without `path`, which is the name and where the card is stored.
pub record Card : Type 0 where
  pub name : String
  pub status : String
  pub priority : String
  pub tier : String
  pub created : String
  pub parallel : String
  pub surface : List String
  pub type : String
  pub topic : String
  pub readiness : String
  pub readiness_reason : String
  pub autonomy : String
  pub last_refined : String
  pub shipped_pr : String
  pub shipped_sha : String
  pub shipped : String
  pub title : String
  pub order : Option ℤ
  pub fields : Dict String

pub record Folder : Type 0 where
  pub root : Dict String
  pub archive : Dict String

abbrev pub value_or : Option String → String → String
value_or none d = d
value_or (some s) d = s

-- `Card.field_value`
unfoldable pub field_value : Card → String → String
field_value c key = value_or (Dict.get key c.fields) ""

-- `raw[1:-1]` of a text in brackets.
drop_last : String → String
drop_last String.[] = ""
drop_last (String.◌∷◌ c String.[]) = ""
drop_last (String.◌∷◌ c s) = String.◌∷◌ c (drop_last s)

last_is : String → String → Bool
last_is d String.[] = false
last_is d (String.◌∷◌ c String.[]) = String.◌∷◌ c "" == d
last_is d (String.◌∷◌ c s) = last_is d s

unbracket : String → String
unfolding drop_last last_is
unbracket String.[] = ""
unbracket (String.◌∷◌ c s) =
    if same_char c "[" && last_is "]" (String.◌∷◌ c s) then drop_last s else String.◌∷◌ c s

-- `_parse_surface`
unfoldable pub parse_surface : String → List String
unfolding strip unbracket split_on strip_marks
parse_surface raw =
    let stripped = strip raw in
    if stripped == ""
    then []
    else filter (λ t. not (t == ""))
        (map (λ t. strip (strip_marks (strip t))) (split_on "," (unbracket stripped)))

-- The text of the first heading, `_title`.
drop_two : String → String
drop_two (String.◌∷◌ a (String.◌∷◌ b s)) = s
drop_two _ = ""

title_of : String → List String → String
unfolding drop_two strip starts_with
title_of fallback [] = fallback
title_of fallback (line ∷ lines) =
    let rest = title_of fallback lines in
    if starts_with (strip line) "# " then strip (drop_two (strip line)) else rest

-- `fm.get(key, "")`, stripped, and lowered.
abbrev at : Dict String → String → String
at fm key = strip (value_or (Dict.get key fm) "")

abbrev at_lower : Dict String → String → String
at_lower fm key = lower (at fm key)

abbrev at_unmarked : Dict String → String → String
at_unmarked fm key = strip (strip_marks (at fm key))

-- `_card_from_path` of a file's stem and text.
unfoldable pub card_of : String → String → Card
unfolding parse strip lower parse_surface strip_marks title_of splitlines parse_order
card_of name text =
    let doc = parse text in
    let fm = doc.front_matter in
    record {
      name = name;
      status = or_text (lower (strip (value_or (Dict.get "status" fm) "open"))) "open";
      priority = at fm "priority";
      tier = at fm "tier";
      created = at fm "created";
      parallel = at_lower fm "parallel";
      surface = parse_surface (value_or (Dict.get "surface" fm) "");
      type = or_text (at_lower fm "type") "task";
      topic = at_unmarked fm "topic";
      readiness = at_lower fm "readiness";
      readiness_reason = at_unmarked fm "readiness_reason";
      autonomy = at_lower fm "autonomy";
      last_refined = at fm "last_refined";
      shipped_pr = at fm "shipped_pr";
      shipped_sha = at fm "shipped_sha";
      shipped = at fm "shipped";
      title = title_of name (splitlines doc.body);
      order = parse_order (value_or (Dict.get "order" fm) "");
      fields = map (λ (key, value). (key, strip value)) fm;
    }

-- Sorted by file name.
abbrev by_file : String × String → String × String → Bool
by_file (a, _) (b, _) = text_le (a <> ".md") (b <> ".md")

unfoldable pub load_cards : Folder → List Card
unfolding card_of sorted ◌<>◌
load_cards folder = map (λ (name, text). card_of name text) (sorted by_file folder.root)

unfoldable pub load_active_cards : Folder → List Card
unfolding load_cards
load_active_cards folder = filter (λ c. not (member c.status inactive_statuses)) (load_cards folder)

unfoldable pub load_shelved_cards : Folder → List Card
unfolding load_cards
load_shelved_cards folder = filter (λ c. c.status == "shelved") (load_cards folder)

unfoldable pub partition_archived : List Card → List Card × List Card
partition_archived cards = (
  filter (λ c. member c.status delivered_statuses) cards,
  filter (λ c. not (member c.status delivered_statuses)) cards,
)

-- Newest first, by `created`; those without it last.
abbrev newer : Card → Card → Bool
newer a b =
    if a.created == "" then b.created == "" else b.created == "" || text_le b.created a.created

unfoldable pub load_archived_cards : Folder → List Card
unfolding card_of sorted ◌<>◌
load_archived_cards folder =
    sorted newer (map (λ (name, text). card_of name text) (sorted by_file folder.archive))

-- `name[:-3]` where it ends in `.md`.
without_md : String → String
without_md String.[] = ""
without_md (String.◌∷◌ c s) =
    let rest = String.◌∷◌ c (without_md s) in if String.◌∷◌ c s == ".md" then "" else rest

unfoldable pub find_card : Folder → String → Option Card
unfolding load_cards without_md
find_card folder name = find? (λ c. c.name == without_md name) (load_cards folder)
