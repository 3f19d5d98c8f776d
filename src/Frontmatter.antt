-- ===== src/Frontmatter.antt =====
-- horus/frontmatter.py: the `key: value` front matter of a Markdown file, and the focus fields of a
-- project.
pub mod Focus
pub mod Examples
use horus_harness.Prelude.{◌≡◌, refl, String, Bool, true, false, Option, none, some, List, [], ◌∷◌}
use horus_harness.Prelude.{◌==◌, if◌then◌else◌, ◌&&◌, ◌||◌}
use horus_harness.Prelude.Dict
use horus_harness.Prelude.Dict.{Dict}
use horus_harness.Prelude.Text.{
  strip, lstrip, starts_with, splitlines, partition_colon, join, same_char, ends_with_char,
}

pub record Document : Type 0 where
  pub front_matter : Dict String
  pub body : String

drop_last : String → String
drop_last String.[] = ""
drop_last (String.◌∷◌ c String.[]) = ""
drop_last (String.◌∷◌ c s) = String.◌∷◌ c (drop_last s)

unquote : String → String
unfolding ends_with_char drop_last
unquote String.[] = ""
unquote (String.◌∷◌ c s) =
    if (same_char c "'" || same_char c "\"") && ends_with_char c s
    then drop_last s
    else String.◌∷◌ c s

-- `_strip_quotes`
unfoldable pub strip_quotes : String → String
unfolding strip unquote
strip_quotes value = unquote (strip value)

unfoldable pub is_fence : String → Bool
unfolding strip
is_fence line = strip line == "---"

-- Blank lines and comments.
unfoldable pub is_skipped : String → Bool
unfolding strip lstrip starts_with
is_skipped line = strip line == "" || starts_with (lstrip line) "#"

abbrev pub add_pair : Option (String × String) → Dict String → Dict String
add_pair none front = front
add_pair (some (key, value)) front = Dict.insert (strip key) (strip_quotes value) front

-- One line between the fences.
unfoldable pub read_line : String → Dict String → Dict String
unfolding is_skipped partition_colon strip_quotes
read_line line front = if is_skipped line then front else add_pair (partition_colon line) front

-- The lines after the first fence: the fields, and the lines after the second. `none` where there
-- is no second fence.
unfoldable pub read_fields : Dict String → List String → Option (Dict String × List String)
unfolding is_fence read_line
read_fields front [] = none
read_fields front (line ∷ lines) =
    let rest = read_fields (read_line line front) lines in
    if is_fence line then some (front, lines) else rest

-- `.lstrip("\n")`
unfoldable pub strip_newlines : String → String
strip_newlines String.[] = ""
strip_newlines (String.◌∷◌ c s) =
    let rest = strip_newlines s in if same_char c "\n" then rest else String.◌∷◌ c s

abbrev pub document_of : String → Option (Dict String × List String) → Document
document_of text none = record { front_matter = []; body = text }
document_of text (some (front, lines)) = record {
  front_matter = front;
  body = strip_newlines (join "\n" lines);
}

-- `parse` of a text and its lines.
unfoldable pub parse_lines : String → List String → Document
unfolding is_fence read_fields strip_newlines join
parse_lines text [] = record { front_matter = []; body = text }
parse_lines text (line ∷ lines) =
    if is_fence line
    then document_of text (read_fields [] lines)
    else record { front_matter = []; body = text }

unfoldable pub parse : String → Document
unfolding splitlines parse_lines
parse text = parse_lines text (splitlines text)

test_parse :
    parse "---\nstatus: 'open'\n# note\ntopic: a:b\n---\n\nbody\n"
    ≡ record { front_matter = ("status", "open") ∷ ("topic", "a:b") ∷ []; body = "body" }
unfolding parse Dict.insert
test_parse = refl
