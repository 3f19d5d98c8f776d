-- ===== src/Backlog/Edit.antt =====
-- `_set_front_matter` of horus/backlog.py: the front matter of a card, edited in place. `set_lines`
-- takes a file's lines; `set_front_matter` its text.
pub mod Values
pub mod Updated
pub mod Repeated
use horus_harness.Prelude.{String, Bool, true, false, Option, none, some, List, [], ◌∷◌, ◌++◌, map}
use horus_harness.Prelude.{
  ◌≡◌, refl, ◌==◌, if◌then◌else◌, not, member, Result, ok, err, ◌>>=◌, ◌>>◌, raise_if,
}
use horus_harness.Prelude.Dict
use horus_harness.Prelude.Dict.{Dict}
use horus_harness.Prelude.Text.{◌<>◌, strip, splitlines, partition_colon, join, ends_with_char}
use horus_harness.Frontmatter.{is_fence}

pub data EditError : Type 0 where
  no_fence unterminated assertion : EditError
  invalid_priority : String → EditError

-- f"{key}: {value}"
unfoldable pub field_line : String → String → String
unfolding ◌<>◌
field_line key value = key <> ": " <> value

abbrev pub key_of : Option (String × String) → Option String
key_of none = none
key_of (some (key, _)) = some (strip key)

-- The key that a line writes.
unfoldable pub line_key : String → Option String
unfolding partition_colon strip
line_key line = key_of (partition_colon line)

abbrev pub found : Option String → Dict String → Option String
found none updates = none
found (some key) updates = Dict.get key updates

-- The value that the updates have for the key of a line.
unfoldable pub update_of : String → Dict String → Option String
unfolding line_key
update_of line updates = found (line_key line) updates

abbrev pub text_or : Option String → String
text_or none = ""
text_or (some s) = s

abbrev pub then_line : String → List String × Dict String → List String × Dict String
then_line line (lines, left) = (line ∷ lines, left)

-- One line, with what the rest is where it stays and where it is written anew.
abbrev pub rewrite_line :
    String
    → Option String
    → List String × Dict String
    → List String × Dict String
    → List String × Dict String
rewrite_line line none kept written = then_line line kept
rewrite_line line (some value) kept written =
    then_line (field_line (text_or (line_key line)) value) written

-- The header's lines, where the first line of each updated key is written anew, and the updates
-- that are left.
unfoldable pub rewrite : Dict String → List String → List String × Dict String
unfolding update_of line_key field_line
rewrite updates [] = ([], updates)
rewrite updates (line ∷ lines) =
    rewrite_line line (update_of line updates) (rewrite updates lines)
      (rewrite (Dict.erase (text_or (line_key line)) updates) lines)

abbrev pub first_part :
    String → Option (List String × List String) → Option (List String × List String)
first_part line none = none
first_part line (some (head, tail)) = some (line ∷ head, tail)

-- The lines before the closing fence, and those from it on.
unfoldable pub split_fence : List String → Option (List String × List String)
unfolding is_fence
split_fence [] = none
split_fence (line ∷ lines) =
    let rest = first_part line (split_fence lines) in
    if is_fence line then some ([], line ∷ lines) else rest

abbrev pub new_lines : Dict String → List String
new_lines left = map (λ (key, value). field_line key value) left

abbrev pub put_together : String → List String × Dict String → List String → List String
put_together first (head, left) tail = first ∷ head ++ new_lines left ++ tail

abbrev pub set_fenced :
    Dict String → String → Option (List String × List String) → Result EditError (List String)
set_fenced updates first none = err unterminated
set_fenced updates first (some (head, tail)) = ok (put_together first (rewrite updates head) tail)

unfoldable pub set_lines : Dict String → List String → Result EditError (List String)
unfolding is_fence rewrite split_fence field_line
set_lines updates [] = err no_fence
set_lines updates (first ∷ lines) =
    raise_if (not (is_fence first)) no_fence >> set_fenced updates first (split_fence lines)

-- `_set_front_matter`: the new text of the file.
unfoldable pub set_front_matter : Dict String → String → Result EditError String
unfolding set_lines splitlines join ends_with_char ◌<>◌
set_front_matter updates text = set_lines updates (splitlines text) >>= λ lines.
    ok (join "\n" lines <> (if ends_with_char "\n" text then "\n" else ""))

abbrev pub priority_choices : List String
priority_choices = "high" ∷ "medium" ∷ "low" ∷ []

unfoldable pub set_priority : String → String → Result EditError String
unfolding set_front_matter
set_priority text priority =
    raise_if (not (member priority priority_choices)) (invalid_priority priority)
    >> set_front_matter (("priority", priority) ∷ []) text

unfoldable pub stamp_delivered : String → String → Result EditError String
unfolding set_front_matter
stamp_delivered text shipped_date =
    set_front_matter (("status", "done") ∷ ("shipped", shipped_date) ∷ []) text

test_set :
    set_front_matter
      (("status", "claimed") ∷ ("new", "1") ∷ [])
      "---\nstatus: open\nstatus: a\n---\nb"
    ≡ ok "---\nstatus: claimed\nstatus: a\nnew: 1\n---\nb"
unfolding set_front_matter Dict.get Dict.erase
test_set = refl
