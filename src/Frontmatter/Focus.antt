-- ===== src/Frontmatter/Focus.antt =====
-- `resolve_focus`: each handoff field is the PRD's, or that of the first legacy lane that has it.
use horus_harness.Prelude.{String, ◌≡◌, refl, Option, none, some, List, [], ◌∷◌, map}
use horus_harness.Prelude.{◌==◌, if◌then◌else◌}
use horus_harness.Prelude.Dict
use horus_harness.Prelude.Dict.{Dict}
use horus_harness.Prelude.Text.{strip}
use horus_harness.Frontmatter.{Document, parse}

abbrev pub shim_homes : Dict (List String)
shim_homes =
    ("status", "project.md" ∷ [])
    ∷ ("current_focus", "project.md" ∷ "roadmap.md" ∷ [])
    ∷ ("next_action", "roadmap.md" ∷ [])
    ∷ ("next_prompt", "roadmap.md" ∷ [])
    ∷ ("execution_recommendation", "roadmap.md" ∷ [])
    ∷ ("last_updated", "project.md" ∷ "roadmap.md" ∷ [])
    ∷ []

-- The texts of `.horus/`, by file name; `none` where there is no such file.
abbrev pub Files : Type 0
Files = String → Option String

-- `parse_file`
unfoldable pub parse_file : Files → String → Option Document
unfolding parse
parse_file files name = elim (files name) [ none ↦ none | some text ↦ some (parse text) ]

abbrev text_or : Option String → String
text_or none = ""
text_or (some s) = s

-- `str(doc.front_matter.get(field, "")).strip()`
abbrev field_of : String → Option Document → String
field_of field none = ""
field_of field (some doc) = strip (text_or (Dict.get field doc.front_matter))

-- The lanes in order, until one gives a value.
from_homes : Files → String → List String → String
from_homes files field [] = ""
from_homes files field (home ∷ homes) =
    let value = field_of field (parse_file files home) in
    let rest = from_homes files field homes in if value == "" then rest else value

unfoldable pub resolve_field : Files → String → List String → String
unfolding from_homes parse_file
resolve_field files field homes =
    let value = field_of field (parse_file files "PRD.md") in
    if value == "" then from_homes files field homes else value

unfoldable pub resolve_focus : Files → Dict String
unfolding resolve_field
resolve_focus files = map (λ (field, homes). (field, resolve_field files field homes)) shim_homes

-- The first value that is not blank, of the lanes in this order.
abbrev pub first_value : Files → String → List String → String
first_value files field [] = ""
first_value files field (lane ∷ lanes) =
    let value = field_of field (parse_file files lane) in
    let rest = first_value files field lanes in if value == "" then rest else value

from_homes-eq :
    (files : Files) (field : String) (homes : List String)
    → from_homes files field homes ≡ first_value files field homes
unfolding from_homes
from_homes-eq files field [] = refl
from_homes-eq files field (home ∷ homes) = rw (from_homes-eq files field homes) refl

-- Every handoff field is the first value that is not blank: the PRD's, else that of the first of
-- its legacy lanes that has one, else the empty text.
pub resolve_focus_lem :
    (files : Files)
    → resolve_focus files
      ≡ map (λ (field, homes). (field, first_value files field ("PRD.md" ∷ homes))) shim_homes
unfolding resolve_focus
resolve_focus_lem files = simp from_homes-eq
