-- ===== src/Frontmatter/Examples.antt =====
-- The lanes of a project with a PRD that says nothing of the next action.
use horus_harness.Prelude.{none, some, ◌==◌, if◌then◌else◌, [], ◌∷◌, ◌≡◌, refl}
use horus_harness.Prelude.Dict
use horus_harness.Frontmatter.Focus.{Files, resolve_field}

abbrev files : Files
files name =
    if name == "PRD.md"
    then some "---\nstatus: live\nnext_action:  \n---\n"
    else if name == "roadmap.md"
    then some "---\nnext_action: 'ship it'\n---\n"
    else none

test_next_action : resolve_field files "next_action" ("PRD.md" ∷ "roadmap.md" ∷ []) ≡ "ship it"
unfolding resolve_field Dict.get Dict.insert
test_next_action = refl
