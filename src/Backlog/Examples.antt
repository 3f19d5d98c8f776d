-- ===== src/Backlog/Examples.antt =====
-- A backlog of a few cards, and what is done to them.
use horus_harness.Prelude.{String, Bool, true, false, some, List, [], ◌∷◌, ok}
use horus_harness.Prelude.{◌≡◌, refl, ◌≢◌, inl, inr, ◌==◌, In, member, ne_of_test}
use horus_harness.Prelude.Dict
use horus_harness.Frontmatter.{parse_lines, is_fence, is_skipped, strip_quotes, read_line}
use horus_harness.Prelude.Text.{partition_colon}
use horus_harness.Backlog.{inactive_statuses, Card, Folder, card_of, load_cards, find_card}
use horus_harness.Backlog.Edit.{set_lines, rewrite, field_line, line_key, split_fence}
use horus_harness.Backlog.Edit.Values.{IsField, IsOnce, writes, value_of, read_all, last_value}
use horus_harness.Backlog.Edit.Updated.{set_lines-IsEdited, IsEdited, header_lines}
use horus_harness.Backlog.Edit.Repeated.{rewrite_repeated}
use horus_harness.Backlog.Claim.{claim, Claimed, text_at}
use horus_harness.Backlog.Claim.Guard.{claim-IsApart, IsApart}
use horus_harness.Backlog.Ship.{ship, Shipped, stamp_shipped}
use horus_harness.Backlog.Ship.Archived.{ship-IsArchived, IsArchived}
use horus_harness.Backlog.Hygiene.{dependencies, by_name}

abbrev fix_text : String
fix_text =
    "---\nstatus: open\nreadiness: ready\nautonomy: eligible\nsurface: [src/a]\ndepends-on: old\n---\n# Fix\n"

abbrev docs_text : String
docs_text =
    "---\nstatus: claimed\nreadiness: gated\nreadiness_reason: waits\nsurface: [docs]\n---\n# Docs\n"

abbrev old_text : String
old_text = "---\nstatus: shelved\n---\n# Old\n"

abbrev folder : Folder
folder = record {
  root = ("fix", fix_text) ∷ ("docs", docs_text) ∷ ("old", old_text) ∷ [];
  archive = [];
}

-- Equal texts only.
abbrev same_text : String → String → Bool
same_text a b = a == b

abbrev fix : Card
fix = card_of "fix" fix_text

abbrev docs : Card
docs = card_of "docs" docs_text

abbrev old : Card
old = card_of "old" old_text

abbrev before : List String
before = "---" ∷ "status: open" ∷ "order: 1" ∷ "---" ∷ "text" ∷ []

abbrev after : List String
after = "---" ∷ "status: claimed" ∷ "order: 1" ∷ "---" ∷ "text" ∷ []

IsField-status : IsField "status" "claimed" "claimed"
unfolding value_of is_fence field_line is_skipped partition_colon strip_quotes
IsField-status = (refl, λ j. refl)

IsOnce-before : IsOnce "status" ("status: open" ∷ "order: 1" ∷ [])
unfolding writes line_key
IsOnce-before = inl (refl, (refl, tt))

edits : set_lines (("status", "claimed") ∷ []) before ≡ ok after
unfolding set_lines Dict.get Dict.erase
edits = refl

set_lines-IsEdited_example :
    IsEdited "status" "claimed" (parse_lines "" before) (parse_lines "" after)
unfolding header_lines split_fence
set_lines-IsEdited_example =
    set_lines-IsEdited "status" "claimed" "claimed" "" "" before after IsField-status IsOnce-before
      edits

rewrite_repeated_example :
    Dict.get "status" (read_all [] ("status: claimed" ∷ "status: open" ∷ [])) ≡ some "open"
unfolding rewrite Dict.get Dict.erase Dict.insert read_all writes last_value value_of is_skipped
    strip_quotes read_line
rewrite_repeated_example =
    rewrite_repeated "status" "claimed" ("status: a" ∷ "status: open" ∷ [])
      (inl (refl, "open", refl))

abbrev fix_claimed : String
fix_claimed =
    "---\nstatus: claimed\nreadiness: ready\nautonomy: eligible\nsurface: [src/a]\ndepends-on: old\n---\n# Fix\n"

abbrev claimed : Claimed
claimed = record {
  claimed = true;
  findings = [];
  folder = record {
    root = ("fix", fix_claimed) ∷ ("docs", docs_text) ∷ ("old", old_text) ∷ [];
    archive = [];
  };
}

claims : claim same_text folder "fix.md" false ≡ ok claimed
unfolding claim Dict.get Dict.insert Dict.erase
claims = refl

finds : find_card folder "fix.md" ≡ some fix
unfolding find_card card_of Dict.get Dict.insert
finds = refl

loads : load_cards folder ≡ docs ∷ fix ∷ old ∷ []
unfolding load_cards
loads = refl

In-docs : In docs (load_cards folder)
In-docs = rw loads (inl refl)

docs_claimed : (docs.name ≡ "docs") × (docs.status ≡ "claimed")
unfolding card_of Dict.get Dict.insert
docs_claimed = (refl, refl)

names_differ : docs.name ≢ fix.name
unfolding card_of
names_differ = ne_of_test "docs" "fix" refl

claim-IsApart_example : IsApart same_text fix docs
claim-IsApart_example =
    claim-IsApart same_text folder "fix.md" claimed fix docs claims refl finds In-docs names_differ
      docs_claimed.1

abbrev fix_shipped : String
fix_shipped =
    "---\nstatus: shipped\nreadiness: ready\nautonomy: eligible\nsurface: [src/a]\ndepends-on: old\nshipped_pr: 7\nshipped_sha: abc\n---\n# Fix\n"

abbrev shipped : Shipped
shipped = record {
  card = some (card_of "fix" fix_shipped);
  folder = record {
    root = ("docs", docs_text) ∷ ("old", old_text) ∷ [];
    archive = ("fix", fix_shipped) ∷ [];
  };
}

ships : ship folder "fix" "7" "abc" ≡ ok shipped
unfolding ship Dict.get Dict.insert Dict.erase
ships = refl

finds_fix : find_card folder "fix" ≡ some fix
unfolding find_card card_of Dict.get Dict.insert
finds_fix = refl

ship-IsArchived_example :
    (text : String) × (stamp_shipped "7" "abc" (text_at folder fix.name) ≡ ok text)
    × (shipped.card ≡ some (card_of fix.name text))
    × IsArchived folder fix text shipped.folder
ship-IsArchived_example = ship-IsArchived folder "fix" "7" "abc" fix shipped finds_fix ships

In-fix : In fix (load_cards folder)
In-fix = rw loads (inr (inl refl))

fix_active : member fix.status inactive_statuses ≡ false
unfolding card_of Dict.get Dict.insert
fix_active = refl

fix_depends : In "old" (dependencies fix)
unfolding dependencies card_of Dict.get Dict.insert
fix_depends = inl refl

old_found : Dict.get "old" (by_name (load_cards folder) []) ≡ some old
unfolding load_cards card_of Dict.get Dict.insert
old_found = refl

old_shelved : old.status ≡ "shelved"
unfolding card_of Dict.get Dict.insert
old_shelved = refl
