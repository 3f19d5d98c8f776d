-- ===== src/Backlog/Ship.antt =====
-- `ship` of horus/backlog.py, under the claim lock: a card is stamped and moved to the archive.
pub mod Archived
use horus_harness.Prelude.{String, Bool, true, false, Option, none, some, List, [], ◌∷◌}
use horus_harness.Prelude.{Result, ok, err, if◌then◌else◌, is_some}
use horus_harness.Prelude.Dict
use horus_harness.Backlog.{Card, Folder, find_card, card_of}
use horus_harness.Backlog.Edit.{EditError, set_front_matter}
use horus_harness.Backlog.Claim.{text_at}

pub data ShipError : Type 0 where
  already_archived : String → ShipError
  not_edited : EditError → ShipError

-- The card that `ship` returns, if any, and the folder after it.
pub record Shipped : Type 0 where
  pub card : Option Card
  pub folder : Folder

-- `path.rename` into the archive.
abbrev pub move_card : Folder → String → String → Folder
move_card folder name text = record {
  root = Dict.erase name folder.root;
  archive = Dict.insert name text folder.archive;
}

unfoldable pub stamp_shipped : String → String → String → Result EditError String
unfolding set_front_matter
stamp_shipped pr sha text =
    set_front_matter (("status", "shipped") ∷ ("shipped_pr", pr) ∷ ("shipped_sha", sha) ∷ []) text

abbrev pub moved : Folder → String → Result EditError String → Result ShipError Shipped
moved folder name (err e) = err (not_edited e)
moved folder name (ok text) =
    ok (record { card = some (card_of name text); folder = move_card folder name text })

abbrev pub ship_target : Folder → String → String → Option Card → Result ShipError Shipped
ship_target folder pr sha none = ok (record { card = none; folder = folder })
ship_target folder pr sha (some target) =
    if is_some (Dict.get target.name folder.archive)
    then err (already_archived target.name)
    else moved folder target.name (stamp_shipped pr sha (text_at folder target.name))

unfoldable pub ship : Folder → String → String → String → Result ShipError Shipped
unfolding find_card stamp_shipped card_of
ship folder name pr sha = ship_target folder pr sha (find_card folder name)
