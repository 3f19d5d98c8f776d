-- ===== src/Backlog/Claim.antt =====
-- `claim_check` and `claim` of horus/backlog.py, under the claim lock: one claim at a time. `match` is
-- `fnmatch.fnmatch` of a name and a pattern.
pub mod Guard
use horus_harness.Prelude.{
  ℕ, String, Bool, true, false, Option, none, some, List, [], ◌∷◌, ◌++◌, map,
}
use horus_harness.Prelude.{
  ◌≡◌, refl, ◌==◌, if◌then◌else◌, ◌&&◌, ◌||◌, not, filter, any, Result, ok, err,
}
use horus_harness.Prelude.Dict
use horus_harness.Prelude.Dict.{Dict}
use horus_harness.Backlog.{Card, Folder, load_cards, find_card}
use horus_harness.Backlog.Edit.{EditError, assertion, set_front_matter}
use horus_harness.Backlog.Readiness.Findings.{Finding, Message, Level, warning, warn, fail}
use horus_harness.Backlog.Readiness.Findings.{no_card, exclusive_card, no_surface, surface_overlaps}

abbrev pub in_progress_statuses : List String
in_progress_statuses = "claimed" ∷ []

abbrev pub is_empty_findings : List Finding → Bool
is_empty_findings [] = true
is_empty_findings (x ∷ xs) = false

-- A claim's answer, and the folder after it.
pub record Claimed : Type 0 where
  pub claimed : Bool
  pub findings : List Finding
  pub folder : Folder

abbrev is_fail : Finding → Bool
is_fail f = elim f.level [ warn ↦ false | fail ↦ true ]

-- `path.write_text` of a card that is there.
abbrev pub write_card : Folder → String → String → Folder
write_card folder name text = record {
  root = Dict.insert name text folder.root;
  archive = folder.archive;
}

abbrev pub text_at : Folder → String → String
text_at folder name = elim (Dict.get name folder.root) [ none ↦ "" | some text ↦ text ]

abbrev claimed_with :
    Folder → String → List Finding → Result EditError String → Result EditError Claimed
claimed_with folder name findings (err e) = err e
claimed_with folder name findings (ok text) =
    ok (record { claimed = true; findings = findings; folder = write_card folder name text })

unfoldable pub claim_target : Folder → List Finding → Option Card → Result EditError Claimed
unfolding set_front_matter
claim_target folder findings none = err assertion
claim_target folder findings (some target) =
    claimed_with folder target.name findings
      (set_front_matter (("status", "claimed") ∷ []) (text_at folder target.name))

module _ (match : String → String → Bool) where
  -- `_pair_overlaps`
  unfoldable pub pair_overlaps : String → String → Bool
  pair_overlaps a b = match a b || match b a

  abbrev overlaps_with : String → List String → List (String × String)
  overlaps_with x ys = map (λ y. (x, y)) (filter (pair_overlaps x) ys)

  unfoldable pub surface_overlap : List String → List String → List (String × String)
  unfolding pair_overlaps
  surface_overlap [] ys = []
  surface_overlap (x ∷ xs) ys = overlaps_with x ys ++ surface_overlap xs ys

  abbrev overlap_finding : Card → Card → List (String × String) → List Finding
  overlap_finding target other [] = []
  overlap_finding target other (pair ∷ pairs) =
      warning (surface_overlaps target.name other.name (pair ∷ pairs)) ∷ []

  abbrev is_empty : List String → Bool
  is_empty [] = true
  is_empty (x ∷ xs) = false

  -- The findings of one other card in progress.
  unfoldable pub conflict : Card → Card → List Finding
  unfolding surface_overlap
  conflict target other =
      if target.parallel == "exclusive" || other.parallel == "exclusive"
      then warning (
          exclusive_card (if target.parallel == "exclusive" then target.name else other.name)
            target.name other.name)
        ∷ []
      else if is_empty target.surface || is_empty other.surface
      then warning
          (no_surface (if is_empty target.surface then target.name else other.name) other.name)
        ∷ []
      else overlap_finding target other (surface_overlap target.surface other.surface)

  abbrev pub is_other : Card → Card → Bool
  is_other target c = not (c.name == target.name) && c.status == "claimed"

  abbrev conflicts : Card → List Card → List Finding
  conflicts target [] = []
  conflicts target (c ∷ cs) = conflict target c ++ conflicts target cs

  abbrev check_target : Folder → String → Option Card → List Finding
  check_target folder name none = record { level = fail; message = no_card name } ∷ []
  check_target folder name (some target) =
      conflicts target (filter (is_other target) (load_cards folder))

  unfoldable pub claim_check : Folder → String → List Finding
  unfolding find_card load_cards conflict
  claim_check folder name = check_target folder name (find_card folder name)

  unfoldable pub claim : Folder → String → Bool → Result EditError Claimed
  unfolding claim_check find_card claim_target
  claim folder name force =
      let findings = claim_check folder name in
      if any is_fail findings || (not (is_empty_findings findings) && not force)
      then ok (record { claimed = false; findings = findings; folder = folder })
      else claim_target folder findings (find_card folder name)
