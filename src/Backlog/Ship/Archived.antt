-- ===== src/Backlog/Ship/Archived.antt =====
-- Where a shipped card goes, and that no archived card is lost.
use horus_harness.Prelude.{String, false, Option, none, some}
use horus_harness.Prelude.{
  ◌≡◌, refl, sym, ap, ◌==◌, ok-injective, ok, if◌then◌else◌, is_some, Bool-cases, Result-cases, inl,
  inr,
}
use horus_harness.Prelude.Dict
use horus_harness.Prelude.Dict.{get-insert, get-erase}
use mathlib.Core.Path.{subst}
use horus_harness.Backlog.{Card, Folder, find_card, card_of}
use horus_harness.Backlog.Claim.{text_at}
use horus_harness.Backlog.Ship.{Shipped, move_card, stamp_shipped, ship}

-- What a successful `ship` does to the two folders.
abbrev pub IsArchived : Folder → Card → String → Folder → Type 0
IsArchived before target text after =
    (Dict.get target.name before.archive ≡ none)
    × ((j : String)
        → Dict.get j after.archive
          ≡ (if target.name == j then some text else Dict.get j before.archive))
    × ((j : String)
        → Dict.get j after.root ≡ (if target.name == j then none else Dict.get j before.root))

move_card-IsArchived :
    (folder : Folder) (target : Card) (text : String)
    → is_some (Dict.get target.name folder.archive) ≡ false
    → IsArchived folder target text (move_card folder target.name text)
move_card-IsArchived folder target text h = (
  absent (Dict.get target.name folder.archive) h,
  λ j. get-insert target.name j text folder.archive,
  λ j. get-erase target.name j folder.root,
)
  where
    absent : (o : Option String) → is_some o ≡ false → o ≡ none
    absent none e = refl
    absent (some s) e = absurd (cc e)

-- Where a card is found and `ship` succeeds: no archived card had its name, the archive has the
-- stamped text under that name and is otherwise the same, the folder has lost that name and nothing
-- else, and the card returned is that of the stamped text.
pub ship-IsArchived :
    (folder : Folder) (name pr sha : String) (target : Card) (s : Shipped)
    → find_card folder name ≡ some target
    → ship folder name pr sha ≡ ok s
    → (text : String) × (stamp_shipped pr sha (text_at folder target.name) ≡ ok text)
      × (s.card ≡ some (card_of target.name text))
      × IsArchived folder target text s.folder
unfolding ship
ship-IsArchived folder name pr sha target s found h =
    elim (Bool-cases (is_some (Dict.get target.name folder.archive))) [
      | inl e ↦ absurd (cc (rw (found, e) at h))
      | inr e ↦ elim (Result-cases (stamp_shipped pr sha (text_at folder target.name))) [
        | inr (bad, e2) ↦ absurd (cc (rw (found, e, e2) at h))
        | inl (text, e2) ↦ done e text e2 (ok-injective (rw (found, e, e2) at h))
      ]
    ]
  where
    done :
        is_some (Dict.get target.name folder.archive) ≡ false
        → (text : String) → stamp_shipped pr sha (text_at folder target.name) ≡ ok text
        → record {
          card = some (card_of target.name text);
          folder = move_card folder target.name text;
        }
          ≡ s
        → (t : String) × (stamp_shipped pr sha (text_at folder target.name) ≡ ok t)
          × (s.card ≡ some (card_of target.name t))
          × IsArchived folder target t s.folder
    done e text e2 same = (
      text,
      e2,
      ap (λ r. r.card) (sym same),
      subst (λ r. IsArchived folder target text r.folder) same
          (move_card-IsArchived folder target text e),
    )
