-- ===== src/Datums/Tiers.antt =====
-- horus/datums.py: `normalize_tier` and the tables that it reads. The vocabulary is closed: a label
-- is a neutral tier, a model's name, or nothing.
pub mod Closed
use horus_harness.Prelude.{ℕ, String, ◌≡◌, refl, Bool, Option, none, some, List, [], ◌∷◌, ◌==◌}
use horus_harness.Prelude.{if◌then◌else◌, member, ltb}
use horus_harness.Prelude.Dict
use horus_harness.Prelude.Dict.{Dict}
use horus_harness.Prelude.Text.{◌<>◌, strip, lower}

abbrev pub neutral_tiers : List String
neutral_tiers = "low" ∷ "medium" ∷ "high" ∷ "frontier" ∷ []

-- One provider's model at a tier; the effort, where the table names one.
pub record TierPeer : Type 0 where
  pub provider : String
  pub model : String
  pub effort : Option String

abbrev peer : String → String → Option String → TierPeer
peer p m e = record { provider = p; model = m; effort = e }

abbrev pub tier_equivalence : Dict (List TierPeer)
tier_equivalence =
    ("frontier", peer "claude" "fable-5" none ∷ peer "codex" "gpt-5.6-sol" (some "high") ∷ [])
    ∷ ("high", peer "claude" "opus-4.8" none ∷ peer "codex" "gpt-5.6-terra" (some "high") ∷ [])
    ∷ ("medium", peer "claude" "sonnet-5" none ∷ peer "codex" "gpt-5.6-terra" (some "medium") ∷ [])
    ∷ ("low", peer "claude" "haiku-4.5" none ∷ peer "codex" "gpt-5.6-luna" (some "high") ∷ [])
    ∷ []

abbrev pub alias_to_canonical : Dict String
alias_to_canonical =
    ("sonnet", "sonnet-5")
    ∷ ("haiku", "haiku-4.5")
    ∷ ("opus", "opus-4.8")
    ∷ ("gpt-5.6", "gpt-5.6-sol")
    ∷ []

-- The place of a tier in `neutral_tiers`: the higher, the more capable.
abbrev rank_from : ℕ → List String → String → ℕ
rank_from n [] t = n
rank_from n (s ∷ ss) t = let rest = rank_from (ℕ.suc n) ss t in if s == t then n else rest

abbrev pub rank : String → ℕ
rank = rank_from 0 neutral_tiers

-- `out[peer.model] = tier`, unless the model has a tier that is as high.
abbrev place : String → Option String → Bool
place tier none = Bool.true
place tier (some old) = ltb (rank old) (rank tier)

place_peers : String → List TierPeer → Dict String → Dict String
place_peers tier [] out = out
place_peers tier (p ∷ ps) out =
    place_peers tier ps
      (if place tier (Dict.get p.model out) then Dict.insert p.model tier out else out)

place_all : Dict (List TierPeer) → Dict String → Dict String
unfolding place_peers
place_all [] out = out
place_all ((tier, peers) ∷ rest) out = place_all rest (place_peers tier peers out)

unfoldable pub build_model_tier_map : Dict String
unfolding place_all
build_model_tier_map = place_all tier_equivalence []

-- The groups of `_RESOLVED_MODEL_RE` in the model that an adapter reports, where it matches.
pub record ResolvedModel : Type 0 where
  pub family : String
  pub major : String
  pub minor : Option String

abbrev pub versioned : ResolvedModel → String
versioned r = elim r.minor [
  | none ↦ r.family <> "-" <> r.major
  | some minor ↦ r.family <> "-" <> r.major <> "." <> minor
]

abbrev pub or_else : Option String → Option String → Option String
or_else none b = b
or_else (some a) b = some a

abbrev pub or_self : String → Option String → String
or_self v none = v
or_self v (some a) = a

unfoldable pub canonical_model_name : String → Option ResolvedModel → String
unfolding ◌<>◌
canonical_model_name alias (some r) = versioned r
canonical_model_name alias none = or_self alias (Dict.get alias alias_to_canonical)

-- `normalize_tier` of a text that is not None, stripped and folded.
unfoldable pub tier_of : String → Option String
unfolding build_model_tier_map canonical_model_name
tier_of v =
    if v == ""
    then none
    else if member v neutral_tiers
    then some v
    else or_else (Dict.get (canonical_model_name v none) build_model_tier_map)
        (Dict.get v build_model_tier_map)

unfoldable pub normalize_tier : String → Option String
unfolding strip lower tier_of
normalize_tier value = tier_of (lower (strip value))

test_sonnet : normalize_tier " Sonnet " ≡ some "medium"
unfolding Dict.get Dict.insert normalize_tier
test_sonnet = refl

test_terra : normalize_tier "gpt-5.6-terra" ≡ some "high"
unfolding Dict.get Dict.insert normalize_tier
test_terra = refl

test_typo : normalize_tier "meduim" ≡ none
unfolding Dict.get Dict.insert normalize_tier
test_typo = refl

build_map_runs :
    build_model_tier_map
    ≡ ("fable-5", "frontier")
      ∷ ("gpt-5.6-sol", "frontier")
      ∷ ("opus-4.8", "high")
      ∷ ("gpt-5.6-terra", "high")
      ∷ ("sonnet-5", "medium")
      ∷ ("haiku-4.5", "low")
      ∷ ("gpt-5.6-luna", "low")
      ∷ []
unfolding Dict.get Dict.insert build_model_tier_map
build_map_runs = refl
