-- ===== src/Datums/Tiers/Closed.antt =====
-- The tier vocabulary is closed.
use horus_harness.Prelude.{String, ◌≡◌, refl, true, false, none, some}
use horus_harness.Prelude.{◌==◌, member, All, Bool-cases, inl, inr, Option-cases}
use horus_harness.Prelude.Dict
use horus_harness.Prelude.Dict.{get-All}
use horus_harness.Prelude.Text.{strip, lower}
use mathlib.Core.Path.{subst, sym, ◌∙◌}
use mathlib.Core.Option.{some-injective}
use horus_harness.Datums.Tiers.{
  or_else, neutral_tiers, build_model_tier_map, tier_of, normalize_tier, canonical_model_name,
}

abbrev IsNeutral : String → Type 0
IsNeutral t = member t neutral_tiers ≡ true

values-IsNeutral : All (λ (e : String × String). IsNeutral e.1) build_model_tier_map
unfolding build_model_tier_map Dict.get Dict.insert
values-IsNeutral = (refl, (refl, (refl, (refl, (refl, (refl, (refl, tt)))))))

found-IsNeutral : (k t : String) → Dict.get k build_model_tier_map ≡ some t → IsNeutral t
found-IsNeutral k t h = get-All IsNeutral k build_model_tier_map values-IsNeutral h

looked_up-IsNeutral :
    (k v t : String)
    → or_else (Dict.get k build_model_tier_map) (Dict.get v build_model_tier_map) ≡ some t
    → IsNeutral t
looked_up-IsNeutral k v t h = elim (Option-cases (Dict.get k build_model_tier_map)) [
  | inl missing ↦ found-IsNeutral v t (rw missing at h)
  | inr (u, found) ↦ found-IsNeutral k t (found ∙ (rw found at h))
]

tier_of-IsNeutral : (v t : String) → tier_of v ≡ some t → IsNeutral t
unfolding tier_of
tier_of-IsNeutral v t h = elim (Bool-cases (v == "")) [
  | inl blank ↦ let bad : tier_of v ≡ none = rw (blank, tier_of) refl in absurd (cc bad)
  | inr named ↦ elim (Bool-cases (member v neutral_tiers)) [
    | inl neutral ↦ subst IsNeutral (some-injective v t (passed named neutral)) neutral
    | inr model ↦
        looked_up-IsNeutral (canonical_model_name v none) v t (rw (named, model, tier_of) at h)
  ]
]
  where
    passed : (v == "") ≡ false → member v neutral_tiers ≡ true → some v ≡ some t
    passed named neutral = sym (rw (named, neutral, tier_of) refl) ∙ h

-- Whatever label is normalised, the result is one of the four neutral tiers.
pub normalize_tier-neutral :
    (label t : String) → normalize_tier label ≡ some t → member t neutral_tiers ≡ true
unfolding normalize_tier
normalize_tier-neutral label t h = tier_of-IsNeutral (lower (strip label)) t h
