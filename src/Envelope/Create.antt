-- ===== src/Envelope/Create.antt =====
-- `create`: an envelope is written only if each bound narrows.
use horus_harness.Prelude.{ℕ, String, Bool, true, false, Option, none, some, List, [], ◌∷◌, ◌++◌}
use horus_harness.Prelude.{if◌then◌else◌, member, ltb, is_some, ◌&&◌, ◌||◌}
use horus_harness.Prelude.{Result, ok, err, ◌>>=◌, ◌>>◌, raise_if}
use horus_harness.Prelude.Dict
use horus_harness.Prelude.Text.{strip, is_alnum, same_char}
use horus_harness.Calendar.{Calendar}
use horus_harness.Accounts.{AccountRef, AccountError, found, refused, resolve_account, label}
use horus_harness.Datums.Tiers.{normalize_tier}
use horus_harness.Envelope.{Envelope, Disk, write}

pub data EnvelopeError : Type 0 where
  invalid_name already_exists invalid_expires past_expiry no_cards no_accounts : EnvelopeError
  unresolved_account : AccountError → EnvelopeError
  no_tiers : EnvelopeError
  unrecognized_tier : String → EnvelopeError
  bad_floor bad_attempts bad_dispatches : EnvelopeError

-- What the owner asks for.
pub record Bounds : Type 0 where
  pub expires : String
  pub cards : List String
  pub accounts : List String
  pub tiers : List String
  pub efforts : List String
  pub usage_floor : ℕ
  pub max_attempts_per_card : ℕ
  pub max_dispatches_per_day : ℕ
  pub merge_authority : Bool

is_name_rest : String → Bool
is_name_rest String.[] = true
is_name_rest (String.◌∷◌ c s) =
    (is_alnum c || same_char c "." || same_char c "_" || same_char c "-") && is_name_rest s

-- `_NAME_RE`: `^[A-Za-z0-9][A-Za-z0-9._-]*$`
is_name : String → Bool
unfolding is_name_rest is_alnum
is_name String.[] = false
is_name (String.◌∷◌ c s) = is_alnum c && is_name_rest s

unfoldable pub validate_name : String → Result EnvelopeError String
unfolding is_name strip
validate_name name =
    let stripped = strip name in if is_name stripped then ok stripped else err invalid_name

abbrev pub add_once : List String → String → List String
add_once xs x = if member x xs then xs else xs ++ x ∷ []

unfoldable pub resolve_all :
    List AccountRef → List String → List String → Result EnvelopeError (List String)
unfolding resolve_account label
resolve_all known [] resolved = ok resolved
resolve_all known (a ∷ names) resolved = elim (resolve_account known none a) [
  | found r ↦ resolve_all known names (add_once resolved (label r))
  | refused e ↦ err (unresolved_account e)
]

unfoldable pub neutral_all : List String → List String → Result EnvelopeError (List String)
unfolding normalize_tier
neutral_all [] neutral = ok neutral
neutral_all (raw ∷ rest) neutral = elim (normalize_tier raw) [
  | none ↦ err (unrecognized_tier raw)
  | some t ↦ neutral_all rest (add_once neutral t)
]

abbrev is_empty {ℓ} : {A : Type ℓ} → List A → Bool
is_empty [] = true
is_empty (_ ∷ _) = false

abbrev or_err : Option ℕ → Result EnvelopeError ℕ
or_err none = err invalid_expires
or_err (some d) = ok d

module _ (cal : Calendar) (known : List AccountRef) where
  -- The checks on the bounds, in the source's order, and the envelope that they leave.
  unfoldable pub check_bounds : String → Bounds → ℕ → Result EnvelopeError Envelope
  unfolding resolve_all neutral_all
  check_bounds name b today = do
    expiry ← or_err (cal.from_iso b.expires)
    raise_if (ltb expiry today) past_expiry
    raise_if (is_empty b.cards) no_cards
    raise_if (is_empty b.accounts) no_accounts
    accounts ← resolve_all known b.accounts []
    raise_if (is_empty b.tiers) no_tiers
    tiers ← neutral_all b.tiers []
    raise_if (ltb 100 b.usage_floor) bad_floor
    raise_if (ltb b.max_attempts_per_card 1) bad_attempts
    raise_if (ltb b.max_dispatches_per_day 1) bad_dispatches
    ok (record {
      name = name;
      created = cal.iso today;
      expires = b.expires;
      cards = b.cards;
      accounts = accounts;
      tiers = tiers;
      efforts = b.efforts;
      usage_floor = b.usage_floor;
      max_attempts_per_card = b.max_attempts_per_card;
      max_dispatches_per_day = b.max_dispatches_per_day;
      merge_authority = b.merge_authority;
      revoked = false;
      revoked_at = "";
    })

  unfoldable pub create : Disk → String → Bounds → ℕ → Result EnvelopeError (Envelope × Disk)
  unfolding validate_name check_bounds write
  create disk name b today = do
    stem ← validate_name name
    raise_if (is_some (Dict.get stem disk.files)) already_exists
    env ← check_bounds stem b today
    ok (env, write disk env)
