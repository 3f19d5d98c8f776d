-- ===== src/Envelope.antt =====
-- horus/envelope.py: standing dispatch envelopes. An owner bounds unattended dispatch in advance;
-- every dispatch is checked against the envelope's file and its append-only ledger.
-- A file is what TOML reads of it: a table of the fields that `_write` gives, each perhaps missing.
pub mod Create
pub mod Ledger
pub mod All
pub mod Wall
pub mod Authorized
pub mod Counts
pub mod Budget
pub mod Revoked
pub mod Created
pub mod Examples
use Prim.Native.Char.{Char, code}
use horus_harness.Prelude.{ℕ, String, Bool, true, false, Option, none, some, List, [], ◌∷◌}
use horus_harness.Prelude.{
  ◌==◌, if◌then◌else◌, map, filter, not, member, ltb, leb, beq, all, ◌&&◌, ◌||◌,
}
use horus_harness.Prelude.Dict
use horus_harness.Prelude.Dict.{Dict}
use horus_harness.Prelude.Text.{strip}
use horus_harness.Calendar.{Calendar}

-- Bounds and counts are natural numbers: a negative bound in a file acts as 0 does.
pub record Envelope : Type 0 where
  pub name : String
  pub created : String
  pub expires : String
  pub cards : List String
  pub accounts : List String
  pub tiers : List String
  pub efforts : List String
  pub usage_floor : ℕ
  pub max_attempts_per_card : ℕ
  pub max_dispatches_per_day : ℕ
  pub merge_authority : Bool
  pub revoked : Bool
  pub revoked_at : String

pub record DispatchRequest : Type 0 where
  pub card : String
  pub account : Option String
  pub tier : String
  pub effort : String

pub record Fields : Type 0 where
  pub name : Option String
  pub created : Option String
  pub expires : Option String
  pub cards : Option (List String)
  pub accounts : Option (List String)
  pub tiers : Option (List String)
  pub efforts : Option (List String)
  pub usage_floor : Option ℕ
  pub max_attempts_per_card : Option ℕ
  pub max_dispatches_per_day : Option ℕ
  pub merge_authority : Option Bool
  pub revoked : Option Bool
  pub revoked_at : Option String

pub data EnvelopeFile : Type 0 where
  unreadable : EnvelopeFile
  table : Fields → EnvelopeFile

-- One ledger line, a field that is missing read as "".
pub record Row : Type 0 where
  pub ts : String
  pub card : String
  pub account : String
  pub tier : String
  pub effort : String
  pub session_id : String

-- `~/.horus/envelopes/`: the files by name, and the lines of the ledgers; `none` is a line that
-- does not read as an object. `misread` is what TOML makes of the file of an envelope with a text
-- that it does not read as it was written.
pub record Disk : Type 0 where
  pub files : Dict EnvelopeFile
  pub misread : Envelope → EnvelopeFile
  pub ledgers : Dict (List (Option Row))

abbrev pub or_default {ℓ} : {A : Type ℓ} → Option A → A → A
or_default none d = d
or_default (some a) d = a

-- `_strs`
unfoldable pub strs : List String → List String
unfolding strip
strs vs = filter (λ v. not (v == "")) (map strip vs)

unfoldable pub fields_of : Envelope → Fields
fields_of e = record {
  name = some e.name;
  created = some e.created;
  expires = some e.expires;
  cards = some e.cards;
  accounts = some e.accounts;
  tiers = some e.tiers;
  efforts = some e.efforts;
  usage_floor = some e.usage_floor;
  max_attempts_per_card = some e.max_attempts_per_card;
  max_dispatches_per_day = some e.max_dispatches_per_day;
  merge_authority = some e.merge_authority;
  revoked = some e.revoked;
  revoked_at = some e.revoked_at;
}

-- A character that stands for itself between the quotes of a TOML text: not a quote, a backslash or
-- a control character other than a tab.
is_bare : Char → Bool
is_bare c =
    let n = code c in not (beq n 34 || beq n 92 || beq n 127 || ltb n 9 || (leb 10 n && ltb n 32))

unfoldable pub is_bare_text : String → Bool
unfolding is_bare
is_bare_text String.[] = true
is_bare_text (String.◌∷◌ c s) = is_bare c && is_bare_text s

-- `_write` escapes nothing, so this is when its file gives the texts back.
unfoldable pub is_plain : Envelope → Bool
unfolding is_bare_text
is_plain e =
    is_bare_text e.name
    && is_bare_text e.created
    && is_bare_text e.expires
    && all is_bare_text e.cards
    && all is_bare_text e.accounts
    && all is_bare_text e.tiers
    && all is_bare_text e.efforts
    && is_bare_text e.revoked_at

-- What TOML makes of the text that `_write` gives.
abbrev pub reread : Disk → Envelope → EnvelopeFile
reread disk e = if is_plain e then table (fields_of e) else disk.misread e

-- `_write`
unfoldable pub write : Disk → Envelope → Disk
unfolding fields_of is_plain
write disk e = record disk { files = Dict.insert e.name (reread disk e) disk.files }

abbrev pub envelope_of : String → String → Fields → Envelope
envelope_of name expires f = record {
  name = or_default f.name name;
  created = or_default f.created "";
  expires = expires;
  cards = strs (or_default f.cards []);
  accounts = strs (or_default f.accounts []);
  tiers = strs (or_default f.tiers []);
  efforts = strs (or_default f.efforts []);
  usage_floor = or_default f.usage_floor 0;
  max_attempts_per_card = or_default f.max_attempts_per_card 0;
  max_dispatches_per_day = or_default f.max_dispatches_per_day 0;
  merge_authority = or_default f.merge_authority false;
  revoked = or_default f.revoked false;
  revoked_at = or_default f.revoked_at "";
}

module _ (cal : Calendar) where
  -- What is read of a table: nothing, unless it has an expiry that is a date.
  unfoldable pub read_fields : String → Fields → Option Envelope
  unfolding strip
  read_fields name f = elim f.expires [
    | none ↦ none
    | some e ↦ elim (cal.from_iso (strip e)) [
      | none ↦ none
      | some _ ↦ some (envelope_of name (strip e) f)
    ]
  ]

  unfoldable pub read_file : String → Option EnvelopeFile → Option Envelope
  unfolding read_fields
  read_file name none = none
  read_file name (some unreadable) = none
  read_file name (some (table f)) = read_fields name f

  unfoldable pub load : Disk → String → Option Envelope
  unfolding read_file
  load disk name = read_file name (Dict.get name disk.files)

  -- `today > self.expiry_date()`; `none` where the expiry is no date and the call raises.
  unfoldable pub is_expired : Envelope → ℕ → Option Bool
  is_expired e today = elim (cal.from_iso e.expires) [ none ↦ none | some d ↦ some (ltb d today) ]

unfoldable pub authorizes_card : Envelope → String → Bool
authorizes_card e card = member card e.cards
