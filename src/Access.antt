-- ===== src/Access.antt =====
-- horus/access_gate.py: who may use the dashboard where it is exposed. `Codec` is what the program asks
-- of base64, JSON and SHA-256; a byte is a number.
pub mod Rsa
pub mod Jwks
pub mod Token
pub mod Examples
use horus_harness.Prelude.{ℕ, String, Bool, true, false, Option, none, some, List, [], ◌∷◌, ◌==◌}
use horus_harness.Prelude.{◌&&◌, not, if◌then◌else◌}
use horus_harness.Prelude.Integers.{ℤ}

-- A `float`, by its exact value: `finite m k` is m / 2^k.
pub data Float : Type 0 where
  finite : ℤ → ℕ → Float
  infinite : Float
  minus_infinite : Float
  nan : Float

mutual
  pub data Json : Type 0 where
    null : Json
    flag : Bool → Json
    number : ℤ → Json
    float : Float → Json
    text : String → Json
    array : Items → Json
    object : Fields → Json

  pub data Items : Type 0 where
    nil : Items
    cons : Json → Items → Items

  pub data Fields : Type 0 where
    end : Fields
    field : String → Json → Fields → Fields

abbrev later_or : Option Json → Bool → Json → Option Json
later_or (some later) here value = some later
later_or none true value = some value
later_or none false value = none

-- The value under a key, the last where there are several.
find_field : String → Fields → Option Json
find_field key end = none
find_field key (field name value rest) = later_or (find_field key rest) (name == key) value

abbrev or_null : Option Json → Json
or_null none = null
or_null (some value) = value

-- `d.get(key)`
unfoldable pub get : String → Fields → Json
unfolding find_field
get key fields = or_null (find_field key fields)

pub record Codec : Type 0 where
  -- `base64.urlsafe_b64decode`, `none` where it raises
  pub b64decode : String → Option (List ℕ)
  -- `json.loads(raw.decode("utf-8"))`, `none` where it raises
  pub loads : List ℕ → Option Json
  -- `hashlib.sha256(m).digest()`
  pub sha256 : List ℕ → List ℕ
  -- `s.encode("ascii")`
  pub ascii : String → List ℕ
