-- ===== src/Access/Jwks.antt =====
-- The keys that a token may be signed with, fetched and kept for a time. The answers of the server and
-- the times that they come at are given by their number; a fetch that raises is not caught here.
pub mod Fetches
use horus_harness.Prelude.{
  ℕ, suc, ◌+◌, ◌-◌, ◌%◌, String, Bool, true, false, Option, none, some, List, [], ◌∷◌, ◌==◌, ◌&&◌,
  ◌||◌, not,
}
use horus_harness.Prelude.{if◌then◌else◌, Result, ok, err, is_some}
use horus_harness.Prelude.Dict
use horus_harness.Prelude.Dict.{Dict}
use horus_harness.Prelude.Text.{◌<>◌}
use horus_harness.Prelude.Decimal.{text_length}
use horus_harness.Prelude.Integers.{ℤ, pos, le_ℤ, ◌+ℤ◌}
use horus_harness.Access.{
  Json, null, text, array, object, number, float, flag, Items, nil, cons, Fields, get, Codec,
}
use horus_harness.Access.Rsa.{from_bytes}

-- The modulus and the exponent.
abbrev pub Key : Type 0
Key = ℕ × ℕ

pub record JwksCache : Type 0 where
  pub keys : Dict Key
  pub fetched_at : ℤ
  pub fetches : ℕ

pub data Escaped : Type 0 where
  fetch_failed : String → Escaped
  not_iterable : Escaped

pub record Server : Type 0 where
  pub answer : ℕ → Result String Json
  pub time : ℕ → ℤ

equals : ℕ → String
equals ℕ.zero = ""
equals (suc n) = "=" <> equals n

-- `_b64url_decode`
unfoldable pub b64url_decode : Codec → String → Option (List ℕ)
unfolding equals text_length ◌<>◌
b64url_decode codec segment =
    codec.b64decode (segment <> equals ((4 - text_length segment % 4) % 4))

-- `_b64url_decode_int`, of a value that must be a text
abbrev decode_int : Codec → Json → Option ℕ
decode_int codec (text s) = elim (b64url_decode codec s) [
  | none ↦ none
  | some bs ↦ some (from_bytes bs)
]
decode_int codec _ = none

abbrev key_of : Option ℕ → Option ℕ → Option Key
key_of (some n) (some e) = some (n, e)
key_of _ _ = none

abbrev is_rsa : Json → Bool
is_rsa (text s) = s == "RSA"
is_rsa _ = false

abbrev pub kid_of : Json → Option String
kid_of (text s) = if s == "" then none else some s
kid_of _ = none

abbrev add_key : Option String → Option Key → Dict Key → Dict Key
add_key (some kid) (some key) keys = Dict.insert kid key keys
add_key _ _ keys = keys

-- One round of the loop: what is no RSA key with a name is passed over.
unfoldable pub add_jwk : Codec → Json → Dict Key → Dict Key
unfolding b64url_decode from_bytes get
add_jwk codec (object jwk) keys =
    if is_rsa (get "kty" jwk)
    then add_key (kid_of (get "kid" jwk))
        (key_of (decode_int codec (get "n" jwk)) (decode_int codec (get "e" jwk))) keys
    else keys
add_jwk codec _ keys = keys

unfoldable pub add_jwks : Codec → Items → Dict Key → Dict Key
unfolding add_jwk
add_jwks codec nil keys = keys
add_jwks codec (cons jwk rest) keys = add_jwks codec rest (add_jwk codec jwk keys)

abbrev has_key : Fields → Bool
has_key Fields.end = false
has_key (Fields.field name value rest) = name == "keys" || has_key rest

-- `raw.get("keys", [])`: a list, or what has no objects in it, or what no loop runs over.
abbrev keys_of : Codec → Bool → Json → Result Escaped (Dict Key)
keys_of codec given (array jwks) = ok (add_jwks codec jwks [])
keys_of codec given (text s) = ok []
keys_of codec given (object fields) = ok []
keys_of codec given null = if given then err not_iterable else ok []
keys_of codec given (number n) = err not_iterable
keys_of codec given (flag b) = err not_iterable
keys_of codec given (float x) = err not_iterable

abbrev read_jwks : Codec → Json → Result Escaped (Dict Key)
read_jwks codec (object fields) = keys_of codec (has_key fields) (get "keys" fields)
read_jwks codec _ = ok []

abbrev pub Fetched : Type 0
Fetched = Result Escaped (Unit {0}) × JwksCache

-- The cache after a fetch that is answered, or the one before it, with the fetch counted.
abbrev pub refreshed : Server → JwksCache → Result Escaped (Dict Key) → Fetched
refreshed server cache (err e) = (err e, record cache { fetches = suc cache.fetches })
refreshed server cache (ok keys) = (
  ok tt,
  record { keys = keys; fetched_at = server.time cache.fetches; fetches = suc cache.fetches },
)

abbrev pub answered : Codec → Result String Json → Result Escaped (Dict Key)
answered codec (err e) = err (fetch_failed e)
answered codec (ok raw) = read_jwks codec raw

-- `JWKSCache._refresh`
unfoldable pub refresh : Codec → Server → JwksCache → Fetched
unfolding add_jwks get
refresh codec server cache = refreshed server cache (answered codec (server.answer cache.fetches))

abbrev pub Found : Type 0
Found = Result Escaped (Option Key) × JwksCache

abbrev pub looked_up : String → Fetched → Found
looked_up kid (err e, cache) = (err e, cache)
looked_up kid (ok _, cache) = (ok (Dict.get kid cache.keys), cache)

-- The key, after one more fetch where it is not there.
abbrev pub or_refetch : Codec → Server → String → Fetched → Found
or_refetch codec server kid (err e, cache) = (err e, cache)
or_refetch codec server kid (ok _, cache) =
    if is_some (Dict.get kid cache.keys)
    then (ok (Dict.get kid cache.keys), cache)
    else looked_up kid (refresh codec server cache)

abbrev is_empty : Dict Key → Bool
is_empty [] = true
is_empty (k ∷ keys) = false

abbrev pub is_stale : JwksCache → ℤ → Bool
is_stale cache now = is_empty cache.keys || not (le_ℤ now (cache.fetched_at +ℤ pos 600))

-- `JWKSCache.get_key`
unfoldable pub get_key : Codec → Server → String → ℤ → JwksCache → Found
unfolding refresh le_ℤ ◌+ℤ◌
get_key codec server kid now cache =
    or_refetch codec server kid
      (if is_stale cache now then refresh codec server cache else (ok tt, cache))
