-- ===== src/Access/Token.antt =====
-- The token of a request, and the gate that asks for it. The time is in whole seconds, and a sum of
-- floats is exact.
pub mod Published
pub mod Sound
use horus_harness.Prelude.{
  ℕ, zero, suc, String, Bool, true, false, Option, none, some, List, [], ◌∷◌, ◌==◌, ◌&&◌, ◌||◌, not,
  if◌then◌else◌, Result, ok, err, ◌>>◌, ◌>>=◌, raise_if,
}
use horus_harness.Prelude.Text.{◌<>◌, strip, lower}
use horus_harness.Prelude.Integers.{ℤ, pos, le_ℤ, ◌+ℤ◌}
use horus_harness.Backlog.Order.{split_on}
use horus_harness.Access.{
  Json, Float, finite, infinite, minus_infinite, nan, null, flag, number, float, text, array,
  object, Items, nil, cons, Fields, get, Codec,
}
use horus_harness.Access.Rsa.{rsa_verify}
use horus_harness.Access.Jwks.{
  Key, JwksCache, Escaped, Server, Found, get_key, b64url_decode, kid_of,
}

pub record AccessConfig : Type 0 where
  pub team_domain : String
  pub aud : String
  pub jwks_url : String

-- The messages of `AccessJWTError`.
pub data Denied : Type 0 where
  malformed_structure : Denied
  malformed_segment : Denied
  unsupported_alg : Denied
  missing_kid : Denied
  unknown_kid : Denied
  invalid_signature_encoding : Denied
  signature_failed : Denied
  expired : Denied
  not_yet_valid : Denied
  unexpected_issuer : Denied
  unexpected_audience : Denied
  email_mismatch : Denied

-- A denial, or an exception that the gate does not catch.
pub data Raised : Type 0 where
  denied : Denied → Raised
  escaped : Escaped → Raised

-- `z * 2 ** k`
scaled : ℕ → ℤ → ℤ
unfolding ◌+ℤ◌
scaled zero z = z
scaled (suc k) z = scaled k (z +ℤ z)

-- `now > x + 60`, of the exact sum
unfoldable pub is_past : ℤ → Float → Bool
unfolding scaled le_ℤ ◌+ℤ◌
is_past now (finite m k) = not (le_ℤ (scaled k now) (m +ℤ scaled k (pos 60)))
is_past now infinite = false
is_past now minus_infinite = true
is_past now nan = false

-- `now < x - 60`, of the exact difference
unfoldable pub is_ahead : ℤ → Float → Bool
unfolding scaled le_ℤ ◌+ℤ◌
is_ahead now (finite m k) = not (le_ℤ m (scaled k (now +ℤ pos 60)))
is_ahead now infinite = true
is_ahead now minus_infinite = false
is_ahead now nan = false

abbrev pub is_current : ℤ → Json → Bool
is_current now (number exp) = le_ℤ now (exp +ℤ pos 60)
is_current now (float exp) = not (is_past now exp)
is_current now _ = false

abbrev pub has_begun : ℤ → Json → Bool
has_begun now null = true
has_begun now (number nbf) = le_ℤ nbf (now +ℤ pos 60)
has_begun now (float nbf) = not (is_ahead now nbf)
has_begun now _ = false

abbrev is_text : String → Json → Bool
is_text s (text t) = t == s
is_text s _ = false

abbrev contains : String → Items → Bool
contains s nil = false
contains s (cons item rest) = is_text s item || contains s rest

abbrev is_audience : String → Json → Bool
is_audience aud (array items) = contains aud items
is_audience aud claim = is_text aud claim

unfoldable pub same_email : String → String → Bool
unfolding lower strip
same_email a b = lower (strip a) == lower (strip b)

abbrev is_email : String → Json → Bool
is_email owner (text s) = same_email s owner
is_email owner _ = false

-- `_validate_claims`
unfoldable pub validate_claims : Fields → AccessConfig → String → ℤ → Result Denied (Unit {0})
unfolding le_ℤ ◌+ℤ◌ is_past is_ahead get same_email ◌<>◌
validate_claims payload config owner now =
    raise_if (not (is_current now (get "exp" payload))) expired
    >> raise_if (not (has_begun now (get "nbf" payload))) not_yet_valid
    >> raise_if (not (is_text ("https://" <> config.team_domain) (get "iss" payload)))
        unexpected_issuer
    >> raise_if (not (is_audience config.aud (get "aud" payload))) unexpected_audience
    >> raise_if (not (is_email owner (get "email" payload))) email_mismatch

abbrev object_of : Option Json → Option Fields
object_of (some (object fields)) = some fields
object_of _ = none

abbrev loaded : Codec → Option (List ℕ) → Option Json
loaded codec none = none
loaded codec (some raw) = codec.loads raw

-- `_decode_json_segment`
unfoldable pub decode_json_segment : Codec → String → Option Fields
unfolding b64url_decode
decode_json_segment codec segment = object_of (loaded codec (b64url_decode codec segment))

abbrev pub Verified : Type 0
Verified = Result Raised (Unit {0}) × JwksCache

abbrev pub refuse : Denied → JwksCache → Verified
refuse why cache = (err (denied why), cache)

-- What the signature and the claims come to.
abbrev pub judged : Bool → Result Denied (Unit {0}) → JwksCache → Verified
judged false claims cache = refuse signature_failed cache
judged true (ok u) cache = (ok tt, cache)
judged true (err why) cache = refuse why cache

module _ (codec : Codec) (config : AccessConfig) (owner : String) (now : ℤ) where
  -- The signature and the claims, under a key.
  unfoldable pub check_signature :
      String → String → Fields → Key → Option (List ℕ) → JwksCache → Verified
  unfolding rsa_verify validate_claims ◌<>◌
  check_signature head body payload key none cache = refuse invalid_signature_encoding cache
  check_signature head body payload (n, e) (some signature) cache =
      judged (rsa_verify codec (codec.ascii (head <> "." <> body)) signature n e)
        (validate_claims payload config owner now) cache

  unfoldable pub with_key : String → String → String → Fields → Found → Verified
  unfolding check_signature b64url_decode
  with_key head body sign payload (err e, cache) = (err (escaped e), cache)
  with_key head body sign payload (ok none, cache) = refuse unknown_kid cache
  with_key head body sign payload (ok (some key), cache) =
      check_signature head body payload key (b64url_decode codec sign) cache

  abbrev pub with_kid :
      Server → JwksCache → String → String → String → Fields → Option String → Verified
  with_kid server cache head body sign payload none = refuse missing_kid cache
  with_kid server cache head body sign payload (some kid) =
      with_key head body sign payload (get_key codec server kid now cache)

  -- The algorithm is pinned, whatever the header asks for.
  abbrev pub with_objects :
      Server → JwksCache → String → String → String → Option Fields → Option Fields → Verified
  with_objects server cache head body sign (some header) (some payload) =
      if is_text "RS256" (get "alg" header)
      then with_kid server cache head body sign payload (kid_of (get "kid" header))
      else refuse unsupported_alg cache
  with_objects server cache head body sign _ _ = refuse malformed_segment cache

  abbrev pub with_parts : Server → JwksCache → List String → Verified
  with_parts server cache (head ∷ body ∷ sign ∷ []) =
      with_objects server cache head body sign (decode_json_segment codec head)
        (decode_json_segment codec body)
  with_parts server cache _ = refuse malformed_structure cache

  unfoldable pub verify_access_jwt : Server → JwksCache → String → Verified
  unfolding with_key decode_json_segment get_key get split_on
  verify_access_jwt server cache token = with_parts server cache (split_on "." token)

-- The headers of a request; `none` is a value that has no `get`.
abbrev pub Headers : Type 0
Headers = Option (String → Option String)

abbrev pub header : String → Headers → Option String
header name none = none
header name (some values) = values name

abbrev presents : String → Option String → Bool
presents owner none = false
presents owner (some email) = not (strip email == "") && same_email email owner

-- `is_owner_request`
unfoldable pub is_owner_request : Headers → String → Bool
unfolding strip same_email
is_owner_request headers owner =
    if owner == ""
    then false
    else presents owner (header "Cf-Access-Authenticated-User-Email" headers)

abbrev pub Gate : Type 0
Gate = Result Escaped Bool × JwksCache

abbrev pub caught : Verified → Gate
caught (ok u, cache) = (ok true, cache)
caught (err (denied why), cache) = (ok false, cache)
caught (err (escaped e), cache) = (err e, cache)

module _ (codec : Codec) (server : Server) (config : AccessConfig) (owner : String) (now : ℤ) where
  abbrev pub token_checked : JwksCache → Option String → Gate
  token_checked cache none = (ok false, cache)
  token_checked cache (some token) =
      if strip token == ""
      then (ok false, cache)
      else caught (verify_access_jwt codec config owner now server cache (strip token))

  -- `is_valid_access_jwt_request`
  unfoldable pub is_valid_access_jwt_request : Headers → JwksCache → Gate
  unfolding verify_access_jwt strip
  is_valid_access_jwt_request headers cache =
      token_checked cache (header "Cf-Access-Jwt-Assertion" headers)

  unfoldable pub authorized : Headers → JwksCache → Gate
  unfolding is_owner_request is_valid_access_jwt_request
  authorized headers cache =
      if not (is_owner_request headers owner)
      then (ok false, cache)
      else is_valid_access_jwt_request headers cache
