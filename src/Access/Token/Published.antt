-- ===== src/Access/Token/Published.antt =====
-- Where the keys of the cache come from.
use horus_harness.Prelude.{
  ℕ, String, Bool, true, false, Option, none, some, List, [], ◌∷◌, ◌==◌, not, if◌then◌else◌, Result,
  ok, err, ◌≡◌, refl, ◌⊎◌, inr, is_some,
}
use horus_harness.Prelude.Dict
use horus_harness.Prelude.Dict.{Dict}
use horus_harness.Prelude.Text.{strip}
use horus_harness.Prelude.Integers.{ℤ}
use horus_harness.Access.{Fields, get, Codec}
use horus_harness.Access.Jwks.{
  Key, JwksCache, Escaped, Server, Fetched, Found, answered, refresh, refreshed, looked_up,
  or_refetch, get_key, is_stale, b64url_decode, kid_of,
}
use horus_harness.Access.Token.{
  AccessConfig, Denied, Raised, Verified, Headers, header, Gate, caught, refuse, judged,
  check_signature, with_key, with_kid, with_objects, with_parts, verify_access_jwt, validate_claims,
  decode_json_segment, is_text, token_checked, is_owner_request, authorized,
}

-- An answer of the server that the keys are read of.
abbrev pub IsAnswer : Codec → Server → Dict Key → Type 0
IsAnswer codec server keys = (k : ℕ) × (answered codec (server.answer k) ≡ ok keys)

-- The cache has no keys yet, or those of one answer of the server.
abbrev pub IsPublished : Codec → Server → JwksCache → Type 0
IsPublished codec server cache = (cache.keys ≡ []) ⊎ IsAnswer codec server cache.keys

module _ (codec : Codec) (server : Server) where
  abbrev Stays : JwksCache → Type 0
  Stays cache = IsPublished codec server cache

  refreshed-IsPublished :
      (cache : JwksCache) (r : Result Escaped (Dict Key))
      → answered codec (server.answer cache.fetches) ≡ r
      → Stays cache
      → Stays (refreshed server cache r).1
  refreshed-IsPublished cache (err e) from h = h
  refreshed-IsPublished cache (ok keys) from h = inr (cache.fetches, from)

  refresh-IsPublished : (cache : JwksCache) → Stays cache → Stays (refresh codec server cache).1
  unfolding refresh
  refresh-IsPublished cache h =
      refreshed-IsPublished cache (answered codec (server.answer cache.fetches)) refl h

  looked_up-IsPublished : (kid : String) (f : Fetched) → Stays f.1 → Stays (looked_up kid f).1
  looked_up-IsPublished kid (err e, cache) h = h
  looked_up-IsPublished kid (ok u, cache) h = h

  if_found :
      (b : Bool) (key : Option Key) (cache : JwksCache) (f : Found)
      → Stays cache
      → Stays f.1
      → Stays (if b then (ok key, cache) else f).1
  if_found true key cache f h g = h
  if_found false key cache f h g = g

  or_refetch-IsPublished :
      (kid : String) (f : Fetched) → Stays f.1 → Stays (or_refetch codec server kid f).1
  or_refetch-IsPublished kid (err e, cache) h = h
  or_refetch-IsPublished kid (ok u, cache) h =
      if_found (is_some (Dict.get kid cache.keys)) (Dict.get kid cache.keys) cache
        (looked_up kid (refresh codec server cache)) h
        (looked_up-IsPublished kid (refresh codec server cache) (refresh-IsPublished cache h))

  if_stale :
      (b : Bool) (cache : JwksCache)
      → Stays cache
      → Stays (if b then refresh codec server cache else (ok tt, cache)).1
  if_stale true cache h = refresh-IsPublished cache h
  if_stale false cache h = h

  get_key-IsPublished :
      (kid : String) (now : ℤ) (cache : JwksCache)
      → Stays cache
      → Stays (get_key codec server kid now cache).1
  unfolding get_key
  get_key-IsPublished kid now cache h =
      or_refetch-IsPublished kid
        (if is_stale cache now then refresh codec server cache else (ok tt, cache))
        (if_stale (is_stale cache now) cache h)

  module _ (config : AccessConfig) (owner : String) (now : ℤ) where
    judged-IsPublished :
        (valid : Bool) (claims : Result Denied (Unit {0})) (cache : JwksCache)
        → Stays cache
        → Stays (judged valid claims cache).1
    judged-IsPublished false claims cache h = h
    judged-IsPublished true (ok u) cache h = h
    judged-IsPublished true (err why) cache h = h

    signature-IsPublished :
        (head body : String) (payload : Fields) (key : Key) (o : Option (List ℕ))
        (cache : JwksCache)
        → Stays cache
        → Stays (check_signature codec config owner now head body payload key o cache).1
    unfolding check_signature
    signature-IsPublished head body payload key none cache h = h
    signature-IsPublished head body payload (n, e) (some signature) cache h =
        judged-IsPublished _ (validate_claims payload config owner now) cache h

    key-IsPublished :
        (head body sign : String) (payload : Fields) (f : Found)
        → Stays f.1
        → Stays (with_key codec config owner now head body sign payload f).1
    unfolding with_key
    key-IsPublished head body sign payload (err e, cache) h = h
    key-IsPublished head body sign payload (ok none, cache) h = h
    key-IsPublished head body sign payload (ok (some key), cache) h =
        signature-IsPublished head body payload key (b64url_decode codec sign) cache h

    kid-IsPublished :
        (cache : JwksCache) (head body sign : String) (payload : Fields) (o : Option String)
        → Stays cache
        → Stays (with_kid codec config owner now server cache head body sign payload o).1
    kid-IsPublished cache head body sign payload none h = h
    kid-IsPublished cache head body sign payload (some kid) h =
        key-IsPublished head body sign payload (get_key codec server kid now cache)
          (get_key-IsPublished kid now cache h)

    if_verified :
        (b : Bool) (why : Denied) (cache : JwksCache) (v : Verified)
        → Stays cache
        → Stays v.1
        → Stays (if b then v else refuse why cache).1
    if_verified true why cache v h g = g
    if_verified false why cache v h g = h

    objects-IsPublished :
        (cache : JwksCache) (head body sign : String) (o p : Option Fields)
        → Stays cache
        → Stays (with_objects codec config owner now server cache head body sign o p).1
    objects-IsPublished cache head body sign none p h = h
    objects-IsPublished cache head body sign (some x) none h = h
    objects-IsPublished cache head body sign (some x) (some payload) h =
        if_verified (is_text "RS256" (get "alg" x)) Denied.unsupported_alg cache
          (with_kid codec config owner now server cache head body sign payload
            (kid_of (get "kid" x)))
          h (kid-IsPublished cache head body sign payload (kid_of (get "kid" x)) h)

    parts-IsPublished :
        (cache : JwksCache) (parts : List String)
        → Stays cache
        → Stays (with_parts codec config owner now server cache parts).1
    parts-IsPublished cache (head ∷ body ∷ sign ∷ []) h =
        objects-IsPublished cache head body sign (decode_json_segment codec head)
          (decode_json_segment codec body) h
    parts-IsPublished cache [] h = h
    parts-IsPublished cache (a ∷ []) h = h
    parts-IsPublished cache (a ∷ b ∷ []) h = h
    parts-IsPublished cache (a ∷ b ∷ c ∷ d ∷ rest) h = h

    caught-IsPublished : (v : Verified) → Stays v.1 → Stays (caught v).1
    caught-IsPublished (ok u, cache) h = h
    caught-IsPublished (err (Raised.denied why), cache) h = h
    caught-IsPublished (err (Raised.escaped e), cache) h = h

    if_denied :
        (b : Bool) (cache : JwksCache) (gate : Gate)
        → Stays cache
        → Stays gate.1
        → Stays (if b then (ok false, cache) else gate).1
    if_denied true cache gate h g = h
    if_denied false cache gate h g = g

    token-IsPublished :
        (cache : JwksCache) (o : Option String)
        → Stays cache
        → Stays (token_checked codec server config owner now cache o).1
    unfolding verify_access_jwt
    token-IsPublished cache none h = h
    token-IsPublished cache (some token) h =
        if_denied (strip token == "") cache
          (caught (verify_access_jwt codec config owner now server cache (strip token))) h
          (caught-IsPublished (verify_access_jwt codec config owner now server cache (strip token))
            (parts-IsPublished cache _ h))

    -- The gate leaves a cache that is published, if it is given one.
    pub authorized-IsPublished :
        (headers : Headers) (cache : JwksCache)
        → Stays cache
        → Stays (authorized codec server config owner now headers cache).1
    unfolding authorized
    authorized-IsPublished headers cache h =
        if_denied (not (is_owner_request headers owner)) cache
          (token_checked codec server config owner now cache
            (header "Cf-Access-Jwt-Assertion" headers))
          h (token-IsPublished cache (header "Cf-Access-Jwt-Assertion" headers) h)
