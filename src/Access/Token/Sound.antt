-- ===== src/Access/Token/Sound.antt =====
-- What a request that is let in has shown.
use horus_harness.Prelude.{
  ℕ, String, Bool, true, false, Option, none, some, List, [], ◌∷◌, ◌==◌, not, if◌then◌else◌, Result,
  ok, err, ◌>>◌, raise_if, ◌≡◌, refl, sym, ap, ◌∙◌, inl, inr, Bool-cases, arith,
}
use mathlib.Core.Path.{subst}
use horus_harness.Prelude.Dict
use horus_harness.Prelude.Dict.{Dict}
use horus_harness.Prelude.Text.{◌<>◌, strip}
use horus_harness.Prelude.Integers.{ℤ}
use horus_harness.Backlog.Order.{split_on}
use horus_harness.Access.{Fields, get, Codec}
use horus_harness.Access.Rsa.{rsa_verify}
use horus_harness.Access.Jwks.{Key, JwksCache, Server, Found, get_key, b64url_decode, kid_of}
use horus_harness.Access.Jwks.Fetches.{get_key-IsBounded}
use horus_harness.Access.Token.Published.{IsAnswer, IsPublished, authorized-IsPublished}
use horus_harness.Access.Token.{
  AccessConfig, Denied, Raised, Verified, Headers, header, Gate, caught, is_text, is_current,
  has_begun, is_audience, is_email, validate_claims, decode_json_segment, judged, check_signature,
  with_key, with_kid, with_objects, with_parts, verify_access_jwt, same_email, presents,
  is_owner_request, token_checked, authorized,
}

-- The claims of a payload hold at a time.
abbrev pub HasClaims : Fields → AccessConfig → String → ℤ → Type 0
HasClaims payload config owner now =
    (is_current now (get "exp" payload) ≡ true)
    × (has_begun now (get "nbf" payload) ≡ true)
    × (is_text ("https://" <> config.team_domain) (get "iss" payload) ≡ true)
    × (is_audience config.aud (get "aud" payload) ≡ true)
    × (is_email owner (get "email" payload) ≡ true)

both_ok : {E : Type 0} (m k : Result E (Unit {0})) → (m >> k) ≡ ok tt → (m ≡ ok tt) × (k ≡ ok tt)
both_ok (ok tt) k h = (refl, h)
both_ok (err e) k h = absurd (cc h)

not_raised : {E : Type 0} (b : Bool) (e : E) → raise_if (not b) e ≡ ok tt → b ≡ true
not_raised true e h = refl
not_raised false e h = absurd (cc h)

claims-HasClaims :
    (payload : Fields) (config : AccessConfig) (owner : String) (now : ℤ)
    → validate_claims payload config owner now ≡ ok tt
    → HasClaims payload config owner now
unfolding validate_claims
claims-HasClaims payload config owner now h =
    let (abcd, e) = both_ok _ _ h in
    let (abc, d) = both_ok _ _ abcd in
    let (ab, c) = both_ok _ _ abc in
    let (a, b) = both_ok _ _ ab in
    (not_raised _ _ a, not_raised _ _ b, not_raised _ _ c, not_raised _ _ d, not_raised _ _ e)

-- What is signed, under a key that the cache holds by the name that the token gives.
abbrev pub IsSigned : Codec → AccessConfig → String → ℤ → JwksCache → String → Type 0
IsSigned codec config owner now after token =
    (head : String) × (body : String) × (sign : String) × (header : Fields) × (payload : Fields)
    × (kid : String) × (key : Key) × (signature : List ℕ) × (split_on "." token
        ≡ head ∷ body ∷ sign ∷ [])
    × (decode_json_segment codec head ≡ some header)
    × (decode_json_segment codec body ≡ some payload)
    × (is_text "RS256" (get "alg" header) ≡ true)
    × (kid_of (get "kid" header) ≡ some kid)
    × (Dict.get kid after.keys ≡ some key)
    × (b64url_decode codec sign ≡ some signature)
    × (rsa_verify codec (codec.ascii (head <> "." <> body)) signature key.0 key.1 ≡ true)
    × HasClaims payload config owner now

judged-lem :
    (valid : Bool) (claims : Result Denied (Unit {0})) (cache : JwksCache)
    → (judged valid claims cache).0 ≡ ok tt
    → (valid ≡ true) × (claims ≡ ok tt)
judged-lem false claims cache h = absurd (cc h)
judged-lem true (ok tt) cache h = (refl, refl)
judged-lem true (err why) cache h = absurd (cc h)

judged_cache :
    (valid : Bool) (claims : Result Denied (Unit {0})) (cache : JwksCache)
    → (judged valid claims cache).1 ≡ cache
judged_cache false claims cache = refl
judged_cache true (ok u) cache = refl
judged_cache true (err why) cache = refl

module _ (codec : Codec) (config : AccessConfig) (owner : String) (now : ℤ) where
  signature-lem :
      (head body : String) (payload : Fields) (key : Key) (o : Option (List ℕ)) (cache : JwksCache)
      → (check_signature codec config owner now head body payload key o cache).0 ≡ ok tt
      → (signature : List ℕ) × (o ≡ some signature)
        × (rsa_verify codec (codec.ascii (head <> "." <> body)) signature key.0 key.1 ≡ true)
        × HasClaims payload config owner now
  unfolding check_signature
  signature-lem head body payload key none cache h = absurd (cc h)
  signature-lem head body payload (n, e) (some signature) cache h =
      let (valid, claims) = judged-lem _ _ cache h in
      (signature, refl, valid, claims-HasClaims payload config owner now claims)

  signature_cache :
      (head body : String) (payload : Fields) (key : Key) (o : Option (List ℕ)) (cache : JwksCache)
      → (check_signature codec config owner now head body payload key o cache).1 ≡ cache
  unfolding check_signature
  signature_cache head body payload key none cache = refl
  signature_cache head body payload (n, e) (some signature) cache = judged_cache _ _ cache

  key-lem :
      (head body sign : String) (payload : Fields) (f : Found)
      → (with_key codec config owner now head body sign payload f).0 ≡ ok tt
      → (key : Key) × (signature : List ℕ) × (f.0 ≡ ok (some key))
        × (b64url_decode codec sign ≡ some signature)
        × (rsa_verify codec (codec.ascii (head <> "." <> body)) signature key.0 key.1 ≡ true)
        × HasClaims payload config owner now
        × ((with_key codec config owner now head body sign payload f).1 ≡ f.1)
  unfolding with_key
  key-lem head body sign payload (err e, cache) h = absurd (cc h)
  key-lem head body sign payload (ok none, cache) h = absurd (cc h)
  key-lem head body sign payload (ok (some key), cache) h =
      let (signature, decoded, valid, claims) =
        signature-lem head body payload key (b64url_decode codec sign) cache h in
      (key, signature, refl, decoded, valid, claims, signature_cache head body payload key _ cache)

  kid-lem :
      (server : Server) (cache : JwksCache) (head body sign : String) (payload : Fields)
      (o : Option String)
      → (with_kid codec config owner now server cache head body sign payload o).0 ≡ ok tt
      → (kid : String) × (key : Key) × (signature : List ℕ) × (o ≡ some kid)
        × (Dict.get kid
              (with_kid codec config owner now server cache head body sign payload o).1.keys
            ≡ some key)
        × (b64url_decode codec sign ≡ some signature)
        × (rsa_verify codec (codec.ascii (head <> "." <> body)) signature key.0 key.1 ≡ true)
        × HasClaims payload config owner now
  kid-lem server cache head body sign payload none h = absurd (cc h)
  kid-lem server cache head body sign payload (some kid) h =
      let found = get_key codec server kid now cache in
      let (key, signature, named, decoded, valid, claims, same) =
        key-lem head body sign payload found h in
      let kept = (get_key-IsBounded codec server kid now cache).2 (some key) named in
      (
        kid,
        key,
        signature,
        refl,
        ap (λ (c : JwksCache). Dict.get kid c.keys) same ∙ sym kept.0,
        decoded,
        valid,
        claims,
      )

  objects-lem :
      (server : Server) (cache : JwksCache) (head body sign : String) (o p : Option Fields)
      → (with_objects codec config owner now server cache head body sign o p).0 ≡ ok tt
      → (header : Fields) × (payload : Fields) × (kid : String) × (key : Key) × (signature : List ℕ)
        × (o ≡ some header)
        × (p ≡ some payload)
        × (is_text "RS256" (get "alg" header) ≡ true)
        × (kid_of (get "kid" header) ≡ some kid)
        × (Dict.get kid (with_objects codec config owner now server cache head body sign o p).1.keys
            ≡ some key)
        × (b64url_decode codec sign ≡ some signature)
        × (rsa_verify codec (codec.ascii (head <> "." <> body)) signature key.0 key.1 ≡ true)
        × HasClaims payload config owner now
  objects-lem server cache head body sign none p h = absurd (cc h)
  objects-lem server cache head body sign (some header) none h = absurd (cc h)
  objects-lem server cache head body sign (some header) (some payload) h =
      elim (Bool-cases (is_text "RS256" (get "alg" header))) [
        | inr alg ↦ absurd (cc (rw alg at h))
        | inl alg ↦
            let (kid, key, signature, named, kept, decoded, valid, claims) =
              kid-lem server cache head body sign payload (kid_of (get "kid" header))
                (rw alg at h) in
            (
              header,
              payload,
              kid,
              key,
              signature,
              refl,
              refl,
              alg,
              named,
              rw alg kept,
              decoded,
              valid,
              claims,
            )
      ]

  parts-IsSigned :
      (server : Server) (cache : JwksCache) (token : String) (parts : List String)
      → split_on "." token ≡ parts
      → (with_parts codec config owner now server cache parts).0 ≡ ok tt
      → IsSigned codec config owner now
          (with_parts codec config owner now server cache parts).1
          token
  parts-IsSigned server cache token (head ∷ body ∷ sign ∷ []) e h =
      let (header, payload, kid, key, signature, dh, dp, alg, k, kept, decoded, valid, claims) =
        objects-lem server cache head body sign (decode_json_segment codec head)
          (decode_json_segment codec body) h in
      (
        head, body, sign, header, payload, kid, key, signature, e, dh, dp, alg, k, kept, decoded,
        valid, claims,
      )
  parts-IsSigned server cache token [] e h = absurd (cc h)
  parts-IsSigned server cache token (a ∷ []) e h = absurd (cc h)
  parts-IsSigned server cache token (a ∷ b ∷ []) e h = absurd (cc h)
  parts-IsSigned server cache token (a ∷ b ∷ c ∷ d ∷ rest) e h = absurd (cc h)

caught-lem : (v : Verified) → (caught v).0 ≡ ok true → (v.0 ≡ ok tt) × ((caught v).1 ≡ v.1)
caught-lem (ok tt, cache) h = (refl, refl)
caught-lem (err (Raised.denied why), cache) h = absurd (cc h)
caught-lem (err (Raised.escaped e), cache) h = absurd (cc h)

module _ (codec : Codec) (server : Server) (config : AccessConfig) (owner : String) (now : ℤ) where
  token-IsSigned :
      (cache : JwksCache) (o : Option String)
      → (token_checked codec server config owner now cache o).0 ≡ ok true
      → (token : String) × (o ≡ some token)
        × IsSigned codec config owner now
            (token_checked codec server config owner now cache o).1
            (strip token)
  unfolding verify_access_jwt
  token-IsSigned cache none h = absurd (cc h)
  token-IsSigned cache (some token) h = elim (Bool-cases (strip token == "")) [
    | inl e ↦ absurd (cc (rw e at h))
    | inr e ↦
        let (verified, same) =
          caught-lem (verify_access_jwt codec config owner now server cache (strip token))
            (rw e at h) in
        let signed =
          parts-IsSigned codec config owner now server cache (strip token) _ refl verified in
        (
          token,
          refl,
          rw e (subst (λ c. IsSigned codec config owner now c (strip token)) (sym same) signed),
        )
  ]

presents-lem :
    (owner : String) (o : Option String)
    → presents owner o ≡ true
    → (email : String) × (o ≡ some email) × (same_email email owner ≡ true)
presents-lem owner none h = absurd (cc h)
presents-lem owner (some email) h = (email, refl, ground arith)

owner-lem :
    (headers : Headers) (owner : String)
    → is_owner_request headers owner ≡ true
    → (email : String) × (header "Cf-Access-Authenticated-User-Email" headers ≡ some email)
      × (same_email email owner ≡ true)
unfolding is_owner_request
owner-lem headers owner h = elim (Bool-cases (owner == "")) [
  | inl e ↦ absurd (cc (rw e at h))
  | inr e ↦ presents-lem owner (header "Cf-Access-Authenticated-User-Email" headers) (rw e at h)
]

let_in :
    (b : Bool) (cache : JwksCache) (gate : Gate)
    → (if not b then (ok false, cache) else gate).0 ≡ ok true
    → (b ≡ true) × (gate.0 ≡ ok true) × ((if not b then (ok false, cache) else gate).1 ≡ gate.1)
let_in true cache gate h = (refl, h, refl)
let_in false cache gate h = absurd (cc h)

signed-IsAnswer :
    (codec : Codec) (config : AccessConfig) (owner : String) (now : ℤ) (server : Server)
    (after : JwksCache) (token : String)
    → IsSigned codec config owner now after token
    → IsPublished codec server after
    → IsAnswer codec server after.keys
signed-IsAnswer codec config owner now server after token signed (inr from) = from
signed-IsAnswer codec config owner now server after token signed (inl empty) =
    let (
      head, body, sign, top, payload, kid, key, signature, e, dh, dp, alg, k, kept, decoded, valid,
      claims,
    ) =
      signed in
    let missing : Dict.get kid after.keys ≡ none =
      ap (λ (keys : Dict Key). Dict.get kid keys) empty ∙ (unfold Dict.get in refl) in
    absurd (cc (kept, missing))

-- Where the cache has no keys yet, or those of one answer of the server, a request that is let in
-- names the owner in its header and carries a token that is signed, with RS256 and under the key
-- that the cache then holds by the token's key id, whose claims hold; and all the keys that the
-- cache then holds are those of one answer of the server.
pub authorized-IsSigned :
    (codec : Codec) (server : Server) (config : AccessConfig) (owner : String) (now : ℤ)
    (headers : Headers) (cache : JwksCache)
    → IsPublished codec server cache
    → (authorized codec server config owner now headers cache).0 ≡ ok true
    → ((email : String) × (header "Cf-Access-Authenticated-User-Email" headers ≡ some email)
        × (same_email email owner ≡ true))
      × ((token : String) × (header "Cf-Access-Jwt-Assertion" headers ≡ some token)
          × IsSigned codec config owner now
              (authorized codec server config owner now headers cache).1
              (strip token))
      × IsAnswer codec server (authorized codec server config owner now headers cache).1.keys
unfolding authorized
authorized-IsSigned codec server config owner now headers cache published h =
    let token = header "Cf-Access-Jwt-Assertion" headers in
    let gate = token_checked codec server config owner now cache token in
    let (is_owner, passed, same) = let_in (is_owner_request headers owner) cache gate h in
    let (value, presented, signed) =
      token-IsSigned codec server config owner now cache token passed in
    let shown = subst (λ c. IsSigned codec config owner now c (strip value)) (sym same) signed in
    (
      owner-lem headers owner is_owner,
      (value, presented, shown),
      signed-IsAnswer codec config owner now server
          (authorized codec server config owner now headers cache).1 (strip value) shown
          (authorized-IsPublished codec server config owner now headers cache published),
    )
