-- ===== src/Access/Examples.antt =====
-- A request of the owner, with a token that is signed under the exponent 1, where a signature is the
-- block that it encodes. Segments are decoded by their first letters.
use horus_harness.Prelude.{
  ℕ, String, true, Option, none, some, List, [], ◌∷◌, ◌++◌, ◌==◌, ◌≡◌, refl, if◌then◌else◌, beq, ok,
  inl, length, ◌<◌,
}
use horus_harness.Prelude.Dict
use horus_harness.Prelude.Integers.{pos}
use horus_harness.Prelude.Text.{starts_with, strip}
use horus_harness.Access.{
  Json, text, number, float, nan, array, object, nil, cons, end, field, Codec,
}
use horus_harness.Access.Rsa.{
  full_bytes, digest_info_prefix, from_bytes, byte_length, pow_mod, emsa_encode, rsa_verify,
}
use horus_harness.Access.Rsa.Verified.{rsa_verify_power}
use horus_harness.Access.Jwks.{JwksCache, Server, get_key}
use horus_harness.Access.Jwks.Fetches.{IsBounded, get_key-IsBounded}
use horus_harness.Access.Token.{
  AccessConfig, Headers, header, is_past, is_current, authorized, same_email,
}
use horus_harness.Access.Token.Published.{IsAnswer}
use horus_harness.Access.Token.Sound.{IsSigned, authorized-IsSigned}

abbrev zeros : List ℕ
zeros = 0 ∷ 0 ∷ 0 ∷ 0 ∷ 0 ∷ 0 ∷ 0 ∷ 0 ∷ []

abbrev digest : List ℕ
digest = zeros ++ zeros ++ zeros ++ zeros

abbrev block : List ℕ
block = (0 ∷ 1 ∷ full_bytes 8) ++ 0 ∷ (digest_info_prefix ++ digest)

abbrev modulus : List ℕ
modulus = 1 ∷ full_bytes 61

abbrev header_json : Json
header_json = object (field "alg" (text "RS256") (field "kid" (text "k1") end))

abbrev payload_json : Json
payload_json = object (
    field "exp" (number (pos 1000)) (
      field "iss" (text "https://team.test")
        (field "aud" (array (cons (text "aud1") nil)) (field "email" (text "Owner@x.test") end))))

abbrev decode : String → Option (List ℕ)
unfolding starts_with
decode s =
    if starts_with s "h"
    then some (1 ∷ [])
    else if starts_with s "p"
    then some (2 ∷ [])
    else if starts_with s "s"
    then some block
    else if starts_with s "n"
    then some modulus
    else some (1 ∷ [])

abbrev loads : List ℕ → Option Json
loads [] = none
loads (b ∷ bs) = if beq b 1 then some header_json else some payload_json

abbrev codec : Codec
codec = record { b64decode = decode; loads = loads; sha256 = λ m. digest; ascii = λ s. [] }

abbrev jwks : Json
jwks = object (
    field "keys"
      (array (
        cons
          (object (
            field "kty" (text "RSA")
              (field "kid" (text "k1") (field "n" (text "n") (field "e" (text "e") end)))))
          nil))
      end)

abbrev server : Server
server = record { answer = λ k. ok jwks; time = λ k. pos 500 }

abbrev config : AccessConfig
config = record { team_domain = "team.test"; aud = "aud1"; jwks_url = "https://team.test/certs" }

abbrev values : String → Option String
values name =
    if name == "Cf-Access-Authenticated-User-Email"
    then some "owner@x.test "
    else if name == "Cf-Access-Jwt-Assertion"
    then some "h.p.s"
    else none

abbrev headers : Headers
headers = some values

abbrev cold : JwksCache
cold = record { keys = []; fetched_at = pos 0; fetches = 0 }

verifies : rsa_verify codec [] block (from_bytes modulus) 1 ≡ true
unfolding rsa_verify from_bytes
verifies = refl

rsa_verify_power_example :
    (length block ≡ byte_length (from_bytes modulus))
    × (from_bytes block < from_bytes modulus)
    × ((expected : List ℕ) × (emsa_encode codec [] (byte_length (from_bytes modulus))
          ≡ some expected)
        × (pow_mod (from_bytes block) 1 (from_bytes modulus) ≡ from_bytes expected))
rsa_verify_power_example = rsa_verify_power codec [] block (from_bytes modulus) 1 verifies

-- A NaN is never past.
test_nan : is_current (pos 1000000) (float nan) ≡ true
unfolding is_past
test_nan = refl

get_key-IsBounded_example : IsBounded "k1" cold (get_key codec server "k1" (pos 500) cold)
get_key-IsBounded_example = get_key-IsBounded codec server "k1" (pos 500) cold

lets_in : (authorized codec server config "owner@x.test" (pos 500) headers cold).0 ≡ ok true
unfolding authorized Dict.get Dict.insert decode
lets_in = refl

authorized-IsSigned_example :
    ((email : String) × (header "Cf-Access-Authenticated-User-Email" headers ≡ some email)
      × (same_email email "owner@x.test" ≡ true))
    × ((token : String) × (header "Cf-Access-Jwt-Assertion" headers ≡ some token)
        × IsSigned codec config "owner@x.test"
            (pos 500)
            (authorized codec server config "owner@x.test" (pos 500) headers cold).1
            (strip token))
    × IsAnswer codec server
        (authorized codec server config "owner@x.test" (pos 500) headers cold).1.keys
authorized-IsSigned_example =
    authorized-IsSigned codec server config "owner@x.test" (pos 500) headers cold (inl refl) lets_in
