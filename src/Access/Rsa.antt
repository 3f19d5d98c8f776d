-- ===== src/Access/Rsa.antt =====
-- The check of an RSA signature, by the block that it must be of.
pub mod RoundTrip
pub mod Verified
use horus_harness.Prelude.{
  ℕ, zero, suc, ◌+◌, ◌-◌, ◌*◌, ◌%◌, String, Bool, true, false, Option, none, some, List, [], ◌∷◌,
  ◌++◌, ◌≡◌, refl,
}
use Prim.Native.Nat.{◌/◌}
use horus_harness.Prelude.{◌&&◌, ◌||◌, not, if◌then◌else◌, beq, leb, ltb, length}
use horus_harness.Access.{Codec}

-- `n.bit_length()`: a number has no more bits than it has units.
unfoldable pub bits : ℕ → ℕ → ℕ
bits zero n = 0
bits (suc fuel) n = elim (beq n 0) [ true ↦ 0 | false ↦ suc (bits fuel (n / 2)) ]

unfoldable pub bit_length : ℕ → ℕ
unfolding bits
bit_length n = bits n n

-- `(n.bit_length() + 7) // 8`
unfoldable pub byte_length : ℕ → ℕ
unfolding bit_length
byte_length n = (bit_length n + 7) / 8

-- `int.from_bytes(bs, "big")`
abbrev pub from_bytes_after : ℕ → List ℕ → ℕ
from_bytes_after n [] = n
from_bytes_after n (b ∷ bs) = from_bytes_after (n * 256 + b) bs

unfoldable pub from_bytes : List ℕ → ℕ
from_bytes bs = from_bytes_after 0 bs

-- `n.to_bytes(k, "big")` of a number that fits
unfoldable pub to_bytes : ℕ → ℕ → List ℕ
to_bytes zero n = []
to_bytes (suc k) n = to_bytes k (n / 256) ++ n % 256 ∷ []

-- `pow(b, e, n)`
unfoldable pub pow_mod : ℕ → ℕ → ℕ → ℕ
pow_mod b zero n = 1 % n
pow_mod b (suc e) n = b * pow_mod b e n % n

abbrev pub digest_info_prefix : List ℕ
digest_info_prefix =
    0x30 ∷ 0x31 ∷ 0x30 ∷ 0x0d ∷ 0x06 ∷ 0x09 ∷ 0x60 ∷ 0x86 ∷ 0x48 ∷ 0x01 ∷ 0x65 ∷ 0x03 ∷ 0x04 ∷ 0x02
    ∷ 0x01 ∷ 0x05 ∷ 0x00 ∷ 0x04 ∷ 0x20 ∷ []

-- `b"\xff" * n`
abbrev pub full_bytes : ℕ → List ℕ
full_bytes zero = []
full_bytes (suc n) = 0xff ∷ full_bytes n

-- `_emsa_pkcs1_v15_encode_sha256`; `none` is a key that is too small.
unfoldable pub emsa_encode : Codec → List ℕ → ℕ → Option (List ℕ)
emsa_encode codec message key_byte_length =
    let digest_info = digest_info_prefix ++ codec.sha256 message in
    if ltb key_byte_length (length digest_info + 3 + 8)
    then none
    else some ((0 ∷ 1 ∷ full_bytes (key_byte_length - length digest_info - 3)) ++ 0 ∷ digest_info)

-- `hmac.compare_digest`
unfoldable pub same_bytes : List ℕ → List ℕ → Bool
same_bytes [] [] = true
same_bytes (a ∷ xs) (b ∷ ys) = beq a b && same_bytes xs ys
same_bytes _ _ = false

abbrev pub is_expected : List ℕ → Option (List ℕ) → Bool
is_expected decrypted none = false
is_expected decrypted (some expected) = same_bytes decrypted expected

-- `_rsa_pkcs1_v15_verify`
unfoldable pub rsa_verify : Codec → List ℕ → List ℕ → ℕ → ℕ → Bool
unfolding byte_length from_bytes pow_mod to_bytes emsa_encode same_bytes
rsa_verify codec message signature n e =
    let k = byte_length n in
    if beq k 0 || not (beq (length signature) k)
    then false
    else let s = from_bytes signature in
      if leb n s
      then false
      else is_expected (to_bytes k (pow_mod s e n)) (emsa_encode codec message k)

test_byte_length : byte_length 65537 ≡ 3
unfolding byte_length
test_byte_length = refl

test_bytes : to_bytes 3 (from_bytes (1 ∷ 0 ∷ 1 ∷ [])) ≡ 1 ∷ 0 ∷ 1 ∷ []
unfolding to_bytes from_bytes
test_bytes = refl
