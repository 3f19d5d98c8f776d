-- ===== src/Access/Rsa/Verified.antt =====
-- What a signature that is verified is: the power of it is the encoded message, as numbers.
use horus_harness.Prelude.{
  ℕ, zero, suc, ◌+◌, ◌*◌, ◌<◌, ◌≤◌, Bool, true, false, Option, none, some, List, [], ◌∷◌, ◌≡◌, refl,
  ap, ◌∙◌, sym,
}
use horus_harness.Prelude.{arith, beq, leb, length, ◌||◌, not, if◌then◌else◌, Bool-cases, inl, inr}
use Prim.Native.Nat.{◌/◌, ◌^◌}
use native.Mathlib.Omega.{pow_step}
use native.Mathlib.Nat.{pow-le-pow_right, mod-lt}
use horus_harness.Access.{Codec}
use horus_harness.Access.Rsa.{
  bits, bit_length, byte_length, from_bytes, to_bytes, pow_mod, emsa_encode, same_bytes,
  is_expected, rsa_verify,
}
use horus_harness.Access.Rsa.RoundTrip.{from_bytes-to_bytes}

bits_enough : (fuel n : ℕ) → n ≤ fuel → n < 2 ^ bits fuel n
unfolding bits
bits_enough zero n h = omega arith
bits_enough (suc fuel) n h = elim (Bool-cases (beq n 0)) [
  | inl e ↦ rw (bits, e) (ground arith)
  | inr e ↦
      rw (bits, e)
        (omega (arith, pow_step 2 (bits fuel (n / 2)), bits_enough fuel (n / 2) (ground arith)))
]

double : (a b : ℕ) → a ≡ suc b → 2 ^ a ≡ 2 * 2 ^ b
double a b e = ap (λ k. 2 ^ k) e ∙ pow_step 2 b

four : (a b : ℕ) → a ≡ 4 + b → 2 ^ a ≡ 16 * 2 ^ b
four a b e = omega (
  arith,
  double a (3 + b) (omega arith),
  double (3 + b) (2 + b) (omega arith),
  double (2 + b) (1 + b) (omega arith),
  double (1 + b) b (omega arith),
)

eight : (m : ℕ) → 2 ^ (8 + m) ≡ 256 * 2 ^ m
eight m = omega (arith, four (8 + m) (4 + m) (omega arith), four (4 + m) m (omega arith))

power : (q : ℕ) → 2 ^ (8 * q) ≡ 256 ^ q
power zero = refl
power (suc q) =
    ap (λ m. 2 ^ m) (omega arith) ∙ eight (8 * q) ∙ omega (arith, pow_step 256 q, power q)

byte_length_enough : (n : ℕ) → n < 256 ^ byte_length n
unfolding byte_length bit_length
byte_length_enough n =
    let b = bits n n in
    omega (
      arith,
      bits_enough n n (omega arith),
      power ((b + 7) / 8),
      pow-le-pow_right {n = 2} (omega arith) {i = b} {j = 8 * ((b + 7) / 8)} (omega arith),
    )

pow_mod_less : (b e n : ℕ) → 0 < n → pow_mod b e n < n
unfolding pow_mod
pow_mod_less b zero n h = mod-lt 1 h
pow_mod_less b (suc e) n h = mod-lt (b * pow_mod b e n) h

same_bytes-lem : (xs ys : List ℕ) → same_bytes xs ys ≡ true → xs ≡ ys
unfolding same_bytes
same_bytes-lem [] [] h = refl
same_bytes-lem (x ∷ xs) (y ∷ ys) h = ground (arith, same_bytes-lem xs ys)
same_bytes-lem [] (y ∷ ys) h = absurd (cc h)
same_bytes-lem (x ∷ xs) [] h = absurd (cc h)

checked :
    (bad late : Bool) (b : Bool)
    → (if bad then false else if late then false else b) ≡ true
    → (bad ≡ false) × (late ≡ false) × (b ≡ true)
checked true late b h = absurd (cc h)
checked false true b h = absurd (cc h)
checked false false b h = (refl, refl, h)

expected_found :
    (decrypted : List ℕ) (o : Option (List ℕ))
    → is_expected decrypted o ≡ true
    → (expected : List ℕ) × (o ≡ some expected) × (decrypted ≡ expected)
expected_found decrypted none h = absurd (cc h)
expected_found decrypted (some expected) h = (expected, refl, same_bytes-lem decrypted expected h)

-- A signature that is verified has the length of the key and is less than the modulus, and its power
-- is the number of the block that encodes the message: the signature is of this message.
pub rsa_verify_power :
    (codec : Codec) (message signature : List ℕ) (n e : ℕ)
    → rsa_verify codec message signature n e ≡ true
    → (length signature ≡ byte_length n)
      × (from_bytes signature < n)
      × ((block : List ℕ) × (emsa_encode codec message (byte_length n) ≡ some block)
          × (pow_mod (from_bytes signature) e n ≡ from_bytes block))
unfolding rsa_verify
rsa_verify_power codec message signature n e h =
    let s = from_bytes signature in
    let k = byte_length n in
    let (fits, less, found) =
      checked (beq k 0 || not (beq (length signature) k)) (leb n s)
        (is_expected (to_bytes k (pow_mod s e n)) (emsa_encode codec message k)) h in
    let (block, encoded, same) =
      expected_found (to_bytes k (pow_mod s e n)) (emsa_encode codec message k) found in
    let below : s < n = ground arith in
    let bounded : pow_mod s e n < 256 ^ k =
      omega (arith, pow_mod_less s e n (omega arith), byte_length_enough n) in
    (
      ground arith,
      below,
      (block, encoded, sym (from_bytes-to_bytes k (pow_mod s e n) bounded) ∙ ap from_bytes same),
    )
