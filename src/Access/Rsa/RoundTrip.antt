-- ===== src/Access/Rsa/RoundTrip.antt =====
-- Bytes and numbers: `int.from_bytes` reads what `int.to_bytes` writes.
use horus_harness.Prelude.{
  ℕ, zero, suc, ◌+◌, ◌*◌, ◌%◌, ◌<◌, List, [], ◌∷◌, ◌++◌, ◌≡◌, refl, ◌∙◌, arith,
}
use Prim.Native.Nat.{◌/◌, ◌^◌}
use native.Mathlib.Omega.{pow_step}
use horus_harness.Access.Rsa.{from_bytes, from_bytes_after, to_bytes}

from_bytes-append :
    (n b : ℕ) (bs : List ℕ) → from_bytes_after n (bs ++ b ∷ []) ≡ from_bytes_after n bs * 256 + b
from_bytes-append n b [] = refl
from_bytes-append n b (c ∷ bs) = from_bytes-append (n * 256 + c) b bs

quotient : (k x : ℕ) → x < 256 ^ suc k → x / 256 < 256 ^ k
quotient k x h = omega (arith, pow_step 256 k)

-- A number that fits in so many bytes is read back from them.
pub from_bytes-to_bytes : (k x : ℕ) → x < 256 ^ k → from_bytes (to_bytes k x) ≡ x
unfolding from_bytes to_bytes
from_bytes-to_bytes zero x h = omega arith
from_bytes-to_bytes (suc k) x h =
    from_bytes-append 0 (x % 256) (to_bytes k (x / 256))
    ∙ omega (arith, from_bytes-to_bytes k (x / 256) (quotient k x h))
