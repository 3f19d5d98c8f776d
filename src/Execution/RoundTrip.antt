-- ===== src/Execution/RoundTrip.antt =====
-- A request is read back from its payload.
use horus_harness.Prelude.{String, Bool, true, Option, none, some, ◌≡◌, refl, ok, member}
use horus_harness.Execution.{RunRequest, payload, from_payload, postures, nullable, text_or_none}

read_nullable : (name : String) (o : Option String) → text_or_none name (some (nullable o)) ≡ ok o
read_nullable name none = refl
read_nullable name (some s) = refl

-- A request with a posture that there is, for a directory that there is, is read back from its payload
-- as it was written.
pub from_payload-payload :
    (is_dir : String → Bool) (r : RunRequest)
    → member r.posture postures ≡ true
    → is_dir r.project ≡ true
    → from_payload is_dir (some (payload r)) ≡ ok r
unfolding from_payload payload
from_payload-payload is_dir r known there =
    rw
      (
        known,
        read_nullable "account" r.account,
        read_nullable "model" r.model,
        read_nullable "effort" r.effort,
        read_nullable "resume" r.resume,
        read_nullable "dispatch_base_sha" r.dispatch_base_sha,
        read_nullable "batch" r.batch,
        there,
      )
      refl
