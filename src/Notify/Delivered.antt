-- ===== src/Notify/Delivered.antt =====
-- When a push is delivered, and that each has one outcome.
use horus_harness.Prelude.{true, false, Option, none, some}
use horus_harness.Prelude.{◌≡◌, ◌⊎◌, ok}
use horus_harness.Prelude.{is_some}
use horus_harness.Notify.{EscalationResult, Sent}

-- Delivered, skipped or in error, and only one of these.
abbrev pub IsSettled : EscalationResult → Type 0
IsSettled r =
    ((r.delivered ≡ true) × (r.skipped ≡ none) × (r.error ≡ none))
    ⊎ ((r.delivered ≡ false) × (is_some r.skipped ≡ true) × (r.error ≡ none))
    ⊎ ((r.delivered ≡ false) × (r.skipped ≡ none) × (is_some r.error ≡ true))

-- What is sent is delivered just if the sink is known and its call does not raise.
abbrev IsSent : Option (Sent) → Type 0
IsSent o = o ≡ some (ok tt)
