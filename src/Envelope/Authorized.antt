-- ===== src/Envelope/Authorized.antt =====
-- What the wall lets through, said without the wall.
use horus_harness.Prelude.{
  ℕ, String, ◌≡◌, ◌↔◌, ◌<◌, ◌≤◌, ◌⊎◌, true, false, Option, none, some, arith,
}
use horus_harness.Prelude.{
  Bool-cases, Option-cases, ltb, In, any, member, eq_iff, List, [], ◌∷◌, refl, inl, inr,
}
use horus_harness.Calendar.{Calendar}
use horus_harness.Datums.Tiers.{normalize_tier}
use horus_harness.Envelope.{Envelope, DispatchRequest, Disk, is_expired, authorizes_card}
use horus_harness.Envelope.Ledger.{Spend, spend}
use horus_harness.Envelope.Wall.{
  authorized, validate, check_bounds, account_allowed, tier_allowed, effort_allowed, floor_met,
  attempts_of, same_tier,
}

pub member_iff : (s : String) (ts : List String) → (member s ts ≡ true) ↔ In s ts
member_iff s [] = ground arith
member_iff s (t ∷ ts) = ground (arith, member_iff s ts, eq_iff s t)

-- The tiers that two labels name are the same one.
abbrev pub SameTier : String → String → Type 0
SameTier a b = (t : String) × (normalize_tier a ≡ some t) × (normalize_tier b ≡ some t)

-- Some label of the list names the tier that the label names.
abbrev pub Names : String → List String → Type 0
Names tier [] = ⊥
Names tier (t ∷ ts) = SameTier tier t ⊎ Names tier ts

same_tier_iff :
    (a b : Option String) → (same_tier a b ≡ true) ↔ ((t : String) × (a ≡ some t) × (b ≡ some t))
same_tier_iff none b = (λ h. ground arith, λ h. ground arith)
same_tier_iff (some a) none = (λ h. ground arith, λ h. ground arith)
same_tier_iff (some a) (some b) =
    (λ h. (a, refl, ground (arith, eq_iff a b)), λ h. ground (arith, eq_iff a b))

Names-iff :
    (tier : String) (ts : List String)
    → (any (λ t. same_tier (normalize_tier tier) (normalize_tier t)) ts ≡ true) ↔ Names tier ts
Names-iff tier [] = ground arith
Names-iff tier (t ∷ ts) =
    ground (arith, Names-iff tier ts, same_tier_iff (normalize_tier tier) (normalize_tier t))

-- Every bound of the envelope holds of the request.
pub record IsWithin (e : Envelope) (r : DispatchRequest) (remaining : Option ℕ) (used : Spend)
    : Type 0 where
  pub card : In r.card e.cards
  pub account : (a : String) × (r.account ≡ some a) × In a e.accounts
  pub tier : Names r.tier e.tiers
  pub effort : (e.efforts ≡ []) ⊎ (r.effort ≡ "") ⊎ In r.effort e.efforts
  pub attempts : attempts_of used r.card < e.max_attempts_per_card
  pub dispatches : used.dispatches_today < e.max_dispatches_per_day
  pub floor : (e.usage_floor ≡ 0) ⊎ ((n : ℕ) × (remaining ≡ some n) × (e.usage_floor ≤ n))

account_iff :
    (e : Envelope) (o : Option String)
    → (account_allowed e o ≡ true) ↔ ((a : String) × (o ≡ some a) × In a e.accounts)
unfolding account_allowed
account_iff e none = (λ h. ground arith, λ h. ground arith)
account_iff e (some a) = (
  λ h. (a, refl, (member_iff a e.accounts).0 h),
  λ h. ground (arith, (member_iff a e.accounts).1),
)

tier_iff : (e : Envelope) (tier : String) → (tier_allowed e tier ≡ true) ↔ Names tier e.tiers
unfolding tier_allowed
tier_iff e tier = Names-iff tier e.tiers

effort-In :
    (efforts : List String) (effort : String)
    → ((efforts ≡ []) ⊎ (effort ≡ "") ⊎ In effort efforts)
      ↔ ((efforts ≡ []) ⊎ (effort ≡ "") ⊎ (member effort efforts ≡ true))
effort-In efforts effort = ground (arith, member_iff effort efforts)

effort_iff :
    (e : Envelope) (effort : String)
    → (effort_allowed e effort ≡ true) ↔ ((e.efforts ≡ []) ⊎ (effort ≡ "") ⊎ In effort e.efforts)
unfolding effort_allowed
effort_iff e effort = ground (arith, member_iff effort e.efforts, eq_iff effort "")

floor_iff :
    (floor : ℕ) (o : Option ℕ)
    → (floor_met floor o ≡ true) ↔ ((floor ≡ 0) ⊎ ((n : ℕ) × (o ≡ some n) × (floor ≤ n)))
unfolding floor_met
floor_iff floor none = ground arith
floor_iff floor (some n) = (
  λ h. elim (Bool-cases (ltb 0 floor)) [
    | inl pos ↦ inr (n, refl, ground arith)
    | inr zero ↦ inl (ground arith)
  ],
  λ h. ground arith,
)

check_bounds_iff :
    (e : Envelope) (r : DispatchRequest) (remaining : Option ℕ) (used : Spend)
    → (check_bounds e r remaining used ≡ authorized) ↔ IsWithin e r remaining used
unfolding check_bounds authorizes_card
check_bounds_iff e r remaining used = (
  λ h. record {
    card = (member_iff r.card e.cards).0 (ground arith);
    account = (account_iff e r.account).0 (ground arith);
    tier = (tier_iff e r.tier).0 (ground arith);
    effort = (effort_iff e r.effort).0 (ground arith);
    attempts = ground arith;
    dispatches = ground arith;
    floor = (floor_iff e.usage_floor remaining).0 (ground arith);
  },
  λ w. ground (
    arith,
    (member_iff r.card e.cards).1 w.card,
    (account_iff e r.account).1 w.account,
    (tier_iff e r.tier).1 w.tier,
    (effort_iff e r.effort).1 w.effort,
    (floor_iff e.usage_floor remaining).1 w.floor,
    w.attempts,
    w.dispatches,
  ),
)

-- Live through the end of its expiry day.
abbrev pub IsLive : Calendar → Envelope → ℕ → Type 0
IsLive cal e today = (d : ℕ) × (cal.from_iso e.expires ≡ some d) × (today ≤ d)

IsLive-iff :
    (cal : Calendar) (e : Envelope) (today : ℕ)
    → (is_expired cal e today ≡ some false) ↔ IsLive cal e today
unfolding is_expired
IsLive-iff cal e today = elim (Option-cases (cal.from_iso e.expires)) [
  | inl bad ↦ (λ h. ground arith, λ (d, q, le). ground arith)
  | inr (d, good) ↦ (λ h. (d, good, ground arith), λ (d', q, le). ground arith)
]

-- The wall authorizes a dispatch exactly when the envelope is not revoked, its last day is not
-- past, and the card, the account, the tier, the effort, the attempts and dispatches spent so far,
-- and the capacity that is left are each within its bounds.
pub validate_iff :
    (cal : Calendar) (disk : Disk) (e : Envelope) (r : DispatchRequest) (remaining : Option ℕ)
    (now : cal.Instant)
    → (validate cal disk e r remaining now ≡ authorized) ↔ (
        (e.revoked ≡ false)
        × IsLive cal e (cal.day now)
        × IsWithin e r remaining (spend cal disk e.name now))
unfolding validate
validate_iff cal disk e r remaining now =
    let used = spend cal disk e.name now in
    let bounds = check_bounds_iff e r remaining used in
    let live = IsLive-iff cal e (cal.day now) in
    (
      λ h. (ground arith, live.0 (ground arith), bounds.0 (ground arith)),
      λ (alive, l, w). rw (alive, live.1 l) (bounds.1 w),
    )
