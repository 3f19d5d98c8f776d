-- ===== src/Envelope/Wall.antt =====
-- `validate`, the wall that every unattended dispatch runs into, `revoke`, and the dispatch that
-- horus/cli.py makes of `validate` and `record_dispatch`.
use horus_harness.Prelude.{ℕ, String, Bool, true, false, Option, none, some, List, [], ◌∷◌}
use horus_harness.Prelude.{◌==◌, if◌then◌else◌, member, leb, ltb, any, not, ◌||◌}
use horus_harness.Prelude.Dict
use horus_harness.Calendar.{Calendar}
use horus_harness.Datums.Tiers.{normalize_tier}
use horus_harness.Envelope.{
  Envelope, DispatchRequest, Disk, or_default, is_expired, load, write, authorizes_card,
}
use horus_harness.Envelope.Ledger.{Spend, spend, record_dispatch}

-- The machine-readable names of the bounds; the messages are not modelled.
pub data Bound : Type 0 where
  revoked expired card_whitelist account_set tier_allow_list effort_allow_list : Bound
  attempts_per_card dispatches_per_day usage_floor : Bound

-- `raised` is the `ValueError` of an expiry that is no date.
pub data Verdict : Type 0 where
  authorized raised : Verdict
  refused : Bound → Verdict

unfoldable pub account_allowed : Envelope → Option String → Bool
account_allowed e none = false
account_allowed e (some a) = member a e.accounts

abbrev pub same_tier : Option String → Option String → Bool
same_tier (some a) (some b) = a == b
same_tier _ _ = false

unfoldable pub tier_allowed : Envelope → String → Bool
unfolding normalize_tier
tier_allowed e tier = any (λ t. same_tier (normalize_tier tier) (normalize_tier t)) e.tiers

abbrev is_empty : List String → Bool
is_empty [] = true
is_empty (_ ∷ _) = false

unfoldable pub effort_allowed : Envelope → String → Bool
effort_allowed e effort = is_empty e.efforts || effort == "" || member effort e.efforts

-- The floor is opt-in, and an unknown capacity is below any floor.
unfoldable pub floor_met : ℕ → Option ℕ → Bool
floor_met floor remaining =
    not (ltb 0 floor) || elim remaining [ none ↦ false | some n ↦ not (ltb n floor) ]

unfoldable pub attempts_of : Spend → String → ℕ
attempts_of used card = or_default (Dict.get card used.attempts_by_card) 0

-- The checks after the expiry, the most fundamental first.
unfoldable pub check_bounds : Envelope → DispatchRequest → Option ℕ → Spend → Verdict
unfolding authorizes_card account_allowed tier_allowed effort_allowed floor_met attempts_of
check_bounds e request usage_remaining used =
    if not (authorizes_card e request.card)
    then refused card_whitelist
    else if not (account_allowed e request.account)
    then refused account_set
    else if not (tier_allowed e request.tier)
    then refused tier_allow_list
    else if not (effort_allowed e request.effort)
    then refused effort_allow_list
    else if leb e.max_attempts_per_card (attempts_of used request.card)
    then refused attempts_per_card
    else if leb e.max_dispatches_per_day used.dispatches_today
    then refused dispatches_per_day
    else if floor_met e.usage_floor usage_remaining
    then authorized
    else refused usage_floor

module _ (cal : Calendar) where
  unfoldable pub validate : Disk → Envelope → DispatchRequest → Option ℕ → cal.Instant → Verdict
  unfolding check_bounds is_expired spend
  validate disk e request usage_remaining now =
      if e.revoked then refused revoked else elim (is_expired cal e (cal.day now)) [
        | none ↦ raised
        | some true ↦ refused expired
        | some false ↦ check_bounds e request usage_remaining (spend cal disk e.name now)
      ]

  unfoldable pub revoke : Disk → String → cal.Instant → Option Envelope × Disk
  unfolding load write
  revoke disk name now = elim (load cal disk name) [
    | none ↦ (none, disk)
    | some e ↦
        let grounded = record e { revoked = true; revoked_at = cal.stamp now } in
        (some grounded, write disk grounded)
  ]

  -- An unattended launch: the envelope, the request that the card and the arguments make, the
  -- capacity that is read, and the two times at which the clock is read.
  pub record Attempt : Type 0 where
    pub envelope : String
    pub request : DispatchRequest
    pub usage_remaining : Option ℕ
    pub session_id : String
    pub checked_at : cal.Instant
    pub recorded_at : cal.Instant

  -- No readable envelope, a refusal and an exception all end the launch before it is recorded.
  unfoldable pub dispatch : Disk → Attempt → Disk
  unfolding load validate record_dispatch
  dispatch disk a = elim (load cal disk a.envelope) [
    | none ↦ disk
    | some e ↦ elim (validate disk e a.request a.usage_remaining a.checked_at) [
      | authorized ↦ record_dispatch cal disk e.name a.request a.session_id a.recorded_at
      | _ ↦ disk
    ]
  ]

  unfoldable pub dispatch_all : Disk → List Attempt → Disk
  unfolding dispatch
  dispatch_all disk [] = disk
  dispatch_all disk (a ∷ rest) = dispatch_all (dispatch disk a) rest
