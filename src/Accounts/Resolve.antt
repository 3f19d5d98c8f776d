-- ===== src/Accounts/Resolve.antt =====
-- What a resolved account name stands for, and when a name is refused.
use horus_harness.Prelude.{String, ◌≡◌, refl, true, Option, none, some, List, [], ◌∷◌, arith}
use horus_harness.Prelude.{In, In-filter, filter-In, sym, ◌&&◌, ◌≢◌, ◌==◌, eq_iff, ◌⊎◌, inl, inr}
use horus_harness.Prelude.Text.{strip}
use horus_harness.Accounts.{AccountRef, AccountResolution, found, refused, ambiguous}
use horus_harness.Accounts.{resolve_account, by_alias, by_label, by_tokens, decide_matches, or_list}
use horus_harness.Accounts.{agent_pool, exact_matches, unordered_matches, name_tokens, valid_agent}
use horus_harness.Accounts.{label, slug, of_agent, first_of_two}

In-or_list : (r : AccountRef) (xs ys : List AccountRef) → In r (or_list xs ys) → In r xs ⊎ In r ys
In-or_list r [] ys m = inr m
In-or_list r (x ∷ xs) ys m = inl m

In-by_alias :
    (known : List AccountRef) (agent : Option String) (raw : String) (r : AccountRef)
    → In r (by_alias known agent raw)
    → In r known
unfolding by_alias
In-by_alias known agent raw r m = (In-filter _ r known m).0

In-by_label :
    (known : List AccountRef) (raw : String) (r : AccountRef)
    → In r (by_label known raw)
    → In r known
unfolding by_label
In-by_label known raw r m = (In-filter _ r known m).0

In-agent_pool :
    (known : List AccountRef) (agent : Option String) (r : AccountRef)
    → In r (agent_pool known agent)
    → In r known
unfolding agent_pool
In-agent_pool known agent r m = (In-filter _ r known m).0

In-exact_matches :
    (pool : List AccountRef) (tokens : List String) (r : AccountRef)
    → In r (exact_matches pool tokens)
    → In r pool
unfolding exact_matches
In-exact_matches pool tokens r m = (In-filter _ r pool m).0

In-unordered_matches :
    (pool : List AccountRef) (tokens : List String) (r : AccountRef)
    → In r (unordered_matches pool tokens)
    → In r pool
unfolding unordered_matches
In-unordered_matches pool tokens r m = (In-filter _ r pool m).0

In-token_matches :
    (pool : List AccountRef) (tokens : List String) (r : AccountRef)
    → In r (or_list (exact_matches pool tokens) (unordered_matches pool tokens))
    → In r pool
In-token_matches pool tokens r m =
    elim (In-or_list r (exact_matches pool tokens) (unordered_matches pool tokens) m) [
      | inl e ↦ In-exact_matches pool tokens r e
      | inr u ↦ In-unordered_matches pool tokens r u
    ]

In-by_tokens :
    (known : List AccountRef) (agent : Option String) (raw : String) (r : AccountRef)
    → In r (by_tokens known agent raw)
    → In r known
In-by_tokens known agent raw r m =
    let hinted = (name_tokens raw).0 in
    let pool = agent_pool known (first_of_two hinted (valid_agent agent)) in
    In-agent_pool known (first_of_two hinted (valid_agent agent)) r
      (In-token_matches pool (name_tokens raw).1 r (opened m))
  where
    opened :
        In r (by_tokens known agent raw)
        → In r (
            or_list
              (exact_matches
                (agent_pool known (first_of_two (name_tokens raw).0 (valid_agent agent)))
                (name_tokens raw).1)
              (unordered_matches
                (agent_pool known (first_of_two (name_tokens raw).0 (valid_agent agent)))
                (name_tokens raw).1))
    opened m = unfold by_tokens in m

decided : (rs : List AccountRef) (r : AccountRef) → decide_matches rs ≡ some (found r) → rs ≡ r ∷ []
decided [] r h = ground arith
decided (x ∷ []) r h = ground arith
decided (x ∷ y ∷ rs) r h = ground arith

In-one : (rs : List AccountRef) (r : AccountRef) → decide_matches rs ≡ some (found r) → In r rs
In-one rs r h = rw (decided rs r h) (inl refl)

-- A resolved name stands for a configured account, whichever strategy found it.
pub In-resolve_account :
    (known : List AccountRef) (agent : Option String) (text : String) (r : AccountRef)
    → resolve_account known agent text ≡ found r
    → In r known
unfolding resolve_account
In-resolve_account [] agent text r h = ground arith
In-resolve_account (k ∷ ks) agent text r h = ground (
  arith,
  In-one (by_alias (k ∷ ks) agent (strip text)) r,
  In-one (by_label (k ∷ ks) (strip text)) r,
  In-one (by_tokens (k ∷ ks) agent (strip text)) r,
  In-by_alias (k ∷ ks) agent (strip text) r,
  In-by_label (k ∷ ks) (strip text) r,
  In-by_tokens (k ∷ ks) agent (strip text) r,
)

of_one : (rs : List AccountRef) (r s : AccountRef) → rs ≡ r ∷ [] → In s rs → s ≡ r
of_one [] r s h m = absurd m
of_one (x ∷ xs) r s h m = ground arith

alias_decides :
    (rs : List AccountRef) (s : AccountRef)
    → In s rs
    → (a : AccountResolution) × (decide_matches rs ≡ some a)
alias_decides [] s m = absurd m
alias_decides (x ∷ []) s m = (found x, refl)
alias_decides (x ∷ y ∷ rs) s m = (refused (ambiguous (x ∷ y ∷ rs)), refl)

reads_as :
    (s : AccountRef) (raw : String) → slug s.alias ≡ slug raw → (slug s.alias == slug raw) ≡ true
reads_as s raw e = (eq_iff (slug s.alias) (slug raw)).1 e

by_alias-In :
    (known : List AccountRef) (agent : Option String) (raw : String) (s : AccountRef)
    → In s known
    → of_agent (valid_agent agent) s ≡ true
    → slug s.alias ≡ slug raw
    → In s (by_alias known agent raw)
unfolding by_alias
by_alias-In known agent raw s m a e =
    filter-In (λ r. of_agent (valid_agent agent) r && slug r.alias == slug raw) s known m
      (rw (a, reads_as s raw e))

-- No guess: where a name is resolved, every account of the caller's agent whose alias reads as
-- that name is the account that it was resolved to.
pub resolve_account_unique :
    (known : List AccountRef) (agent : Option String) (text : String) (r s : AccountRef)
    → resolve_account known agent text ≡ found r
    → In s known
    → of_agent (valid_agent agent) s ≡ true
    → slug s.alias ≡ slug (strip text)
    → s ≡ r
unfolding resolve_account
resolve_account_unique [] agent text r s h m a e = absurd m
resolve_account_unique (k ∷ ks) agent text r s h m a e =
    let matches = by_alias (k ∷ ks) agent (strip text) in
    let m' = by_alias-In (k ∷ ks) agent (strip text) s m a e in
    let (answer, q) = alias_decides matches s m' in
    of_one matches r s (decided matches r (ground arith)) m'

-- A label is not always a spelling of its own account: where another account's alias reads as it,
-- the name is never resolved to the account whose label it is.
pub resolve_account_shadowed :
    (known : List AccountRef) (c s : AccountRef)
    → In s known
    → slug s.alias ≡ slug (strip (label c))
    → c ≢ s
    → resolve_account known none (label c) ≢ found c
resolve_account_shadowed known c s m e differ h =
    differ (sym (resolve_account_unique known none (label c) c s h m refl e))
