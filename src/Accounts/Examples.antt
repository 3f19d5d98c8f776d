-- ===== src/Accounts/Examples.antt =====
-- Names resolved against a claude and a codex account.
use horus_harness.Prelude.{◌≡◌, refl, ◌≢◌, none, some, List, [], ◌∷◌, inl, inr, arith, ap}
use horus_harness.Accounts.{
  AccountRef, found, refused, ambiguous, resolve_account, known_accounts, slug,
}
use horus_harness.Accounts.Resolve.{resolve_account_unique}
use horus_harness.Prelude.Text.{strip}
use horus_harness.Prelude.{eq_iff}

abbrev claude_personal : AccountRef
claude_personal = record { agent = "claude"; alias = "personal" }

abbrev codex_personal : AccountRef
codex_personal = record { agent = "codex"; alias = "personal" }

abbrev codex_shadow : AccountRef
codex_shadow = record { agent = "codex"; alias = "claude-personal" }

abbrev known : List AccountRef
known = claude_personal ∷ codex_personal ∷ []

known_runs :
    known_accounts ("work" ∷ "personal" ∷ []) ("personal" ∷ [])
    ≡ record { agent = "claude"; alias = "personal" }
      ∷ record { agent = "claude"; alias = "work" }
      ∷ codex_personal
      ∷ []
unfolding known_accounts
known_runs = refl

spoken : resolve_account known none "Personal claude acc" ≡ found claude_personal
unfolding resolve_account
spoken = refl

both : resolve_account known none "personal" ≡ refused (ambiguous known)
unfolding resolve_account
both = refl

contextual : resolve_account known (some "codex") "personal" ≡ found codex_personal
unfolding resolve_account
contextual = refl

resolve_account_unique_example : codex_personal ≡ codex_personal
unfolding slug strip
resolve_account_unique_example =
    resolve_account_unique known (some "codex") "personal" codex_personal codex_personal contextual
      (inr (inl refl)) refl refl

abbrev shadowed : List AccountRef
shadowed = claude_personal ∷ codex_shadow ∷ []

agents_differ : claude_personal ≢ codex_shadow
agents_differ e = ground (arith, eq_iff "claude" "codex", ap (λ (r : AccountRef). r.agent) e)
