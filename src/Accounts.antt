-- ===== src/Accounts.antt =====
-- horus/config.py: naming an isolated account. `resolve_account` reads a human name as exactly one
-- configured account, or refuses.
pub mod Resolve
pub mod Examples
use horus_harness.Prelude.{String, Bool, true, false, Option, none, some, List, [], ◌∷◌, ◌++◌, map}
use horus_harness.Prelude.{◌==◌, ◌&&◌, ◌||◌, not, if◌then◌else◌, member, filter, sorted}
use horus_harness.Prelude.Text.{◌<>◌, strip, lower, words, join, text_le}

abbrev pub agent_names : List String
agent_names = "claude" ∷ "codex" ∷ []

-- Words that carry no identity.
abbrev pub account_noise : List String
account_noise =
    "acc" ∷ "account" ∷ "accounts" ∷ "the" ∷ "my" ∷ "a" ∷ "an" ∷ "for" ∷ "on" ∷ "under" ∷ "s" ∷ []

pub record AccountRef : Type 0 where
  pub agent : String
  pub alias : String

unfoldable pub label : AccountRef → String
unfolding ◌<>◌
label r = r.agent <> "-" <> r.alias

-- Why a name is refused; each is a message of the source.
pub data AccountError : Type 0 where
  no_name none_configured unknown : AccountError
  ambiguous : List AccountRef → AccountError

pub data AccountResolution : Type 0 where
  found : AccountRef → AccountResolution
  refused : AccountError → AccountResolution

-- From the aliases that have an isolated directory, and those that have a home.
unfoldable pub known_accounts : List String → List String → List AccountRef
unfolding sorted
known_accounts claude codex =
    map (λ a. record { agent = "claude"; alias = a }) (sorted text_le claude)
    ++ map (λ a. record { agent = "codex"; alias = a }) (sorted text_le codex)

name_tokens_from : Option String → List String → Option String × List String
name_tokens_from agent [] = (agent, [])
name_tokens_from none (t ∷ ts) =
    let hint = name_tokens_from (some t) ts in
    let (agent, rest) = name_tokens_from none ts in
    if member t agent_names
    then hint
    else (agent, if member t account_noise then rest else t ∷ rest)
name_tokens_from (some a) (t ∷ ts) =
    let (agent, rest) = name_tokens_from (some a) ts in
    (agent, if member t account_noise then rest else t ∷ rest)

unfoldable pub name_tokens : String → Option String × List String
unfolding name_tokens_from lower words
name_tokens text = name_tokens_from none (words (lower text))

unfoldable pub alias_tokens : String → List String
unfolding lower words
alias_tokens alias = words (lower alias)

unfoldable pub slug : String → String
unfolding lower words join
slug text = join "-" (words (lower text))

abbrev pub same_tokens : List String → List String → Bool
same_tokens [] [] = true
same_tokens (s ∷ ss) (t ∷ ts) = s == t && same_tokens ss ts
same_tokens _ _ = false

-- `_resolve`: one match is the answer, more are refused, none leaves the question open.
abbrev pub decide_matches : List AccountRef → Option AccountResolution
decide_matches [] = none
decide_matches (r ∷ []) = some (found r)
decide_matches rs = some (refused (ambiguous rs))

-- The agent that the caller's context names, where it is one.
abbrev pub valid_agent : Option String → Option String
valid_agent none = none
valid_agent (some a) = if member a agent_names then some a else none

abbrev pub of_agent : Option String → AccountRef → Bool
of_agent none r = true
of_agent (some a) r = r.agent == a

abbrev pub first_of_two : Option String → Option String → Option String
first_of_two none b = b
first_of_two (some a) b = some a

abbrev or_resolution :
    Option AccountResolution → Option AccountResolution → Option AccountResolution
or_resolution none b = b
or_resolution (some a) b = some a

abbrev or_refused : Option AccountResolution → AccountResolution
or_refused none = refused unknown
or_refused (some a) = a

-- The strategies, the most literal first.
unfoldable pub by_alias : List AccountRef → Option String → String → List AccountRef
unfolding slug
by_alias known agent raw =
    filter (λ r. of_agent (valid_agent agent) r && slug r.alias == slug raw) known

unfoldable pub by_label : List AccountRef → String → List AccountRef
unfolding slug label
by_label known raw = filter (λ r. label r == slug raw) known

unfoldable pub agent_pool : List AccountRef → Option String → List AccountRef
agent_pool known agent = filter (of_agent agent) known

unfoldable pub exact_matches : List AccountRef → List String → List AccountRef
unfolding alias_tokens
exact_matches pool tokens = filter (λ r. same_tokens (alias_tokens r.alias) tokens) pool

unfoldable pub unordered_matches : List AccountRef → List String → List AccountRef
unfolding alias_tokens sorted
unordered_matches pool tokens =
    filter (λ r. same_tokens (sorted text_le (alias_tokens r.alias)) (sorted text_le tokens)) pool

abbrev pub or_list : List AccountRef → List AccountRef → List AccountRef
or_list [] rest = rest
or_list (r ∷ rs) rest = r ∷ rs

unfoldable pub by_tokens : List AccountRef → Option String → String → List AccountRef
unfolding name_tokens agent_pool exact_matches unordered_matches
by_tokens known agent raw =
    let (hinted, tokens) = name_tokens raw in
    let pool = agent_pool known (first_of_two hinted (valid_agent agent)) in
    or_list (exact_matches pool tokens) (unordered_matches pool tokens)

-- `text or ""`, stripped, with at least one account configured.
resolve_raw : List AccountRef → Option String → String → AccountResolution
unfolding by_alias by_label by_tokens
resolve_raw known agent raw = or_refused (
    or_resolution (decide_matches (by_alias known agent raw)) (
      or_resolution (decide_matches (by_label known raw))
        (decide_matches (by_tokens known agent raw))))

-- `raw` is the text, stripped.
resolve_in : List AccountRef → Option String → String → AccountResolution
unfolding resolve_raw
resolve_in [] agent raw = if raw == "" then refused no_name else refused none_configured
resolve_in (r ∷ rs) agent raw =
    if raw == "" then refused no_name else resolve_raw (r ∷ rs) agent raw

unfoldable pub resolve_account : List AccountRef → Option String → String → AccountResolution
unfolding strip resolve_in
resolve_account known agent text = resolve_in known agent (strip text)
