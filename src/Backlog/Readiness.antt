-- ===== src/Backlog/Readiness.antt =====
-- Readiness: the six queues, the canonical order of cards, and which cards are stamped to run unattended.
pub mod Queues
pub mod Findings
use horus_harness.Prelude.{
  ℕ, suc, String, Bool, true, false, Option, none, some, List, [], ◌∷◌, map,
}
use horus_harness.Prelude.{
  ◌==◌, if◌then◌else◌, ◌&&◌, ◌||◌, filter, not, member, or_text, sorted, beq, ltb, length, is_some,
}
use horus_harness.Prelude.Dict
use horus_harness.Prelude.Dict.{Dict}
use horus_harness.Prelude.Text.{◌<>◌, text_le}
use horus_harness.Backlog.{Card}
use horus_harness.Prelude.Integers.{ℤ, pos, le_ℤ}

pub data Queue : Type 0 where
  ready_eligible ready_attended shaping gated deferred unclassified : Queue

abbrev pub queue_order : List Queue
queue_order = ready_eligible ∷ ready_attended ∷ shaping ∷ gated ∷ deferred ∷ unclassified ∷ []

-- `READINESS_QUEUE_ORDER.index(queue)`
abbrev pub queue_index : Queue → ℕ
queue_index ready_eligible = 0
queue_index ready_attended = 1
queue_index shaping = 2
queue_index gated = 3
queue_index deferred = 4
queue_index unclassified = 5

abbrev pub queue_label : Queue → String
queue_label ready_eligible = "Ready—Autonomous eligible"
queue_label ready_attended = "Ready—Attended"
queue_label shaping = "Shaping"
queue_label gated = "Gated"
queue_label deferred = "Deferred"
queue_label unclassified = "Unclassified"

abbrev pub readiness_choices : List String
readiness_choices = "ready" ∷ "shaping" ∷ "gated" ∷ "deferred" ∷ []

abbrev pub autonomy_choices : List String
autonomy_choices = "eligible" ∷ "attended" ∷ []

-- A readiness other than `ready` is its own queue, where it is one.
unfoldable pub queue_of : String → Queue
queue_of readiness =
    if readiness == "shaping"
    then shaping
    else if readiness == "gated"
    then gated
    else if readiness == "deferred"
    then deferred
    else unclassified

unfoldable pub readiness_queue : Card → Queue
unfolding queue_of
readiness_queue c =
    if c.readiness == "ready"
    then (if c.autonomy == "eligible"
        then ready_eligible
        else if c.autonomy == "attended"
        then ready_attended
        else unclassified)
    else queue_of c.readiness

unfoldable pub readiness_label : Card → String
unfolding readiness_queue
readiness_label c = queue_label (readiness_queue c)

abbrev priority_rank : Dict ℕ
priority_rank =
    ("now", 0)
    ∷ ("next", 1)
    ∷ ("high", 2)
    ∷ ("medium", 3)
    ∷ ("low", 4)
    ∷ ("later", 5)
    ∷ ("deferred", 6)
    ∷ []

pub record SortKey : Type 0 where
  pub queue : ℕ
  pub missing : ℕ
  pub order : ℤ
  pub rank : ℕ
  pub priority : String
  pub name : String

abbrev order_or_zero : Option ℤ → ℤ
order_or_zero none = pos 0
order_or_zero (some n) = n

abbrev rank_or : Option ℕ → ℕ
rank_or none = 7
rank_or (some n) = n

unfoldable pub readiness_sort_key : Card → SortKey
unfolding readiness_queue
readiness_sort_key c = record {
  queue = queue_index (readiness_queue c);
  missing = if is_some c.order then 0 else 1;
  order = order_or_zero c.order;
  rank = rank_or (Dict.get c.priority priority_rank);
  priority = c.priority;
  name = c.name;
}

-- Python's order of tuples.
abbrev pub same_ℤ : ℤ → ℤ → Bool
same_ℤ a b = le_ℤ a b && le_ℤ b a

unfoldable pub le_key : SortKey → SortKey → Bool
unfolding le_ℤ
le_key a b =
    if not (beq a.queue b.queue)
    then ltb a.queue b.queue
    else if not (beq a.missing b.missing)
    then ltb a.missing b.missing
    else if not (same_ℤ a.order b.order)
    then le_ℤ a.order b.order
    else if not (beq a.rank b.rank)
    then ltb a.rank b.rank
    else if not (a.priority == b.priority)
    then text_le a.priority b.priority
    else text_le a.name b.name

abbrev pub card_le : Card → Card → Bool
card_le a b = le_key (readiness_sort_key a) (readiness_sort_key b)

pub record ReadinessGroup : Type 0 where
  pub key : Queue
  pub label : String
  pub cards : List Card

abbrev pub same_queue : Queue → Queue → Bool
same_queue p q = beq (queue_index p) (queue_index q)

unfoldable pub group_of : List Card → Queue → ReadinessGroup
unfolding readiness_queue le_key readiness_sort_key sorted
group_of cards key = record {
  key = key;
  label = queue_label key;
  cards = sorted card_le (filter (λ c. same_queue (readiness_queue c) key) cards);
}

unfoldable pub readiness_groups : List Card → List ReadinessGroup
unfolding group_of
readiness_groups cards = map (group_of cards) queue_order

unfoldable pub readiness_counts : List Card → List (Queue × ℕ)
unfolding readiness_groups
readiness_counts cards =
    map (λ (g : ReadinessGroup). (g.key, length g.cards)) (readiness_groups cards)

-- Why an unclassified card may not run.
unclassified_reason : String → String
unfolding ◌<>◌
unclassified_reason readiness =
    if readiness == "ready"
    then "Ready card has missing or invalid autonomy; run backlog-refine"
    else if readiness == ""
    then "Unclassified card; run backlog-refine before autonomous scheduling"
    else "invalid readiness '" <> readiness <> "'; run backlog-refine"

block_reason : Queue → Card → String
unfolding unclassified_reason ◌<>◌
block_reason ready_eligible c = ""
block_reason unclassified c = unclassified_reason c.readiness
block_reason ready_attended c = "Ready—Attended requires owner presence"
block_reason q c =
    queue_label q
    <> " — "
    <> or_text c.readiness_reason "missing readiness_reason; run backlog-refine"

unfoldable pub autonomy_block_reason : Card → String
unfolding block_reason readiness_queue
autonomy_block_reason c = block_reason (readiness_queue c) c

unfoldable pub is_autonomous_candidate : Card → Bool
unfolding autonomy_block_reason
is_autonomous_candidate c = autonomy_block_reason c == ""
