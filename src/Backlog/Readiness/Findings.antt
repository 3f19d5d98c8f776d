-- ===== src/Backlog/Readiness/Findings.antt =====
-- What is reported of a card's stamps: malformed readiness, and orders that are no sequence.
use horus_harness.Prelude.{String, Bool, Option, none, some, List, [], ◌∷◌, ◌++◌}
use horus_harness.Prelude.{
  true, false, ◌≡◌, ◌≢◌, ◌↔◌, ◌⊎◌, inl, inr, refl, Bool-cases, test_of_ne, arith, eq_iff,
}
use horus_harness.Prelude.{
  ◌==◌, if◌then◌else◌, ◌&&◌, not, member, or_text, sorted, length, is_some, ltb,
}
use horus_harness.Prelude.Text.{text_le}
use horus_harness.Backlog.{Card, field_value}
use horus_harness.Prelude.Integers.{ℤ, le_ℤ}
use horus_harness.Backlog.Readiness.{
  Queue, queue_order, readiness_queue, readiness_choices, autonomy_choices, same_queue, same_ℤ,
}

pub data Level : Type 0 where
  warn fail : Level

-- The message of a finding, by what it names.
pub data Message : Type 0 where
  is_unclassified : String → Message
  invalid_readiness : String → String → Message
  ready_autonomy : String → String → Message
  without_reason : String → String → Message
  carries_autonomy : String → String → Message
  non_integer_order : String → String → Message
  duplicate_order : ℤ → Queue → List String → Message
  missing_dependency : String → String → Message
  gated_on : String → String → String → Message
  lingering_done : String → Message
  shelved_bug : String → Message
  shipped_provenance : String → String → Message
  no_card : String → Message
  exclusive_card : String → String → String → Message
  no_surface : String → String → Message
  surface_overlaps : String → String → List (String × String) → Message

pub record Finding : Type 0 where
  pub level : Level
  pub message : Message

abbrev pub warning : Message → Finding
warning m = record { level = warn; message = m }

-- `if bad: findings.append(...)`
abbrev pub when_ : Bool → Message → List Finding
when_ bad m = if bad then warning m ∷ [] else []

waiting_findings : Card → List Finding
waiting_findings c =
    when_ (c.readiness_reason == "") (without_reason c.name c.readiness)
    ++ when_ (not (c.autonomy == "")) (carries_autonomy c.name c.readiness)

unfoldable pub readiness_findings : Card → List Finding
unfolding waiting_findings
readiness_findings c =
    if c.readiness == ""
    then warning (is_unclassified c.name) ∷ []
    else if not (member c.readiness readiness_choices)
    then warning (invalid_readiness c.name c.readiness) ∷ []
    else if c.readiness == "ready"
    then when_ (not (member c.autonomy autonomy_choices))
        (ready_autonomy c.name (or_text c.autonomy "missing"))
    else waiting_findings c

-- A card is ready with an autonomy, or it waits with a reason and without one.
abbrev pub IsRefined : Card → Type 0
IsRefined c =
    ((c.readiness ≡ "ready") × ((c.autonomy ≡ "eligible") ⊎ (c.autonomy ≡ "attended")))
    ⊎ (((c.readiness ≡ "shaping") ⊎ (c.readiness ≡ "gated") ⊎ (c.readiness ≡ "deferred"))
        × (c.readiness_reason ≢ "")
        × (c.autonomy ≡ ""))

append-empty : (xs ys : List Finding) → xs ++ ys ≡ [] → (xs ≡ []) × (ys ≡ [])
append-empty [] ys h = (refl, h)
append-empty (x ∷ xs) ys h = absurd (cc h)

when_-empty : (b : Bool) (m : Message) → when_ b m ≡ [] → b ≡ false
when_-empty true m h = absurd (cc h)
when_-empty false m h = refl

waiting : (c : Card) → waiting_findings c ≡ [] → (c.readiness_reason ≢ "") × (c.autonomy ≡ "")
unfolding waiting_findings
waiting c h =
    let (no_reason, stray) = append-empty _ _ h in
    let reason =
      when_-empty (c.readiness_reason == "") (without_reason c.name c.readiness) no_reason in
    let autonomy =
      when_-empty (not (c.autonomy == "")) (carries_autonomy c.name c.readiness) stray in
    ground (arith, reason, autonomy, eq_iff c.readiness_reason "", eq_iff c.autonomy "")

ready :
    (c : Card)
    → (c.readiness == "ready") ≡ true
    → when_
        (not (member c.autonomy autonomy_choices))
        (ready_autonomy c.name (or_text c.autonomy "missing"))
      ≡ []
    → IsRefined c
ready c r h =
    let choice = when_-empty _ _ h in
    ground (
      arith,
      choice,
      eq_iff c.readiness "ready",
      eq_iff c.autonomy "eligible",
      eq_iff c.autonomy "attended",
    )

kept_waiting :
    (c : Card)
    → member c.readiness readiness_choices ≡ true
    → (c.readiness == "ready") ≡ false
    → (c.readiness_reason ≢ "") × (c.autonomy ≡ "")
    → IsRefined c
kept_waiting c choice r kept =
    ground (
      arith,
      eq_iff c.readiness "shaping",
      eq_iff c.readiness "gated",
      eq_iff c.readiness "deferred",
    )

to : (c : Card) → readiness_findings c ≡ [] → IsRefined c
unfolding readiness_findings
to c h = elim (Bool-cases (c.readiness == "")) [
  | inl e ↦ absurd (cc (rw e at h))
  | inr e ↦ elim (Bool-cases (member c.readiness readiness_choices)) [
    | inr e2 ↦ absurd (cc (rw (e, e2) at h))
    | inl e2 ↦ elim (Bool-cases (c.readiness == "ready")) [
      | inl e3 ↦ ready c e3 (rw (e, e2, e3) at h)
      | inr e3 ↦ kept_waiting c e2 e3 (waiting c (rw (e, e2, e3) at h))
    ]
  ]
]

from : (c : Card) → IsRefined c → readiness_findings c ≡ []
unfolding readiness_findings
from c (inl (r, inl a)) = rw (r, a) refl
from c (inl (r, inr a)) = rw (r, a) refl
from c (inr (inl r, reason, a)) = rw (r, a, test_of_ne c.readiness_reason "" reason) refl
from c (inr (inr (inl r), reason, a)) = rw (r, a, test_of_ne c.readiness_reason "" reason) refl
from c (inr (inr (inr r), reason, a)) = rw (r, a, test_of_ne c.readiness_reason "" reason) refl

-- No finding is reported of a card exactly when it is ready with one of the two autonomies, or it
-- is shaping, gated or deferred with a reason and without an autonomy.
pub readiness_findings_iff : (c : Card) → readiness_findings c ≡ [] ↔ IsRefined c
unfolding readiness_findings
readiness_findings_iff c = (to c, from c)

-- `order:` stamps that are no integers.
unfoldable pub stray_orders : List Card → List Finding
unfolding field_value
stray_orders [] = []
stray_orders (c ∷ cs) =
    when_ (not (field_value c "order" == "") && not (is_some c.order))
      (non_integer_order c.name (field_value c "order"))
    ++ stray_orders cs

-- `.setdefault(order, []).append(name)`
unfoldable pub append_name : ℤ → String → List (ℤ × List String) → List (ℤ × List String)
unfolding le_ℤ
append_name n name [] = (n, name ∷ []) ∷ []
append_name n name ((m, names) ∷ rest) =
    let later = append_name n name rest in
    if same_ℤ m n then (m, names ++ (name ∷ [])) ∷ rest else (m, names) ∷ later

abbrev append_card : Card → Option ℤ → List (ℤ × List String) → List (ℤ × List String)
append_card c none groups = groups
append_card c (some n) groups = append_name n c.name groups

-- The names at each order of a queue.
unfoldable pub by_order : Queue → List (ℤ × List String) → List Card → List (ℤ × List String)
unfolding readiness_queue append_name
by_order q groups [] = groups
by_order q groups (c ∷ cs) =
    let added = by_order q (append_card c c.order groups) cs in
    let passed = by_order q groups cs in if same_queue (readiness_queue c) q then added else passed

abbrev le_group : ℤ × List String → ℤ × List String → Bool
le_group (a, _) (b, _) = le_ℤ a b

unfoldable pub duplicates : Queue → List (ℤ × List String) → List Finding
unfolding sorted
duplicates q [] = []
duplicates q ((n, names) ∷ rest) =
    when_ (ltb 1 (length names)) (duplicate_order n q (sorted text_le names)) ++ duplicates q rest

unfoldable pub duplicates_in : List Card → List Queue → List Finding
unfolding by_order duplicates sorted le_ℤ
duplicates_in cards [] = []
duplicates_in cards (q ∷ qs) =
    duplicates q (sorted le_group (by_order q [] cards)) ++ duplicates_in cards qs

unfoldable pub order_findings : List Card → List Finding
unfolding stray_orders duplicates_in
order_findings cards = stray_orders cards ++ duplicates_in cards queue_order
