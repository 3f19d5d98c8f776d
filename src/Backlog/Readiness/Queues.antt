-- ===== src/Backlog/Readiness/Queues.antt =====
-- The readiness queues: what each holds, and that no card is lost.
use horus_harness.Prelude.{ℕ, ◌+◌, true, List, [], ◌∷◌}
use horus_harness.Prelude.{◌≡◌, refl, sym, ap, ◌∙◌, ◌↔◌, beq, arith}
use horus_harness.Prelude.{if◌then◌else◌, filter, In, In-filter, filter-In, length}
use horus_harness.Prelude.Sorted.{In-sorted, length-sorted}
use horus_harness.Backlog.{Card}
use horus_harness.Backlog.Readiness.{
  Queue, queue_index, same_queue, readiness_queue, group_of, readiness_counts, readiness_groups,
  card_le,
}
use horus_harness.Backlog.Readiness.{
  ready_eligible, ready_attended, shaping, gated, deferred, unclassified,
}

same_queue_refl : (q : Queue) → same_queue q q ≡ true
same_queue_refl ready_eligible = refl
same_queue_refl ready_attended = refl
same_queue_refl shaping = refl
same_queue_refl gated = refl
same_queue_refl deferred = refl
same_queue_refl unclassified = refl

abbrev queue_at : ℕ → Queue
queue_at n =
    if beq n 0
    then ready_eligible
    else if beq n 1
    then ready_attended
    else if beq n 2
    then shaping
    else if beq n 3
    then gated
    else if beq n 4
    then deferred
    else unclassified

queue_at-queue_index : (q : Queue) → queue_at (queue_index q) ≡ q
queue_at-queue_index ready_eligible = refl
queue_at-queue_index ready_attended = refl
queue_at-queue_index shaping = refl
queue_at-queue_index gated = refl
queue_at-queue_index deferred = refl
queue_at-queue_index unclassified = refl

same_queue-eq : (p q : Queue) → same_queue p q ≡ true → p ≡ q
same_queue-eq p q h =
    sym (queue_at-queue_index p)
    ∙ ap queue_at {x = queue_index p} {y = queue_index q} (ground arith)
    ∙ queue_at-queue_index q

-- The group of a queue holds the cards that `readiness_queue` puts there, and no others.
pub In-group_of :
    (cards : List Card) (q : Queue) (c : Card)
    → In c (group_of cards q).cards ↔ (In c cards × (readiness_queue c ≡ q))
unfolding group_of
In-group_of cards q c = (to, back)
  where
    to : In c (group_of cards q).cards → In c cards × (readiness_queue c ≡ q)
    to m =
        let (found, here) =
          In-filter (λ d. same_queue (readiness_queue d) q) c cards ((In-sorted card_le c _).0 m) in
        (found, same_queue-eq (readiness_queue c) q here)

    back : In c cards × (readiness_queue c ≡ q) → In c (group_of cards q).cards
    back (found, e) =
        (In-sorted card_le c _).1
          (filter-In _ c cards found (ap (λ p. same_queue p q) e ∙ same_queue_refl q))

abbrev count : Queue → Queue → ℕ
count p q = if same_queue p q then 1 else 0

abbrev in_queue : List Card → Queue → ℕ
in_queue cards q = length (filter (λ c. same_queue (readiness_queue c) q) cards)

abbrev total : List Card → ℕ
total cards =
    in_queue cards ready_eligible
    + in_queue cards ready_attended
    + in_queue cards shaping
    + in_queue cards gated
    + in_queue cards deferred
    + in_queue cards unclassified

-- The six groups of `readiness_groups`, by their sizes.
same_queue-sum :
    (p : Queue)
    → count p ready_eligible
        + count p ready_attended
        + count p shaping
        + count p gated
        + count p deferred
        + count p unclassified
      ≡ 1
same_queue-sum ready_eligible = refl
same_queue-sum ready_attended = refl
same_queue-sum shaping = refl
same_queue-sum gated = refl
same_queue-sum deferred = refl
same_queue-sum unclassified = refl

length-filter :
    (c : Card) (cs : List Card) (q : Queue)
    → in_queue (c ∷ cs) q ≡ count (readiness_queue c) q + in_queue cs q
length-filter c cs q = ground arith

length-group_of :
    (cards : List Card) (q : Queue) → length (group_of cards q).cards ≡ in_queue cards q
unfolding group_of
length-group_of cards q = length-sorted card_le _

in_queue-sum : (cards : List Card) → total cards ≡ length cards
in_queue-sum [] = refl
in_queue-sum (c ∷ cs) = omega (
  arith,
  in_queue-sum cs,
  same_queue-sum (readiness_queue c),
  length-filter c cs ready_eligible,
  length-filter c cs ready_attended,
  length-filter c cs shaping,
  length-filter c cs gated,
  length-filter c cs deferred,
  length-filter c cs unclassified,
)

abbrev pub sum_counts : List (Queue × ℕ) → ℕ
sum_counts [] = 0
sum_counts ((q, n) ∷ rest) = n + sum_counts rest

-- Every card is counted in exactly one of the queues: the counts sum to the number of cards.
pub readiness_counts-length :
    (cards : List Card) → sum_counts (readiness_counts cards) ≡ length cards
unfolding readiness_counts readiness_groups group_of
readiness_counts-length cards = omega (
  arith,
  in_queue-sum cards,
  length-group_of cards ready_eligible,
  length-group_of cards ready_attended,
  length-group_of cards shaping,
  length-group_of cards gated,
  length-group_of cards deferred,
  length-group_of cards unclassified,
)
