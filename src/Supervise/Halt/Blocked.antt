-- ===== src/Supervise/Halt/Blocked.antt =====
-- What `halt_dependents` disarms: every dispatch of a card that depends on the failed one, and no
-- other.
use horus_harness.Prelude.{
  String, Bool, true, false, Option, none, some, List, [], ◌∷◌, ◌==◌, ◌&&◌, ◌||◌, not, filter,
}
use horus_harness.Prelude.{
  ◌≡◌, ◌≢◌, refl, sym, ap, ◌∙◌, inl, inr, ◌⊎◌, arith, eq_iff, eq_refl, member, In, length,
  Bool-cases, Option-cases, test_of_ne, Result, ok, err, ok-injective,
}
use mathlib.Core.Path.{subst}
use horus_harness.Schedule.Life.{
  Units, Schedule, Systemd, Fault, systemctl_failed, Ended, disable, takes, halt, halt_at, selected,
  load_all, disarmed, stopped,
}
use horus_harness.Schedule.Life.Disarmed.{member-disarmed, IsMarked, IsHalt, halt_at-IsHalt}
use horus_harness.Schedule.Life.Selected.{names, selected-id, selected_one, In-load_all}
use horus_harness.Backlog.{Folder}
use horus_harness.Supervise.Dependents.{IsDependent}
use horus_harness.Supervise.Dependents.Reached.{transitive_dependents_iff}
use horus_harness.Supervise.Halt.{
  Halted, after_halt, halt_card, halt_one, halt_each, with_halted, chained, halt_dependents,
  scheduled_card, card_deps, blocked_reason,
}

-- No timer file is touched, nothing is armed that was not, and every mark stays.
abbrev pub IsNarrowed : Units → Units → Type 0
IsNarrowed before after =
    (after.timers ≡ before.timers)
    × ((j : String) → member j after.armed ≡ true → member j before.armed ≡ true)
    × ((j : String) → IsMarked j before → IsMarked j after)

IsNarrowed-trans : (u v w : Units) → IsNarrowed u v → IsNarrowed v w → IsNarrowed u w
IsNarrowed-trans u v w (t1, n1, m1) (t2, n2, m2) =
    (t2 ∙ t1, λ j h. n1 j (n2 j h), λ j h. m2 j (m1 j h))

-- What is no longer armed is of a card in the list, and is among what is reported, if no fault was
-- raised.
abbrev IsAccounted : List String → Units → Result Fault (List Halted) × Units → Type 0
IsAccounted cards before step =
    (j : String)
    → member j before.armed ≡ true
    → member j step.1.armed ≡ false
    → (card : String) × (member card cards ≡ true)
      × ((halted : List Halted) → step.0 ≡ ok halted → In (card, j) halted)

abbrev IsEffect : List String → Units → Result Fault (List Halted) × Units → Type 0
IsEffect cards before step = IsNarrowed before step.1 × IsAccounted cards before step

unchanged : (u : Units) → IsNarrowed u u
unchanged u = (refl, (λ j h. h), λ j h. h)

nothing :
    (cards : List String) (u : Units) (r : Result Fault (List Halted)) → IsEffect cards u (r, u)
nothing cards u r = (unchanged u, λ j on off. absurd (cc (on, off)))

-- One round as a loop of one round.
abbrev alone : Result Fault (Option Halted) × Units → Result Fault (List Halted) × Units
alone one = chained one (ok [], one.1)

In-with_halted :
    (h : Halted) (one : Option Halted) (rest : List Halted)
    → In h (with_halted one [])
    → In h (with_halted one rest)
In-with_halted h none rest m = absurd m
In-with_halted h (some g) rest (inl e) = inl e
In-with_halted h (some g) rest (inr m) = absurd m

with_halted-In :
    (h : Halted) (one : Option Halted) (rest : List Halted)
    → In h rest
    → In h (with_halted one rest)
with_halted-In h none rest m = m
with_halted-In h (some g) rest m = inr m

both :
    (cards : List String) (u : Units) (one : Result Fault (Option Halted) × Units)
    (rest : Result Fault (List Halted) × Units)
    → IsEffect cards u (alone one)
    → IsEffect cards one.1 rest
    → IsEffect cards u (chained one rest)
both cards u (err e, v) rest first second = first
both cards u (ok one, v) (err e, w) (n1, a1) (n2, a2) = (
  IsNarrowed-trans u v w n1 n2,
  λ j on off. elim (Bool-cases (member j v.armed)) [
    | inl h ↦ let (card, k, m) = a2 j h off in (card, k, λ halted q. absurd (cc q))
    | inr h ↦ let (card, k, m) = a1 j on h in (card, k, λ halted q. absurd (cc q))
  ],
)
both cards u (ok one, v) (ok rest, w) (n1, a1) (n2, a2) = (
  IsNarrowed-trans u v w n1 n2,
  λ j on off. elim (Bool-cases (member j v.armed)) [
    | inl h ↦
        let (card, k, m) = a2 j h off in
        (
          card,
          k,
          λ halted q.
              subst (In (card, j)) (ok-injective q)
                (with_halted-In (card, j) one rest (m rest refl)),
        )
    | inr h ↦
        let (card, k, m) = a1 j on h in
        (
          card,
          k,
          λ halted q.
              subst (In (card, j)) (ok-injective q)
                (In-with_halted (card, j) one rest (m (with_halted one []) refl)),
        )
  ],
)

-- The schedule waits to be run, for a card.
abbrev pub IsWaiting : Schedule → String → Type 0
IsWaiting s card =
    ((s.fired || s.halted) ≡ false) × (scheduled_card s.command ≡ some card) × (card ≢ "")

-- The schedule is marked as halted, and is not armed, unless systemd did not take its disabling.
abbrev pub IsStopped : Systemd → String → Units → Type 0
IsStopped sd id u =
    IsMarked id u
    × ((member id u.armed ≡ false) ⊎ ((v : Units) × (takes (sd.call v (disable id)) ≡ false)))

false_of : {a b : Bool} → (a ≡ true → b ≡ true) → b ≡ false → a ≡ false
false_of {a} {b} h e = ground arith

stays-IsStopped :
    (sd : Systemd) (id : String) (u v : Units)
    → IsNarrowed u v
    → IsStopped sd id u
    → IsStopped sd id v
stays-IsStopped sd id u v (t, n, m) (marked, inl off) = (m id marked, inl (false_of (n id) off))
stays-IsStopped sd id u v (t, n, m) (marked, inr fails) = (m id marked, inr fails)

halt-IsNarrowed :
    (s : Schedule) (reason : String) (b : Bool) (u : Units) (step : Ended)
    → IsHalt s reason b u step
    → IsNarrowed u step.1
halt-IsNarrowed s reason b u step (timers, services, armed, marks, given) =
    (timers, (λ j h. still b j (ap (member j) (sym armed) ∙ h)), marks)
  where
    still :
        (b : Bool) (j : String)
        → member j (disarmed b s.id u).armed ≡ true
        → member j u.armed ≡ true
    still b j h = ground (arith, member-disarmed b j s.id u)

halt-taken :
    (s : Schedule) (reason : String) (b : Bool) (u : Units) (step : Ended) (j : String)
    → IsHalt s reason b u step
    → member j u.armed ≡ true
    → member j step.1.armed ≡ false
    → s.id ≡ j
halt-taken s reason b u step j (timers, services, armed, marks, given) on off =
    (eq_iff s.id j).0 (same b (ap (member j) (sym armed) ∙ off))
  where
    same : (b : Bool) → member j (disarmed b s.id u).armed ≡ false → (s.id == j) ≡ true
    same b h = ground (arith, member-disarmed b j s.id u)

after_halt_units : (card id : String) (step : Ended) → (after_halt card id step).1 ≡ step.1
after_halt_units card id (err e, u) = refl
after_halt_units card id (ok none, u) = refl
after_halt_units card id (ok (some s), u) = refl

after_halt_given :
    (card id : String) (t : Schedule) (step : Ended) (halted : List Halted)
    → ((o : Option Schedule) → step.0 ≡ ok o → o ≡ some t)
    → (alone (after_halt card id step)).0 ≡ ok halted
    → In (card, id) halted
after_halt_given card id t (err e, u) halted given h = absurd (cc h)
after_halt_given card id t (ok none, u) halted given h = absurd (cc (given none refl))
after_halt_given card id t (ok (some s), u) halted given h =
    subst (In (card, id)) (ok-injective h) (inl refl)

alone_units : (one : Result Fault (Option Halted) × Units) → (alone one).1 ≡ one.1
alone_units (err e, u) = refl
alone_units (ok o, u) = refl

module _ (sd : Systemd) (reason : String) (cards : List String) where
  after_halt-IsEffect :
      (card id : String) (t : Schedule) (b : Bool) (u : Units) (step : Ended)
      → member card cards ≡ true
      → t.id ≡ id
      → IsHalt t reason b u step
      → IsEffect cards u (alone (after_halt card id step))
  after_halt-IsEffect card id t b u step k same effect =
      let units = alone_units (after_halt card id step) ∙ after_halt_units card id step in
      (
        subst (IsNarrowed u) (sym units) (halt-IsNarrowed t reason b u step effect),
        λ j on off. (
          card,
          k,
          λ halted q.
              subst (λ x. In (card, x) halted)
                (sym same
                  ∙ halt-taken t reason b u step j effect on
                      (ap (λ x. member j x.armed) (sym units) ∙ off))
                (after_halt_given card id (stopped reason t) step halted (λ o e. (effect.4 o e).0)
                  q),
        ),
      )

  halt_card-IsEffect :
      (s : Schedule) (timer : String) (u : Units) (o : Option String)
      → In (s.id, timer) u.timers
      → IsEffect cards u (alone (halt_card sd reason cards s u o))
  unfolding halt
  halt_card-IsEffect s timer u none m = nothing cards u (ok [])
  halt_card-IsEffect s timer u (some card) m =
      elim (Bool-cases (not (card == "") && member card cards)) [
        | inr h ↦ rw h (nothing cards u (ok []))
        | inl h ↦ elim (Bool-cases (sd.shows u)) [
          | inr e ↦ rw (h, e) (nothing cards u (err systemctl_failed))
          | inl e ↦ elim (Option-cases (selected sd.live u s.id)) [
            | inl f ↦ rw (h, e, f) (nothing cards u (ok []))
            | inr (t, f) ↦
                rw (h, e, f)
                  (after_halt-IsEffect card s.id t (takes (sd.call u (disable t.id))) u
                    (halt_at sd u reason (some t)) (ground arith)
                    (selected-id sd.live u s.id timer t m f) (halt_at-IsHalt sd reason t u))
          ]
        ]
      ]

  halt_one-IsEffect :
      (s : Schedule) (timer : String) (u : Units)
      → In (s.id, timer) u.timers
      → IsEffect cards u (alone (halt_one sd reason cards s u))
  unfolding halt_one
  halt_one-IsEffect s timer u m = elim (Bool-cases (s.fired || s.halted)) [
    | inl h ↦ rw h (nothing cards u (ok []))
    | inr h ↦ rw h (halt_card-IsEffect s timer u (scheduled_card s.command) m)
  ]

  halt_one-IsNarrowed :
      (s : Schedule) (timer : String) (u : Units)
      → In (s.id, timer) u.timers
      → IsNarrowed u (halt_one sd reason cards s u).1
  halt_one-IsNarrowed s timer u m =
      subst (IsNarrowed u) (alone_units (halt_one sd reason cards s u))
        (halt_one-IsEffect s timer u m).0

  -- Each schedule is of a timer.
  abbrev AreTimers : List Schedule → Units → Type 0
  AreTimers ss u = (s : Schedule) → In s ss → (timer : String) × In (s.id, timer) u.timers

  halt_each-IsEffect :
      (ss : List Schedule) (u : Units)
      → AreTimers ss u
      → IsEffect cards u (halt_each sd reason cards ss u)
  unfolding halt_each
  halt_each-IsEffect [] u m = nothing cards u (ok [])
  halt_each-IsEffect (s ∷ ss) u m =
      let (timer, n) = m s (inl refl) in
      let one = halt_one sd reason cards s u in
      let narrowed = halt_one-IsNarrowed s timer u n in
      both cards u one (halt_each sd reason cards ss one.1) (halt_one-IsEffect s timer u n)
        (halt_each-IsEffect ss one.1 (λ t k. let (x, i) = m t (inr k) in (x, rw narrowed.0 i)))

  halt-IsStopped :
      (t : Schedule) (id : String) (u : Units) (step : Ended) (o : Option Schedule)
      → t.id ≡ id
      → IsHalt t reason (takes (sd.call u (disable t.id))) u step
      → step.0 ≡ ok o
      → IsStopped sd id step.1
  halt-IsStopped t id u step o same (timers, services, armed, marks, given) e =
      subst (λ x. IsStopped sd x step.1) same
        (
          rw (given o e).1 refl,
          elim (Bool-cases (takes (sd.call u (disable t.id)))) [
            | inl b ↦ inl (
                ap (member t.id) armed
                ∙ member-disarmed (takes (sd.call u (disable t.id))) t.id t.id u
                ∙ rw (b, eq_refl t.id) refl)
            | inr b ↦ inr (u, b)
          ],
        )

  after_halt_ok :
      (card id : String) (step : Ended) (x : Option Halted)
      → (after_halt card id step).0 ≡ ok x
      → (o : Option Schedule) × (step.0 ≡ ok o)
  after_halt_ok card id (err e, u) x h = absurd (cc h)
  after_halt_ok card id (ok o, u) x h = (o, refl)

  halt_card-disarms :
      (s : Schedule) (card : String) (u : Units) (x : Option Halted)
      → card ≢ ""
      → member card cards ≡ true
      → length (filter (names s.id) u.timers) ≡ 1
      → (timer : String) × In (s.id, timer) u.timers
      → (halt_card sd reason cards s u (some card)).0 ≡ ok x
      → IsStopped sd s.id (halt_card sd reason cards s u (some card)).1
  unfolding halt
  halt_card-disarms s card u x given k one (timer, m) h =
      let (t, found) = selected_one sd.live u s.id one in
      elim (Bool-cases (sd.shows u)) [
        | inr e ↦ absurd (cc (rw (test_of_ne card "" given, k, e) at h))
        | inl e ↦
            let (o, ended) =
              after_halt_ok card s.id (halt_at sd u reason (some t)) x
                (rw (test_of_ne card "" given, k, e, found) at h) in
            rw (test_of_ne card "" given, k, e, found)
              (subst (IsStopped sd s.id)
                (sym (after_halt_units card s.id (halt_at sd u reason (some t))))
                (halt-IsStopped t s.id u (halt_at sd u reason (some t)) o
                  (selected-id sd.live u s.id timer t m found) (halt_at-IsHalt sd reason t u)
                  ended))
      ]

  halt_one-disarms :
      (s : Schedule) (card : String) (u : Units) (x : Option Halted)
      → IsWaiting s card
      → member card cards ≡ true
      → length (filter (names s.id) u.timers) ≡ 1
      → (timer : String) × In (s.id, timer) u.timers
      → (halt_one sd reason cards s u).0 ≡ ok x
      → IsStopped sd s.id (halt_one sd reason cards s u).1
  unfolding halt_one
  halt_one-disarms s card u x (waits, tagged, given) k one m h =
      rw (waits, tagged) (halt_card-disarms s card u x given k one m (rw (waits, tagged) at h))

  -- A loop that ends without a fault has had rounds without one.
  chained_ok :
      (one : Result Fault (Option Halted) × Units) (rest : Result Fault (List Halted) × Units)
      (halted : List Halted)
      → (chained one rest).0 ≡ ok halted
      → ((x : Option Halted) × (one.0 ≡ ok x))
        × ((others : List Halted) × (rest.0 ≡ ok others))
        × ((chained one rest).1 ≡ rest.1)
  chained_ok (err e, u) rest halted h = absurd (cc h)
  chained_ok (ok x, u) (err e, v) halted h = absurd (cc h)
  chained_ok (ok x, u) (ok others, v) halted h = ((x, refl), (others, refl), refl)

  halt_each-disarms :
      (ss : List Schedule) (s : Schedule) (card : String) (u : Units) (halted : List Halted)
      → AreTimers ss u
      → In s ss
      → IsWaiting s card
      → member card cards ≡ true
      → length (filter (names s.id) u.timers) ≡ 1
      → (halt_each sd reason cards ss u).0 ≡ ok halted
      → IsStopped sd s.id (halt_each sd reason cards ss u).1
  unfolding halt_each
  halt_each-disarms [] s card u halted m i waits k one h = absurd i
  halt_each-disarms (t ∷ ss) s card u halted m i waits k one h =
      let (timer, n) = m t (inl refl) in
      let first = halt_one sd reason cards t u in
      let narrowed = halt_one-IsNarrowed t timer u n in
      let after = first.1 in
      let rest = halt_each sd reason cards ss after in
      let later : AreTimers ss after = λ x j. let (y, q) = m x (inr j) in (y, rw narrowed.0 q) in
      let (went, others, units) = chained_ok first rest halted h in
      subst (IsStopped sd s.id) (sym units) (elim i [
        | inl e ↦ stays-IsStopped sd s.id after rest.1 (halt_each-IsEffect ss after later).0 (
            subst (λ x. IsStopped sd s.id (halt_one sd reason cards x u).1) e
              (halt_one-disarms s card u went.0 waits k one (m s (inl e))
                (ap (λ x. (halt_one sd reason cards x u).0) e ∙ went.1)))
        | inr j ↦
            halt_each-disarms ss s card after others.0 later j waits k (rw narrowed.0 one) others.1
      ])

-- Unless a fault is raised, every dispatch of a card that depends on the failed one, however the
-- dependencies run, is marked as halted and is not armed, or systemd did not take its disabling, if it
-- has neither fired nor been halted and its id names one timer.
pub halt_dependents_disarms :
    (sd : Systemd) (folder : Folder) (failed reason : String) (u : Units) (s : Schedule)
    (card : String) (halted : List Halted)
    → failed ≢ ""
    → In s (load_all sd.live u)
    → IsWaiting s card
    → IsDependent (card_deps folder) failed card
    → length (filter (names s.id) u.timers) ≡ 1
    → (halt_dependents sd folder failed reason u).0 ≡ ok halted
    → IsStopped sd s.id (halt_dependents sd folder failed reason u).1
unfolding halt_dependents
halt_dependents_disarms sd folder failed reason u s card halted given i waits depends one h =
    let (cards, found, iff) = transitive_dependents_iff failed (card_deps folder) in
    elim (Bool-cases (sd.shows u)) [
      | inr e ↦ absurd (cc (rw (test_of_ne failed "" given, e) at h))
      | inl e ↦
          rw (test_of_ne failed "" given, e, found)
            (halt_each-disarms sd (blocked_reason failed reason) cards (load_all sd.live u) s card u
              halted (λ t m. In-load_all sd.live u t m) i waits ((iff card).1 depends) one
              (rw (test_of_ne failed "" given, e, found) at h))
    ]
