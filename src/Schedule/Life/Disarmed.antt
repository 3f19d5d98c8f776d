-- ===== src/Schedule/Life/Disarmed.antt =====
-- What `halt` leaves armed, whatever systemd and the file system answer.
use horus_harness.Prelude.{String, Bool, true, false, Option, none, some, List, [], ◌∷◌, ◌==◌}
use horus_harness.Prelude.{
  ◌≡◌, refl, sym, ap, ◌∙◌, inl, inr, arith, eq_iff, if◌then◌else◌, member, Bool-cases, ok, is_some,
  ◌&&◌, ok-injective,
}
use mathlib.Core.Path.{subst}
use horus_harness.Prelude.Dict
use horus_harness.Prelude.Dict.{get-insert, get-insert_same}
use horus_harness.Schedule.Life.{
  Units, Schedule, Systemd, Answer, done, refused, crashed, Written, whole, torn, put, disable,
  reload, halt_marker, takes, disarmed, Ended, reason_of, stopped, reloaded, marked_by,
  after_disable, halt_at, disarm, arm,
}

pub member-disarm :
    (j id : String) (armed : List String)
    → member j (disarm id armed) ≡ (if id == j then false else member j armed)
member-disarm j id [] = ground arith
member-disarm j id (a ∷ armed) =
    ground (arith, member-disarm j id armed, eq_iff a id, eq_iff id j, eq_iff j a)

pub member-arm :
    (j id : String) (armed : List String)
    → member j (arm id armed) ≡ (if id == j then true else member j armed)
member-arm j id armed = elim (Bool-cases (member id armed)) [
  | inl e ↦ rw e (elim (Bool-cases (id == j)) [
    | inl same ↦ rw same (subst (λ x. member x armed ≡ true) ((eq_iff id j).0 same) e)
    | inr other ↦ rw other refl
  ])
  | inr e ↦ rw e (ground (arith, eq_iff j id, eq_iff id j))
]

pub member-disarmed :
    (b : Bool) (j id : String) (u : Units)
    → member j (disarmed b id u).armed ≡ (if id == j && b then false else member j u.armed)
member-disarmed true j id u = ground (arith, member-disarm j id u.armed)
member-disarmed false j id u = ground arith

-- A mark that is there stays.
abbrev pub IsMarked : String → Units → Type 0
IsMarked j u = is_some (Dict.get j u.halts) ≡ true

put-IsMarked :
    (w : Written) (id text j : String) (u : Units)
    → IsMarked j u
    → IsMarked j (record u { halts = put w id text u.halts })
put-IsMarked whole id text j u h = ground (arith, get-insert id j text u.halts)
put-IsMarked (torn (some part)) id text j u h = ground (arith, get-insert id j part u.halts)
put-IsMarked (torn none) id text j u h = h

-- No unit file differs, and no other timer; the marks stay; and where a schedule is given, it is that
-- of the id, marked.
abbrev pub IsHalt : Schedule → String → Bool → Units → Ended → Type 0
IsHalt s reason b u step =
    (step.1.timers ≡ u.timers)
    × (step.1.services ≡ u.services)
    × (step.1.armed ≡ (disarmed b s.id u).armed)
    × ((j : String) → IsMarked j u → IsMarked j step.1)
    × ((o : Option Schedule)
        → step.0 ≡ ok o
        → (o ≡ some (stopped reason s)) × (Dict.get s.id step.1.halts ≡ some (reason_of reason)))

disarmed_files :
    (b : Bool) (id : String) (u : Units)
    → ((disarmed b id u).timers ≡ u.timers)
      × ((disarmed b id u).services ≡ u.services)
      × ((disarmed b id u).halts ≡ u.halts)
disarmed_files true id u = (refl, refl, refl)
disarmed_files false id u = (refl, refl, refl)

disarmed-IsMarked :
    (b : Bool) (id j : String) (u : Units) → IsMarked j u → IsMarked j (disarmed b id u)
disarmed-IsMarked true id j u h = h
disarmed-IsMarked false id j u h = h

reloaded_units : (o : Option Schedule) (u : Units) (a : Answer) → (reloaded o u a).1 ≡ u
reloaded_units o u (crashed b) = refl
reloaded_units o u done = refl
reloaded_units o u (refused b) = refl

reloaded_given :
    (o p : Option Schedule) (u : Units) (a : Answer) → (reloaded o u a).0 ≡ ok p → p ≡ o
reloaded_given o p u (crashed b) h = absurd (cc h)
reloaded_given o p u done h = sym (ok-injective h)
reloaded_given o p u (refused b) h = sym (ok-injective h)

module _ (sd : Systemd) (reason : String) (s : Schedule) where
  marked_by-IsHalt :
      (b : Bool) (u : Units) (w : Written)
      → IsHalt s reason b u (marked_by sd reason s (disarmed b s.id u) w)
  marked_by-IsHalt b u whole =
      let v = disarmed b s.id u in
      let after = record v { halts = put whole s.id (reason_of reason) v.halts } in
      let same = reloaded_units (some (stopped reason s)) after (sd.call after reload) in
      let (timers, services, halts) = disarmed_files b s.id u in
      (
        ap (λ x. x.timers) same ∙ timers,
        ap (λ x. x.services) same ∙ services,
        ap (λ x. x.armed) same,
        λ j h.
            subst (IsMarked j) (sym same)
              (put-IsMarked whole s.id (reason_of reason) j v (disarmed-IsMarked b s.id j u h)),
        λ o e. (
          reloaded_given (some (stopped reason s)) o after (sd.call after reload) e,
          ap (λ x. Dict.get s.id x.halts) same ∙ get-insert_same s.id (reason_of reason) v.halts,
        ),
      )
  marked_by-IsHalt b u (torn part) =
      let (timers, services, halts) = disarmed_files b s.id u in
      (
        timers,
        services,
        refl,
        λ j h.
            put-IsMarked (torn part) s.id (reason_of reason) j (disarmed b s.id u)
              (disarmed-IsMarked b s.id j u h),
        λ o e. absurd (cc e),
      )

  after_disable-IsHalt :
      (u : Units) (a : Answer) → IsHalt s reason (takes a) u (after_disable sd reason s u a)
  after_disable-IsHalt u (crashed b) =
      let (timers, services, halts) = disarmed_files b s.id u in
      (timers, services, refl, λ j h. disarmed-IsMarked b s.id j u h, λ o e. absurd (cc e))
  after_disable-IsHalt u (refused b) =
      marked_by-IsHalt b u (sd.write (disarmed b s.id u) (halt_marker s.id))
  after_disable-IsHalt u done =
      marked_by-IsHalt true u (sd.write (disarmed true s.id u) (halt_marker s.id))

  pub halt_at-IsHalt :
      (u : Units)
      → IsHalt s reason (takes (sd.call u (disable s.id))) u (halt_at sd u reason (some s))
  halt_at-IsHalt u = after_disable-IsHalt u (sd.call u (disable s.id))

-- Of the timers, only that of the id is not what it was: `armed` says whether it is armed now.
abbrev pub IsArmedAs : String → Bool → Units → Units → Type 0
IsArmedAs id armed before after =
    (j : String) → member j after.armed ≡ (if id == j then armed else member j before.armed)
