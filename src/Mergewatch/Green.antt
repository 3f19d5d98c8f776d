-- ===== src/Mergewatch/Green.antt =====
-- When the checks of a commit are green.
use horus_harness.Prelude.{
  String, Bool, true, false, Option, none, some, List, [], ◌∷◌, ◌==◌, ◌↔◌, inl, inr, In,
}
use horus_harness.Prelude.{
  ◌≡◌, refl, arith, eq_iff, eq_refl, ◌||◌, not, if◌then◌else◌, member, any, all, is_some, All,
  Bool-cases, In-filter, filter-In,
}
use horus_harness.Prelude.Dict
use horus_harness.Prelude.Dict.{Dict}
use horus_harness.Mergewatch.{
  CheckState, pending, success, failure, overall_state, verdict_of, watched, is_watched,
  some_missing, is_failure, is_success,
}

abbrev Entry : Type 0
Entry = String × CheckState

abbrev AllSucceed : Dict CheckState → Type 0
AllSucceed states = (e : Entry) → In e states → e.1 ≡ success

is_success_iff : (s : CheckState) → is_success s ≡ true ↔ (s ≡ success)
is_success_iff pending = (λ h. absurd (cc h), λ h. absurd (cc h))
is_success_iff success = (λ h. refl, λ h. refl)
is_success_iff failure = (λ h. absurd (cc h), λ h. absurd (cc h))

all_succeed :
    (states : Dict CheckState) → all (λ (name, s). is_success s) states ≡ true → AllSucceed states
all_succeed [] h e m = absurd m
all_succeed (f ∷ states) h e (inl same) = rw same ((is_success_iff f.1).0 (ground arith))
all_succeed (f ∷ states) h e (inr m) = all_succeed states (ground arith) e m

succeed_all :
    (states : Dict CheckState) → AllSucceed states → all (λ (name, s). is_success s) states ≡ true
succeed_all [] p = refl
succeed_all (f ∷ states) p =
    rw ((is_success_iff f.1).1 (p f (inl refl)), succeed_all states (λ e m. p e (inr m))) refl

none_fails :
    (states : Dict CheckState) → AllSucceed states → any (λ (name, s). is_failure s) states ≡ false
none_fails [] p = refl
none_fails (f ∷ states) p = rw (p f (inl refl), none_fails states (λ e m. p e (inr m))) refl

judged :
    (bad good : Bool)
    → (if bad then failure else if good then success else pending) ≡ success
    → good ≡ true
judged true good h = absurd (cc h)
judged false true h = refl
judged false false h = absurd (cc h)

verdict_success_iff :
    (states : Dict CheckState)
    → verdict_of states ≡ success ↔ (((e : Entry) × In e states) × AllSucceed states)
verdict_success_iff [] = (λ h. absurd (cc h), λ (first, p). absurd first.1)
verdict_success_iff (f ∷ states) = (
  λ h. (
    (f, inl refl),
    all_succeed (f ∷ states) (judged (any (λ (name, s). is_failure s) (f ∷ states)) _ h),
  ),
  λ (first, p). rw (none_fails (f ∷ states) p, succeed_all (f ∷ states) p) refl,
)

get-watched :
    (required : Option (List String)) (c : String) (states : Dict CheckState)
    → is_watched required c ≡ true
    → Dict.get c (watched required states) ≡ Dict.get c states
unfolding Dict.get
get-watched required c [] h = refl
get-watched required c ((name, s) ∷ states) h = elim (Bool-cases (name == c)) [
  | inl e ↦ rw ((eq_iff name c).0 e, h) (rw (eq_refl c) refl)
  | inr e ↦ elim (Bool-cases (is_watched required name)) [
    | inl w ↦ rw (w, e) (get-watched required c states h)
    | inr w ↦ rw (w, e) (get-watched required c states h)
  ]
]

-- Every context that is required has a check.
abbrev pub IsReported : Option (List String) → Dict CheckState → Type 0
IsReported none states = Unit
IsReported (some required) states = All (λ c. is_some (Dict.get c states) ≡ true) required

both_iff :
    {P : Type 0} {r : Bool} (b : Bool) → (r ≡ false ↔ P) → (not b || r) ≡ false ↔ ((b ≡ true) × P)
both_iff true iff = (λ h. (refl, iff.0 h), λ (e, p). iff.1 p)
both_iff false iff = (λ h. absurd (cc h), λ (e, p). absurd (cc e))

reported_iff :
    (all_required required : List String) (states : Dict CheckState)
    → ((c : String) → member c required ≡ true → member c all_required ≡ true)
    → any (λ c. not (is_some (Dict.get c (watched (some all_required) states)))) required ≡ false
      ↔ All (λ c. is_some (Dict.get c states) ≡ true) required
reported_iff all_required [] states h = (λ x. tt, λ x. refl)
reported_iff all_required (c ∷ required) states h =
    rw (get-watched (some all_required) c states (h c (ground (arith, eq_refl c)))) (
      both_iff (is_some (Dict.get c states))
        (reported_iff all_required required states (λ d m. h d (ground arith))))

missing_iff :
    (required : Option (List String)) (states : Dict CheckState)
    → some_missing required (watched required states) ≡ false ↔ IsReported required states
missing_iff none states = (λ h. tt, λ h. refl)
missing_iff (some required) states = reported_iff required required states (λ c m. m)

watched_iff :
    (required : Option (List String)) (states : Dict CheckState)
    → verdict_of (watched required states) ≡ success ↔ (
        ((e : Entry) × In e states × (is_watched required e.0 ≡ true))
        × ((e : Entry) → In e states → is_watched required e.0 ≡ true → e.1 ≡ success))
watched_iff required states =
    let kept : Entry → Bool = λ (name, s). is_watched required name in
    let iff = verdict_success_iff (watched required states) in
    (
      λ h.
          let ((e, m), p) = iff.0 h in
          (
            let (n, w) = In-filter kept e states m in (e, n, w),
            λ f n w. p f (filter-In kept f states n w),
          ),
      λ ((e, m, w), p). iff.1 (
        (e, filter-In kept e states m w),
        λ f n. let (n, w) = In-filter kept f states n in p f n w,
      ),
    )

settled_iff :
    {P Q : Type 0} {v : CheckState} (missing : Bool)
    → (missing ≡ false ↔ P)
    → (v ≡ success ↔ Q)
    → (if missing then pending else v) ≡ success ↔ (P × Q)
settled_iff true p q = (λ h. absurd (cc h), λ (x, y). absurd (cc (p.1 x)))
settled_iff false p q = (λ h. (p.0 refl, q.0 h), λ (x, y). q.1 y)

-- The checks of a commit are green just if every required context has reported, at least one check is
-- watched, and every check that is watched has succeeded; where nothing is required all are watched.
pub overall_success_iff :
    (states : Dict CheckState) (required : Option (List String))
    → overall_state states required ≡ success ↔ (
        IsReported required states
        × (((e : Entry) × In e states × (is_watched required e.0 ≡ true))
            × ((e : Entry) → In e states → is_watched required e.0 ≡ true → e.1 ≡ success)))
unfolding overall_state
overall_success_iff states required =
    settled_iff (some_missing required (watched required states)) (missing_iff required states)
      (watched_iff required states)
