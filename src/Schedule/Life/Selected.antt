-- ===== src/Schedule/Life/Selected.antt =====
-- Which schedule an id selects.
use horus_harness.Prelude.{
  String, Bool, true, some, List, [], ◌∷◌, ◌==◌, ◌||◌, map, filter, sorted, insert_sorted,
}
use horus_harness.Prelude.{◌≡◌, refl, sym, ap, ◌∙◌, arith, eq_refl, inl, inr, length, In, filter-In}
use mathlib.Core.Path.{subst}
use mathlib.Core.Option.{some-injective}
use horus_harness.Prelude.Sorted.{In-sorted}
use horus_harness.Prelude.Text.{starts_with}
use horus_harness.Schedule.Life.{
  Units, Schedule, Live, schedule_of, load_all, matches, only, selected, by_path, sooner,
}

-- A timer of the id, or of one that begins with it.
abbrev pub names : String → String × String → Bool
names ident (id, timer) = id == ident || starts_with id ident

module _ {A : Type 0} (le : A → A → Bool) (p : A → Bool) where
  count-insert_sorted :
      (x : A) (ys : List A) → length (filter p (insert_sorted le x ys)) ≡ length (filter p (x ∷ ys))
  unfolding insert_sorted
  count-insert_sorted x [] = refl
  count-insert_sorted x (y ∷ ys) = ground (arith, count-insert_sorted x ys)

  count-sorted : (xs : List A) → length (filter p (sorted le xs)) ≡ length (filter p xs)
  unfolding sorted
  count-sorted [] = refl
  count-sorted (x ∷ xs) = ground (arith, count-insert_sorted x (sorted le xs), count-sorted xs)

module _ {A B : Type 0} (f : A → B) where
  count-map :
      (p : B → Bool) (xs : List A)
      → length (filter p (map f xs)) ≡ length (filter (λ x. p (f x)) xs)
  count-map p [] = refl
  count-map p (x ∷ xs) = ground (arith, count-map p xs)

  map-In : (x : A) (xs : List A) → In x xs → In (f x) (map f xs)
  map-In x [] m = absurd m
  map-In x (y ∷ ys) (inl e) = inl (ap f e)
  map-In x (y ∷ ys) (inr m) = inr (map-In x ys m)

  pub In-map : (b : B) (xs : List A) → In b (map f xs) → (x : A) × In x xs × (b ≡ f x)
  In-map b [] m = absurd m
  In-map b (y ∷ ys) (inl e) = (y, inl refl, e)
  In-map b (y ∷ ys) (inr m) = let (x, n, e) = In-map b ys m in (x, inr n, e)

only_found : (xs : List Schedule) (t : Schedule) → only xs ≡ some t → xs ≡ t ∷ []
only_found [] t h = absurd (cc h)
only_found (x ∷ []) t h = ap (λ s. s ∷ []) (some-injective x t h)
only_found (x ∷ y ∷ xs) t h = absurd (cc h)

only_one : (xs : List Schedule) → length xs ≡ 1 → (t : Schedule) × (only xs ≡ some t)
only_one [] h = absurd (omega arith)
only_one (x ∷ []) h = (x, refl)
only_one (x ∷ y ∷ xs) h = absurd (omega arith)

In-one : (x t : Schedule) → In x (t ∷ []) → x ≡ t
In-one x t (inl e) = e
In-one x t (inr m) = absurd m

module _ (live : Live) (u : Units) where
  count-matches :
      (ident : String)
      → length (filter (matches ident) (load_all live u)) ≡ length (filter (names ident) u.timers)
  unfolding load_all schedule_of
  count-matches ident =
      count-sorted sooner (matches ident) _
      ∙ count-map (schedule_of live u) (matches ident) _
      ∙ count-sorted by_path (names ident) u.timers

  -- Each schedule is of a timer.
  pub In-load_all :
      (s : Schedule) → In s (load_all live u) → (timer : String) × In (s.id, timer) u.timers
  unfolding load_all schedule_of
  In-load_all s m =
      let timers = sorted by_path u.timers in
      let (found, n, e) =
        In-map (schedule_of live u) s timers
          ((In-sorted sooner s (map (schedule_of live u) timers)).0 m) in
      (found.1, rw (ap (λ x. x.id) e) ((In-sorted by_path found u.timers).0 n))

  load_all-In :
      (id timer : String)
      → In (id, timer) u.timers
      → In (schedule_of live u (id, timer)) (load_all live u)
  unfolding load_all
  load_all-In id timer m =
      (In-sorted sooner _ _).1
        (map-In (schedule_of live u) (id, timer) _ ((In-sorted by_path (id, timer) u.timers).1 m))

  matches_itself : (id timer : String) → matches id (schedule_of live u (id, timer)) ≡ true
  unfolding schedule_of
  matches_itself id timer = ground (arith, eq_refl id)

  -- What the id of a timer selects has that id.
  pub selected-id :
      (id timer : String) (t : Schedule)
      → In (id, timer) u.timers
      → selected live u id ≡ some t
      → t.id ≡ id
  unfolding selected
  selected-id id timer t m h =
      let here = schedule_of live u (id, timer) in
      let found : In here (t ∷ []) =
        subst (In here) (only_found (filter (matches id) (load_all live u)) t h) (
          filter-In (matches id) here (load_all live u) (load_all-In id timer m)
            (matches_itself id timer)) in
      ap (λ x. x.id) (sym (In-one here t found))

  -- An id that names one timer selects a schedule.
  pub selected_one :
      (ident : String)
      → length (filter (names ident) u.timers) ≡ 1
      → (t : Schedule) × (selected live u ident ≡ some t)
  unfolding selected
  selected_one ident h =
      only_one (filter (matches ident) (load_all live u)) (count-matches ident ∙ h)
