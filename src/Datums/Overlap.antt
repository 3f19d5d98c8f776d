-- ===== src/Datums/Overlap.antt =====
-- Which measured runs shared an account at a time, and which have no known end, in horus/datums.py.
-- `iso` reads a stamp as an instant, in seconds; `positive` is what the registry proves of an end.
use horus_harness.Prelude.{
  ℕ, ◌+◌, String, Bool, true, false, Option, none, some, List, ◌==◌, ◌&&◌, not, leb, map, filter,
  is_some, ◌≡◌, refl, In, In-filter, filter-In, arith, eq_iff,
}
use horus_harness.Datums.Store.{Datum, Rows}

abbrev same_text : Option String → Option String → Bool
same_text none none = true
same_text (some a) (some b) = a == b
same_text _ _ = false

abbrev or_now : ℕ → Option ℕ → ℕ × Bool
or_now now none = (now, false)
or_now now (some end) = (end, true)

abbrev is_met : Option ℕ → ℕ → Option ℕ → ℕ → Bool
is_met (some start) end (some peer_start) peer_end = leb start peer_end && leb peer_start end
is_met _ _ _ _ = false

module _ (iso : String → Option ℕ) (positive : String → Option ℕ) (running : String → Bool)
    (now : ℕ) where
  abbrev pub stamp : Option String → Option ℕ
  stamp none = none
  stamp (some text) = iso text

  abbrev evidence : Datum → Option ℕ
  evidence row = elim (stamp row.completed_at) [
    | some end ↦ some end
    | none ↦ positive row.session_id
  ]

  -- `_effective_interval`: the start, the end, and whether the end is known.
  unfoldable pub effective_interval : Datum → Option ℕ × ℕ × Bool
  effective_interval row =
      let (end, bounded) = or_now now (evidence row) in (iso row.launched_at, end, bounded)

  abbrev pub start_of : Datum → Option ℕ
  start_of row = (effective_interval row).0

  abbrev pub end_of : Datum → ℕ
  end_of row = (effective_interval row).1

  unfoldable pub is_overlap : Datum → Datum → Bool
  unfolding effective_interval
  is_overlap datum peer =
      not (peer.session_id == datum.session_id)
      && peer.worker
      && same_text peer.agent datum.agent
      && same_text peer.account datum.account
      && is_met (start_of datum) (end_of datum) (start_of peer) (end_of peer)

  -- `_overlap_peers`
  unfoldable pub overlap_peers : Datum → List Datum → List Datum
  unfolding is_overlap
  overlap_peers datum peers = filter (is_overlap datum) peers

  abbrev is_old : ℕ → Option ℕ → Bool
  is_old after none = false
  is_old after (some launched) = leb (launched + after) now

  abbrev given : Option String → Bool
  given none = false
  given (some s) = not (s == "")

  -- `unresolved_legacy_runs`, after so many seconds
  unfoldable pub unresolved_legacy_runs : ℕ → Rows → List Datum
  unresolved_legacy_runs after rows =
      filter
        (λ row.
          row.worker
          && not (given row.completed_at)
          && is_old after (iso row.launched_at)
          && not (is_some (positive row.session_id))
          && not (running row.session_id))
        (map (λ e. e.1) rows)

  same_text_sym : (a b : Option String) → same_text a b ≡ true → same_text b a ≡ true
  same_text_sym none none h = refl
  same_text_sym (some a) (some b) h = ground (arith, eq_iff a b, eq_iff b a)
  same_text_sym none (some b) h = absurd (cc h)
  same_text_sym (some a) none h = absurd (cc h)

  is_met_sym :
      (s : Option ℕ) (e : ℕ) (t : Option ℕ) (f : ℕ) → is_met s e t f ≡ true → is_met t f s e ≡ true
  is_met_sym (some s) e (some t) f h = ground arith
  is_met_sym none e none f h = absurd (cc h)
  is_met_sym (some s) e none f h = absurd (cc h)
  is_met_sym none e (some t) f h = absurd (cc h)

  turned :
      (i j : String) (w v : Bool) (a b c a' b' c' : Bool)
      → v ≡ true
      → (a ≡ true → a' ≡ true)
      → (b ≡ true → b' ≡ true)
      → (c ≡ true → c' ≡ true)
      → (not (i == j) && w && a && b && c) ≡ true
      → (not (j == i) && v && a' && b' && c') ≡ true
  turned i j w v a b c a' b' c' worker f g k h = ground (arith, eq_iff i j, eq_iff j i)

  -- Two workers' runs overlap each other or not at all: whichever of them is asked about, the other is
  -- named among its peers.
  pub overlap_peers_sym :
      (a b : Datum) (runs others : List Datum)
      → a.worker ≡ true
      → In a others
      → In b (overlap_peers a runs)
      → In a (overlap_peers b others)
  unfolding overlap_peers is_overlap
  overlap_peers_sym a b runs others worker there h = filter-In (is_overlap b) a others there (
      turned b.session_id a.session_id b.worker a.worker _ _ _ _ _ _ worker
        (same_text_sym b.agent a.agent) (same_text_sym b.account a.account)
        (is_met_sym (start_of a) (end_of a) (start_of b) (end_of b))
        (In-filter (is_overlap a) b runs h).1)
