-- ===== src/Envelope/Counts.antt =====
-- What the ledger counts: the rows of a card and of a day, and one row more.
use horus_harness.Prelude.{ℕ, String, ◌≡◌, ◌≢◌, ◌∙◌, ap, refl, ◌+◌, Option, none, some}
use horus_harness.Prelude.{List, [], ◌∷◌, ◌++◌, arith, ◌==◌, eq_iff, if◌then◌else◌}
use horus_harness.Prelude.Dict
use horus_harness.Prelude.Dict.{Dict, get-insert}
use horus_harness.Prelude.Text.{starts_with}
use horus_harness.Calendar.{Calendar}
use horus_harness.Envelope.{DispatchRequest, Disk, Row, or_default, load}
use horus_harness.Envelope.Ledger.{
  Spend, spend, readable, read_ledger, count_row, count_rows, nothing_spent, row_of,
  record_dispatch,
}
use horus_harness.Envelope.Wall.{attempts_of, Attempt, dispatch}

-- The rows of a card, and those stamped on a day.
unfoldable pub count_card : String → List Row → ℕ
count_card c [] = 0
count_card c (r ∷ rows) = (if r.card == c then 1 else 0) + count_card c rows

unfoldable pub count_day : String → List Row → ℕ
count_day d [] = 0
count_day d (r ∷ rows) = (if starts_with r.ts d then 1 else 0) + count_day d rows

attempts-count_row :
    (today c : String) (s : Spend) (r : Row)
    → c ≢ ""
    → attempts_of (count_row today s r) c ≡ attempts_of s c + (if r.card == c then 1 else 0)
unfolding attempts_of count_row
attempts-count_row today c s r h = ground (
  arith,
  get-insert r.card c (or_default (Dict.get r.card s.attempts_by_card) 0 + 1) s.attempts_by_card,
  eq_iff r.card c,
  eq_iff r.card "",
)

today-count_row :
    (today : String) (s : Spend) (r : Row)
    → (count_row today s r).dispatches_today
      ≡ s.dispatches_today + (if starts_with r.ts today then 1 else 0)
unfolding count_row
today-count_row today s r = ground arith

attempts-count_rows :
    (today c : String) (s : Spend) (rows : List Row)
    → c ≢ ""
    → attempts_of (count_rows today s rows) c ≡ attempts_of s c + count_card c rows
unfolding count_rows count_card
attempts-count_rows today c s [] h = omega arith
attempts-count_rows today c s (r ∷ rows) h = omega (
  arith,
  attempts-count_rows today c (count_row today s r) rows h,
  attempts-count_row today c s r h,
)

today-count_rows :
    (today : String) (s : Spend) (rows : List Row)
    → (count_rows today s rows).dispatches_today ≡ s.dispatches_today + count_day today rows
unfolding count_rows count_day
today-count_rows today s [] = omega arith
today-count_rows today s (r ∷ rows) =
    omega (arith, today-count_rows today (count_row today s r) rows, today-count_row today s r)

readable-append :
    (lines : List (Option Row)) (r : Row)
    → readable (lines ++ some r ∷ []) ≡ readable lines ++ r ∷ []
unfolding readable
readable-append [] r = refl
readable-append (none ∷ lines) r = readable-append lines r
readable-append (some s ∷ lines) r = ap (λ rows. s ∷ rows) (readable-append lines r)

pub count_card-append :
    (c : String) (rows : List Row) (r : Row)
    → count_card c (rows ++ r ∷ []) ≡ count_card c rows + (if r.card == c then 1 else 0)
unfolding count_card
count_card-append c [] r = omega arith
count_card-append c (s ∷ rows) r = omega (arith, count_card-append c rows r)

pub count_day-append :
    (d : String) (rows : List Row) (r : Row)
    → count_day d (rows ++ r ∷ []) ≡ count_day d rows + (if starts_with r.ts d then 1 else 0)
unfolding count_day
count_day-append d [] r = omega arith
count_day-append d (s ∷ rows) r = omega (arith, count_day-append d rows r)

module _ (cal : Calendar) where
  pub read_ledger-record :
      (disk : Disk) (n m : String) (r : DispatchRequest) (sid : String) (now : cal.Instant)
      → read_ledger (record_dispatch cal disk n r sid now) m
        ≡ (if n == m then read_ledger disk m ++ row_of cal r sid now ∷ [] else read_ledger disk m)
  unfolding read_ledger record_dispatch
  read_ledger-record disk n m r sid now =
      let lines = or_default (Dict.get n disk.ledgers) [] in
      let row = row_of cal r sid now in
      ground (
        arith,
        get-insert n m (lines ++ some row ∷ []) disk.ledgers,
        eq_iff n m,
        readable-append lines row,
      )

  pub load-dispatch :
      (disk : Disk) (a : Attempt cal) (file : String)
      → load cal (dispatch cal disk a) file ≡ load cal disk file
  unfolding dispatch record_dispatch load
  load-dispatch disk a file = ground arith

  pub attempts-spend :
      (disk : Disk) (n c : String) (now : cal.Instant)
      → c ≢ ""
      → attempts_of (spend cal disk n now) c ≡ count_card c (read_ledger disk n)
  unfolding spend attempts_of
  attempts-spend disk n c now h =
      attempts-count_rows (cal.iso (cal.day now)) c nothing_spent (read_ledger disk n) h ∙ nothing
    where
      nothing :
          or_default (Dict.get {V = ℕ} c []) 0 + count_card c (read_ledger disk n)
          ≡ count_card c (read_ledger disk n)
      nothing = unfold Dict.get in omega arith

  pub today-spend :
      (disk : Disk) (n : String) (now : cal.Instant)
      → (spend cal disk n now).dispatches_today
        ≡ count_day (cal.iso (cal.day now)) (read_ledger disk n)
  unfolding spend
  today-spend disk n now =
      omega (arith, today-count_rows (cal.iso (cal.day now)) nothing_spent (read_ledger disk n))
