-- ===== src/Delivery/Receipt.antt =====
-- `delivery_receipt` and `render_receipt` of horus/delivery.py. An exception of a probe, which gives
-- no receipt, is not among the probes' answers.
use horus_harness.Prelude.{
  ℕ, String, Bool, true, false, Option, none, some, List, [], ◌∷◌, ◌++◌, ◌==◌, ◌≡◌, ◌≢◌, inl, inr,
}
use horus_harness.Prelude.{if◌then◌else◌, ◌&&◌, ◌||◌, not, is_some, beq, Bool-cases, test_of_ne}
use mathlib.Core.Path.{subst}
use mathlib.Core.Option.{some-injective}
use horus_harness.Prelude.Text.{◌<>◌, join}
use horus_harness.Delivery.{Probes, Pull, given, is_true, pushed_sha, is_beyond_base, branch_of}
use horus_harness.Delivery.Ready.{IsBeyond, is_beyond_base-IsBeyond, is_true-some}

pub record DeliveryReceipt : Type 0 where
  pub branch : String
  pub pushed_sha : Option String
  pub pull : Option Pull
  pub continuity_closed : Bool

abbrev number_test : Option Pull → Bool
number_test none = false
number_test (some p) = not (beq p.number 0)

-- `DeliveryReceipt.has_signal`
unfoldable pub has_signal : DeliveryReceipt → Bool
has_signal r = is_some (given r.pushed_sha) || number_test r.pull || r.continuity_closed

abbrev bare : String → DeliveryReceipt
bare branch = record { branch = branch; pushed_sha = none; pull = none; continuity_closed = false }

abbrev head_beyond : Probes → String → Option String → Option Bool
head_beyond g base none = none
head_beyond g base (some head) = is_beyond_base g base head

-- A pushed tip at or behind the base predates the run.
unfoldable pub beyond_only : Probes → String → Option String → Option String
unfolding is_beyond_base
beyond_only g base none = none
beyond_only g base (some sha) =
    if sha == "" then some sha else if is_true (is_beyond_base g base sha) then some sha else none

abbrev pull_of : Probes → Option String → Option Pull
pull_of g none = none
pull_of g (some sha) = if sha == "" then none else g.pull (some sha) false

abbrev based_receipt : Probes → String → String → Bool → Option Bool → DeliveryReceipt
based_receipt g base branch dirty ahead =
    let sha = beyond_only g base (pushed_sha g) in
    if not (is_true ahead) && not dirty then bare branch else record {
      branch = branch;
      pushed_sha = sha;
      pull = pull_of g sha;
      continuity_closed = is_true ahead && g.continuity_closed;
    }

abbrev receipt_of : Probes → Option String → String × Bool → DeliveryReceipt
receipt_of g none (branch, dirty) = record {
  branch = branch;
  pushed_sha = pushed_sha g;
  pull = g.pull (pushed_sha g) false;
  continuity_closed = g.continuity_closed;
}
receipt_of g (some base) (branch, dirty) =
    based_receipt g base branch dirty (head_beyond g base (given g.head))

abbrev receipt_at : Probes → Option String → Option (String × Bool) → Option DeliveryReceipt
receipt_at g base none = none
receipt_at g base (some checkout) = some (receipt_of g base checkout)

unfoldable pub delivery_receipt : Probes → Option String → Option DeliveryReceipt
unfolding branch_of pushed_sha is_beyond_base beyond_only
delivery_receipt g base = receipt_at g (given base) (branch_of g)

-- `s[:8]`
first_eight : List Bool → String → String
first_eight [] s = ""
first_eight (x ∷ xs) String.[] = ""
first_eight (x ∷ xs) (String.◌∷◌ c s) = String.◌∷◌ c (first_eight xs s)

abbrev eight : List Bool
eight = true ∷ true ∷ true ∷ true ∷ true ∷ true ∷ true ∷ true ∷ []

abbrev pushed_bit : Option String → List String
pushed_bit none = []
pushed_bit (some sha) = ("pushed " <> first_eight eight sha) ∷ []

-- `show` writes a number in decimal.
abbrev pull_bit : (ℕ → String) → Option Pull → List String
pull_bit show none = []
pull_bit show (some p) = if beq p.number 0 then [] else ("PR #" <> show p.number) ∷ []

abbrev rendered : (ℕ → String) → String → DeliveryReceipt → String
rendered show status r = join " · " (
    (status <> "-but-delivered") ∷ pushed_bit (given r.pushed_sha)
    ++ pull_bit show r.pull
    ++ (if r.continuity_closed then "continuity closed" ∷ [] else []))

unfoldable pub render_receipt : (ℕ → String) → String → Option DeliveryReceipt → String
unfolding has_signal first_eight join ◌<>◌
render_receipt show status none = ""
render_receipt show status (some r) = if has_signal r then rendered show status r else ""

-- The commit of a receipt, where it names one.
abbrev pub sha_of : Option DeliveryReceipt → Option String
sha_of none = none
sha_of (some r) = given r.pushed_sha

given-beyond_only :
    (g : Probes) (base sha : String) (o : Option String)
    → given (beyond_only g base o) ≡ some sha
    → IsBeyond g base sha
unfolding beyond_only
given-beyond_only g base sha none h = absurd (cc h)
given-beyond_only g base sha (some t) h = elim (Bool-cases (t == "")) [
  | inl e ↦ absurd (cc (rw (e, e) at h))
  | inr e ↦ elim (Bool-cases (is_true (is_beyond_base g base t))) [
    | inr b ↦ absurd (cc (rw (e, b) at h))
    | inl b ↦
        let same : t ≡ sha = some-injective t sha (rw (e, b, e) at h) in
        subst (IsBeyond g base) same
          (is_beyond_base-IsBeyond g base t (is_true-some (is_beyond_base g base t) b))
  ]
]

based_receipt-IsBeyond :
    (g : Probes) (base branch sha : String) (dirty : Bool) (ahead : Option Bool)
    → given (based_receipt g base branch dirty ahead).pushed_sha ≡ some sha
    → IsBeyond g base sha
based_receipt-IsBeyond g base branch sha dirty ahead h =
    elim (Bool-cases (not (is_true ahead) && not dirty)) [
      | inl e ↦ absurd (cc (rw e at h))
      | inr e ↦ given-beyond_only g base sha (pushed_sha g) (rw e at h)
    ]

receipt_at-IsBeyond :
    (g : Probes) (base sha : String) (o : Option (String × Bool))
    → sha_of (receipt_at g (some base) o) ≡ some sha
    → IsBeyond g base sha
receipt_at-IsBeyond g base sha none h = absurd (cc h)
receipt_at-IsBeyond g base sha (some (branch, dirty)) h =
    based_receipt-IsBeyond g base branch sha dirty (head_beyond g base (given g.head)) h

-- Of a run that was dispatched from a base, a receipt names no pushed commit but a strict descendant
-- of that base.
pub delivery_receipt-IsBeyond :
    (g : Probes) (base sha : String)
    → base ≢ ""
    → sha_of (delivery_receipt g (some base)) ≡ some sha
    → IsBeyond g base sha
unfolding delivery_receipt
delivery_receipt-IsBeyond g base sha named h =
    receipt_at-IsBeyond g base sha (branch_of g) (rw (test_of_ne base "" named) at h)
