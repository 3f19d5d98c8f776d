-- ===== src/Delivery/Ready.antt =====
-- What `delivery-ready` means.
use horus_harness.Prelude.{String, Bool, true, false, Option, none, some, ◌==◌}
use horus_harness.Prelude.{◌≡◌, refl, ap, ◌≢◌, inl, inr, eq_iff, ne_of_test}
use horus_harness.Prelude.{◌||◌, not, member, is_some, Bool-cases}
use horus_harness.Delivery.{
  Probes, DeliveryEvidence, classify_delivery, capture_delivery_evidence, nonclean_statuses, given,
  is_true, evidence_of, evidence_head, beyond, run_sha, pushed_tip_checked, branch_of,
  is_beyond_base,
}

-- What the classifier reads of a run that is ready.
abbrev IsClean : String → Bool → Option String → DeliveryEvidence → Type 0
IsClean status expected base e =
    (status ≡ "exited")
    × (expected ≡ true)
    × (is_some (given base) ≡ true)
    × (e.inspectable ≡ true)
    × (is_true e.pushed_beyond_base ≡ true)

guards :
    (a b c d : Bool) → (a || not b || not c || not d) ≡ false → (b ≡ true) × (c ≡ true) × (d ≡ true)
guards true b c d h = absurd (cc h)
guards false true true true h = (refl, refl, refl)
guards false false c d h = absurd (cc h)
guards false true false d h = absurd (cc h)
guards false true true false h = absurd (cc h)

classify_delivery-IsClean :
    (status : String) (expected : Bool) (base : Option String) (e : DeliveryEvidence)
    → classify_delivery status expected base e ≡ "delivery-ready"
    → IsClean status expected base e
unfolding classify_delivery
classify_delivery-IsClean status expected base e h =
    elim (Bool-cases
      (status == "running" || not expected || not (is_some (given base)) || not e.inspectable)) [
        | inl g ↦ absurd (cc (rw g at h))
        | inr g ↦ elim (Bool-cases (status == "exited")) [
          | inl x ↦ elim (Bool-cases (is_true e.pushed_beyond_base)) [
            | inl p ↦
                let (x2, x3, x4) =
                  guards (status == "running") expected (is_some (given base)) e.inspectable g in
                ((eq_iff status "exited").0 x, x2, x3, x4, p)
            | inr p ↦ elim (Bool-cases (is_true e.local_changes)) [
              | inl l ↦ absurd (cc (rw (g, x, p, l) at h))
              | inr l ↦ absurd (cc (rw (g, x, p, l) at h))
            ]
          ]
          | inr x ↦ elim (Bool-cases (member status nonclean_statuses)) [
            | inl n ↦ elim (Bool-cases (is_true e.pushed_beyond_base || is_true e.local_changes)) [
              | inl l ↦ absurd (cc (rw (g, x, n, l) at h))
              | inr l ↦ absurd (cc (rw (g, x, n, l) at h))
            ]
            | inr n ↦ absurd (cc (rw (g, x, n) at h))
          ]
        ]
      ]

-- The commit is a strict descendant of the base, as git says.
abbrev pub IsBeyond : Probes → String → String → Type 0
IsBeyond g base sha = (sha ≢ base) × (g.is_ancestor base sha ≡ some true)

pub is_beyond_base-IsBeyond :
    (g : Probes) (base sha : String) → is_beyond_base g base sha ≡ some true → IsBeyond g base sha
unfolding is_beyond_base
is_beyond_base-IsBeyond g base sha h = elim (Bool-cases (sha == base)) [
  | inl e ↦ absurd (cc (rw e at h))
  | inr e ↦ (ne_of_test sha base e, rw e at h)
]

pub is_true-some : (o : Option Bool) → is_true o ≡ true → o ≡ some true
is_true-some none h = absurd (cc h)
is_true-some (some b) h = ap some h

-- The base and the commit that an answer of `beyond` is about.
abbrev IsAhead : Probes → Option String → Option String → Type 0
IsAhead g base sha = (b : String) × (p : String) × (base ≡ some b) × (sha ≡ some p) × IsBeyond g b p

beyond-IsAhead :
    (g : Probes) (base sha : Option String)
    → is_true (beyond g base sha) ≡ true
    → IsAhead g base sha
beyond-IsAhead g none sha h = absurd (cc h)
beyond-IsAhead g (some b) none h = absurd (cc h)
beyond-IsAhead g (some b) (some p) h =
    (b, p, refl, refl, is_beyond_base-IsBeyond g b p (is_true-some (is_beyond_base g b p) h))

evidence_head-IsAhead :
    (g : Probes) (base : Option String) (branch : String) (dirty : Bool) (o : Option String)
    → is_true (evidence_head g base branch dirty o).pushed_beyond_base ≡ true
    → IsAhead g (given base) (evidence_head g base branch dirty o).pushed_sha
evidence_head-IsAhead g base branch dirty none h = absurd (cc h)
evidence_head-IsAhead g base branch dirty (some head) h =
    beyond-IsAhead g (given base) (run_sha g (pushed_tip_checked g)) h

evidence_of-IsAhead :
    (g : Probes) (base : Option String) (o : Option (String × Bool))
    → is_true (evidence_of g base o).pushed_beyond_base ≡ true
    → IsAhead g (given base) (evidence_of g base o).pushed_sha
evidence_of-IsAhead g base none h = absurd (cc h)
evidence_of-IsAhead g base (some (branch, dirty)) h =
    evidence_head-IsAhead g base branch dirty (given g.head) h

-- A run whose captured evidence is classified as delivery-ready: it exited, a delivery was expected
-- of it, it was dispatched from a base, and the pushed commit attributed to it is a strict
-- descendant of that base.
pub classify_delivery_ready :
    (g : Probes) (status : String) (expected : Bool) (base : Option String)
    → classify_delivery status expected base (capture_delivery_evidence g base) ≡ "delivery-ready"
    → (status ≡ "exited")
      × (expected ≡ true)
      × (b : String) × (p : String) × (given base ≡ some b)
      × ((capture_delivery_evidence g base).pushed_sha ≡ some p)
      × IsBeyond g b p
unfolding capture_delivery_evidence
classify_delivery_ready g status expected base h =
    let (exited, wanted, _, _, pushed) =
      classify_delivery-IsClean status expected base (capture_delivery_evidence g base) h in
    let (b, p, has_base, has_sha, ahead) = evidence_of-IsAhead g base (branch_of g) pushed in
    (exited, wanted, b, p, has_base, has_sha, ahead)
