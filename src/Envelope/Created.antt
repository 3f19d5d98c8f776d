-- ===== src/Envelope/Created.antt =====
-- What `create` writes: a narrow envelope, which `load` reads back.
use horus_harness.Prelude.{
  ℕ, String, ◌≡◌, ◌≢◌, ◌≤◌, ◌<◌, refl, ap, true, false, none, some, inl, inr,
}
use horus_harness.Prelude.{List, [], ◌∷◌, arith, ◌==◌, eq_iff, eq_refl, All, member}
use mathlib.Core.Path.{subst}
use horus_harness.Prelude.{
  In, ne_of_test, Result-cases, ok-injective, Option-cases, ◌⊎◌, Bool-cases, All-append, All-In, ok,
  err,
}
use horus_harness.Prelude.Dict
use horus_harness.Prelude.Dict.{Dict, get-insert}
use horus_harness.Prelude.Text.{strip}
use horus_harness.Calendar.{Calendar}
use horus_harness.Accounts.{
  AccountRef, AccountError, AccountResolution, found, refused, label, resolve_account,
}
use horus_harness.Accounts.Resolve.{In-resolve_account}
use horus_harness.Datums.Tiers.{normalize_tier, neutral_tiers}
use horus_harness.Envelope.{
  Envelope, Disk, load, read_fields, read_file, fields_of, is_plain, write, strs,
}
use horus_harness.Datums.Tiers.Closed.{normalize_tier-neutral}
use horus_harness.Envelope.Authorized.{member_iff}
use horus_harness.Envelope.Revoked.{load-write}
use horus_harness.Envelope.Create.{
  Bounds, unresolved_account, unrecognized_tier, check_bounds, create, resolve_all, neutral_all,
  add_once, validate_name,
}

-- A text that `_strs` keeps as it is.
abbrev pub IsClean : String → Type 0
IsClean v = (strip v ≡ v) × (v ≢ "")

strs-clean : (vs : List String) → All IsClean vs → strs vs ≡ vs
unfolding strs
strs-clean [] c = refl
strs-clean (v ∷ vs) ((s, n), c) = rw s (ground (arith, strs-clean vs c, eq_iff v ""))

resolution_cases :
    (v : AccountResolution)
    → ((r : AccountRef) × (v ≡ found r)) ⊎ ((e : AccountError) × (v ≡ refused e))
resolution_cases (found r) = inl (r, refl)
resolution_cases (refused e) = inr (e, refl)

module _ (P : String → Type 0) where
  add_once-All : (xs : List String) (x : String) → All P xs → P x → All P (add_once xs x)
  add_once-All xs x h p = elim (Bool-cases (member x xs)) [
    | inl old ↦ rw old h
    | inr new ↦ rw new (All-append P xs (x ∷ []) h (p, tt))
  ]

  resolve_all-All :
      (known : List AccountRef) (names resolved : List String) {out : List String}
      → ((a : String) (r : AccountRef) → resolve_account known none a ≡ found r → P (label r))
      → All P resolved
      → resolve_all known names resolved ≡ ok out
      → All P out
  unfolding resolve_all
  resolve_all-All known [] resolved p h e = subst (All P) (ok-injective e) h
  resolve_all-All known (a ∷ names) resolved {out} p h e =
      elim (resolution_cases (resolve_account known none a)) [
        | inl (r, q) ↦
            resolve_all-All known names (add_once resolved (label r)) p
              (add_once-All resolved (label r) h (p a r q)) (rw (q, resolve_all) at e)
        | inr (x, q) ↦
            let bad : resolve_all known (a ∷ names) resolved ≡ err (unresolved_account x) =
              rw (q, resolve_all) refl in
            absurd (cc bad)
      ]

  neutral_all-All :
      (tiers neutral : List String) {out : List String}
      → ((t u : String) → normalize_tier t ≡ some u → P u)
      → All P neutral
      → neutral_all tiers neutral ≡ ok out
      → All P out
  unfolding neutral_all
  neutral_all-All [] neutral p h e = subst (All P) (ok-injective e) h
  neutral_all-All (t ∷ tiers) neutral p h e = elim (Option-cases (normalize_tier t)) [
    | inl q ↦
        let bad : neutral_all (t ∷ tiers) neutral ≡ err (unrecognized_tier t) =
          rw (q, neutral_all) refl in
        absurd (cc bad)
    | inr (u, q) ↦
        neutral_all-All tiers (add_once neutral u) p (add_once-All neutral u h (p t u q))
          (rw (q, neutral_all) at e)
  ]

-- The bounds that `create` insists on, and how the envelope carries them.
pub record IsNarrow (cal : Calendar) (b : Bounds) (today : ℕ) (e : Envelope) : Type 0 where
  pub expires : e.expires ≡ b.expires
  pub lives : (d : ℕ) × (cal.from_iso b.expires ≡ some d) × (today ≤ d)
  pub cards : (e.cards ≡ b.cards) × (e.cards ≢ [])
  pub tiers : All (λ t. member t neutral_tiers ≡ true) e.tiers
  pub efforts : e.efforts ≡ b.efforts
  pub floor : (e.usage_floor ≡ b.usage_floor) × (e.usage_floor ≤ 100)
  pub attempts : (e.max_attempts_per_card ≡ b.max_attempts_per_card) × (0 < e.max_attempts_per_card)
  pub dispatches :
      (e.max_dispatches_per_day ≡ b.max_dispatches_per_day) × (0 < e.max_dispatches_per_day)
  pub live : e.revoked ≡ false

module _ (cal : Calendar) (known : List AccountRef) (name : String) (b : Bounds) (today : ℕ) where
  abbrev Succeeds : Envelope → Type 0
  Succeeds e = check_bounds cal known name b today ≡ ok e

  -- The calls that a success went through.
  data Went (e : Envelope) : Type 0 where
    went :
        (expiry : ℕ) (accounts tiers : List String)
        → cal.from_iso b.expires ≡ some expiry
        → resolve_all known b.accounts [] ≡ ok accounts
        → neutral_all b.tiers [] ≡ ok tiers
        → e.accounts ≡ accounts
        → e.tiers ≡ tiers
        → e.name ≡ name
        → IsNarrow cal b today e
        → Went e

  Went-from :
      (e : Envelope) (expiry : ℕ) (accounts tiers : List String)
      → Succeeds e
      → cal.from_iso b.expires ≡ some expiry
      → resolve_all known b.accounts [] ≡ ok accounts
      → neutral_all b.tiers [] ≡ ok tiers
      → Went e
  unfolding check_bounds
  Went-from e expiry accounts tiers h x r n =
      let neutral =
        neutral_all-All (λ t. member t neutral_tiers ≡ true) b.tiers [] normalize_tier-neutral tt
          n in
      let same : e.tiers ≡ tiers = ground arith in
      went expiry accounts tiers x r n (ground arith) same (ground arith) (record {
        expires = ground arith;
        lives = (expiry, x, ground arith);
        cards = (ground arith, ground arith);
        tiers = rw same neutral;
        efforts = ground arith;
        floor = (ground arith, ground arith);
        attempts = (ground arith, ground arith);
        dispatches = (ground arith, ground arith);
        live = ground arith;
      })

  Succeeds-Went : (e : Envelope) → Succeeds e → Went e
  unfolding check_bounds
  Succeeds-Went e h = elim (Option-cases (cal.from_iso b.expires)) [
    | inl bad ↦ absurd (ground arith)
    | inr (expiry, x) ↦ elim (Result-cases (resolve_all known b.accounts [])) [
      | inr (q, bad) ↦ absurd (ground arith)
      | inl (accounts, r) ↦ elim (Result-cases (neutral_all b.tiers [])) [
        | inr (q, bad) ↦ absurd (ground arith)
        | inl (tiers, n) ↦ Went-from e expiry accounts tiers h x r n
      ]
    ]
  ]

-- What `create` returns: it wrote the envelope that it returns, at a name that had no file.
create_inv :
    (cal : Calendar) (known : List AccountRef) (disk : Disk) (name : String) (b : Bounds)
    (today : ℕ) {e : Envelope} {disk' : Disk}
    → create cal known disk name b today ≡ ok (e, disk')
    → (stem : String) × (check_bounds cal known stem b today ≡ ok e)
      × (disk' ≡ write disk e)
      × (Dict.get stem disk.files ≡ none)
unfolding create
create_inv cal known disk name b today {e} {disk'} h = elim (Result-cases (validate_name name)) [
  | inr (q, bad) ↦ absurd (ground arith)
  | inl (stem, v) ↦ elim (Result-cases (check_bounds cal known stem b today)) [
    | inr (q, bad) ↦ absurd (ground arith)
    | inl (e', c) ↦ (stem, ground arith, ground arith, ground arith)
  ]
]

-- A successful `create` leaves an envelope that carries the bounds that were asked for: a last day
-- that is not past, at least one card, neutral tiers only, a floor of at most 100 and at least one
-- attempt and one dispatch a day.
pub create-IsNarrow :
    (cal : Calendar) (known : List AccountRef) (disk : Disk) (name : String) (b : Bounds)
    (today : ℕ) {e : Envelope} {disk' : Disk}
    → create cal known disk name b today ≡ ok (e, disk')
    → IsNarrow cal b today e
create-IsNarrow cal known disk name b today {e} h =
    let (stem, c, w, f) = create_inv cal known disk name b today h in
    elim (Succeeds-Went cal known stem b today e c) [
      | went expiry accounts tiers x r n ea et en narrow ↦ narrow
    ]

abbrev clean : (t : String) → strip t ≡ t → (t == "") ≡ false → IsClean t
clean t s n = (s, ne_of_test t "" n)

neutral_clean_in : (t : String) → In t neutral_tiers → IsClean t
unfolding strip
neutral_clean_in t (inl e) = rw e (clean "low" refl refl)
neutral_clean_in t (inr (inl e)) = rw e (clean "medium" refl refl)
neutral_clean_in t (inr (inr (inl e))) = rw e (clean "high" refl refl)
neutral_clean_in t (inr (inr (inr (inl e)))) = rw e (clean "frontier" refl refl)
neutral_clean_in t (inr (inr (inr (inr e)))) = absurd e

neutral_clean : (ts : List String) → All (λ t. member t neutral_tiers ≡ true) ts → All IsClean ts
neutral_clean [] h = tt
neutral_clean (t ∷ ts) (h, hs) =
    (neutral_clean_in t ((member_iff t neutral_tiers).0 h), neutral_clean ts hs)

read-fields_of :
    (cal : Calendar) (e : Envelope) (d : ℕ)
    → strip e.expires ≡ e.expires
    → cal.from_iso e.expires ≡ some d
    → strs e.cards ≡ e.cards
    → strs e.accounts ≡ e.accounts
    → strs e.tiers ≡ e.tiers
    → strs e.efforts ≡ e.efforts
    → read_fields cal e.name (fields_of e) ≡ some e
unfolding read_fields fields_of
read-fields_of cal e d x f c a t g =
    rw (x, f, c, a, t, g) (ap (λ (v : String). some (record e { expires = v })) x)

labels_clean :
    (known : List AccountRef) (a : String) (r : AccountRef)
    → All (λ k. IsClean (label k)) known
    → resolve_account known none a ≡ found r
    → IsClean (label r)
labels_clean known a r clean h =
    All-In (λ k. IsClean (label k)) r known clean (In-resolve_account known none a r h)

-- Where no account, card or effort has spaces around it or is blank, the expiry has none, and no text
-- of the envelope has a quote, a backslash or a control character other than a tab in it, the
-- envelope that `create` returns is the one that `load` then reads under its name.
pub load-create :
    (cal : Calendar) (known : List AccountRef) (disk : Disk) (name : String) (b : Bounds)
    (today : ℕ) {e : Envelope} {disk' : Disk}
    → create cal known disk name b today ≡ ok (e, disk')
    → All (λ r. IsClean (label r)) known
    → All IsClean b.cards
    → All IsClean b.efforts
    → strip b.expires ≡ b.expires
    → is_plain e ≡ true
    → load cal disk' e.name ≡ some e
load-create cal known disk name b today {e} h ka kc ke kx plain =
    let (stem, c, w, f) = create_inv cal known disk name b today h in
    elim (Succeeds-Went cal known stem b today e c) [
      | went expiry accounts tiers x r n ea et en narrow ↦
          let ca =
            resolve_all-All IsClean known b.accounts [] (λ a r q. labels_clean known a r ka q) tt
              r in
          let read =
            read-fields_of cal e expiry (rw narrow.expires kx) (rw narrow.expires x)
              (rw narrow.cards.0 (strs-clean b.cards kc)) (rw ea (strs-clean accounts ca))
              (strs-clean e.tiers (neutral_clean e.tiers narrow.tiers))
              (rw narrow.efforts (strs-clean b.efforts ke)) in
          rw (w, load-write cal disk e e.name, eq_refl e.name, plain) (unfold read_file in read)
    ]
