-- ===== src/InputBridge/Answered.antt =====
-- What `record_answer` writes, and that no answer is written over.
use horus_harness.Prelude.{
  ℕ, String, Bool, true, false, Option, none, some, List, [], ◌∷◌, ◌==◌, ◌||◌, not, ◌≡◌, ◌≢◌, refl,
  sym, ap, ◌∙◌, ◌⊎◌, inl, inr,
}
use horus_harness.Prelude.{
  if◌then◌else◌, Bool-cases, Option-cases, is_some, In, In-filter, filter, arith, ne_of_test,
}
use mathlib.Core.Path.{subst}
use mathlib.Core.Option.{some-injective}
use horus_harness.Prelude.Dict
use horus_harness.Prelude.Dict.{get-insert}
use horus_harness.Prelude.Integers.{ℤ, pos, negsuc}
use horus_harness.Prelude.Text.{strip, starts_with}
use horus_harness.InputBridge.{
  InputRequest, Kind, option, typed, Store, Told, answered, Choice, chosen, refused, Target, found,
  missed, list_pending, resolve, only, nth, indexed, option_at, picked, choose, written,
  answer_with, write_response, target_of, named, the_open_one, record_for, record_answer,
}

-- An answer that a request may be given: one of its options, or a text where it takes one.
abbrev pub IsAllowed : InputRequest → String → Kind → Type 0
IsAllowed req answer option = (n : ℕ) × (nth n req.options ≡ some answer)
IsAllowed req answer typed = (req.free_text ≡ true) × (answer ≢ "")

text_of : Choice → String
text_of (chosen answer kind) = answer
text_of (refused why) = ""

same_answer : {a b : String} {k l : Kind} → chosen a k ≡ chosen b l → a ≡ b
unfolding text_of
same_answer h = ap text_of h

indexed-IsAllowed :
    (req : InputRequest) (index : ℤ) (o : Option String) (answer : String) (kind : Kind)
    → ((value : String) → o ≡ some value → (n : ℕ) × (nth n req.options ≡ some value))
    → indexed req index o ≡ chosen answer kind
    → IsAllowed req answer kind
indexed-IsAllowed req index none answer kind at_n h = absurd (cc h)
indexed-IsAllowed req index (some value) answer option at_n h =
    let (n, e) = at_n value refl in (n, e ∙ ap some (same_answer h))
indexed-IsAllowed req index (some value) answer typed at_n h = absurd (cc h)

at_some :
    (req : InputRequest) (index : ℤ) (value : String)
    → option_at index req.options ≡ some value
    → (n : ℕ) × (nth n req.options ≡ some value)
at_some req (pos n) value h = (n, h)
at_some req (negsuc n) value h = absurd (cc h)

picked-IsAllowed :
    (req : InputRequest) (payload : String) (index : Option ℤ) (answer : String) (kind : Kind)
    → picked req payload index ≡ chosen answer kind
    → IsAllowed req answer kind
picked-IsAllowed req payload none answer kind h = absurd (cc h)
picked-IsAllowed req payload (some index) answer kind h =
    indexed-IsAllowed req index (option_at index req.options) answer kind (at_some req index) h

typed-IsAllowed :
    (req : InputRequest) (payload : String) (empty refuses : Bool) (why other : Told)
    (answer : String) (kind : Kind)
    → (payload == "") ≡ empty
    → not req.free_text ≡ refuses
    → (if empty then refused why else if refuses then refused other else chosen payload typed)
      ≡ chosen answer kind
    → IsAllowed req answer kind
typed-IsAllowed req payload true refuses why other answer kind e f h = absurd (cc h)
typed-IsAllowed req payload false true why other answer kind e f h = absurd (cc h)
typed-IsAllowed req payload false false why other answer option e f h = absurd (cc h)
typed-IsAllowed req payload false false why other answer typed e f h =
    (ground arith, subst (λ a. a ≢ "") (same_answer h) (ne_of_test payload "" e))

choose-IsAllowed :
    (req : InputRequest) (payload answer : String) (kind : Kind)
    → choose req payload ≡ chosen answer kind
    → IsAllowed req answer kind
unfolding choose
choose-IsAllowed req payload answer kind h = elim (Bool-cases (starts_with payload "#")) [
  | inl e ↦ picked-IsAllowed req payload _ answer kind (rw e at h)
  | inr e ↦ typed-IsAllowed req payload _ _ _ _ answer kind refl refl (rw e at h)
]

-- Nothing was written; or the request was open, the answer is allowed, and it is the response to this
-- request now, which had none, while the others are as they were.
abbrev pub IsRecorded : ℕ → Store → Told × Store → Type 0
IsRecorded now before (told, after) =
    (after ≡ before)
    ⊎ ((req : InputRequest) × (answer : String) × (kind : Kind) × In req (list_pending before)
        × IsAllowed req answer kind
        × (told ≡ answered req.id answer)
        × (Dict.get req.id before.responses ≡ none)
        × (after.requests ≡ before.requests)
        × ((j : String)
            → Dict.get j after.responses ≡ (
                if req.id == j
                then some
                    (some (record { id = req.id; answer = answer; kind = kind; answered_at = now }))
                else Dict.get j before.responses)))

written-IsRecorded :
    (now : ℕ) (store : Store) (req : InputRequest) (answer : String) (kind : Kind)
    → In req (list_pending store)
    → IsAllowed req answer kind
    → IsRecorded now store (written req answer (write_response req.id answer kind now store))
unfolding write_response
written-IsRecorded now store req answer kind m allowed =
    elim (Bool-cases (not (is_some (Dict.get req.id store.requests)))) [
      | inl e ↦ rw e (inl refl)
      | inr e ↦ elim (Option-cases (Dict.get req.id store.responses)) [
        | inr (r, f) ↦ rw (e, f) (inl refl)
        | inl f ↦
            rw (e, f)
              (inr (
                req,
                answer,
                kind,
                m,
                allowed,
                refl,
                f,
                refl,
                λ j. get-insert req.id j _ store.responses,
              ))
      ]
    ]

answer_with-IsRecorded :
    (now : ℕ) (store : Store) (req : InputRequest) (payload : String) (c : Choice)
    → In req (list_pending store)
    → choose req payload ≡ c
    → IsRecorded now store (answer_with now store req c)
answer_with-IsRecorded now store req payload (refused why) m e = inl refl
answer_with-IsRecorded now store req payload (chosen answer kind) m e =
    written-IsRecorded now store req answer kind m (choose-IsAllowed req payload answer kind e)

only-In : (req : InputRequest) (xs : List InputRequest) → only xs ≡ some req → In req xs
only-In req [] h = absurd (cc h)
only-In req (x ∷ []) h = inl (sym (some-injective x req h))
only-In req (x ∷ y ∷ xs) h = absurd (cc h)

request_of : Target → Option InputRequest
request_of (found req) = some req
request_of (missed why) = none

named-In :
    (store : Store) (target : String) (o : Option InputRequest) (req : InputRequest)
    → resolve store target ≡ o
    → request_of (named target o) ≡ some req
    → In req (list_pending store)
unfolding request_of resolve
named-In store target none req e h = absurd (cc h)
named-In store target (some r) req e h =
    let m =
      only-In r (filter (λ x. x.id == target || starts_with x.id target) (list_pending store)) e in
    subst (λ x. In x (list_pending store)) (some-injective r req h)
      (In-filter (λ x. x.id == target || starts_with x.id target) r (list_pending store) m).0

open-In :
    (pending : List InputRequest) (req : InputRequest)
    → request_of (the_open_one pending) ≡ some req
    → In req pending
unfolding request_of
open-In [] req h = absurd (cc h)
open-In (r ∷ []) req h = inl (sym (some-injective r req h))
open-In (a ∷ b ∷ rest) req h = absurd (cc h)

target-In :
    (store : Store) (target : Option String) (req : InputRequest)
    → request_of (target_of store target) ≡ some req
    → In req (list_pending store)
unfolding target_of
target-In store none req h = open-In (list_pending store) req h
target-In store (some target) req h = named-In store target (resolve store target) req refl h

record_for-IsRecorded :
    (now : ℕ) (payload : String) (store : Store) (t : Target)
    → ((req : InputRequest) → request_of t ≡ some req → In req (list_pending store))
    → IsRecorded now store (record_for now payload store t)
unfolding request_of
record_for-IsRecorded now payload store (missed why) m = inl refl
record_for-IsRecorded now payload store (found req) m =
    answer_with-IsRecorded now store req (strip payload) (choose req (strip payload)) (m req refl)
      refl

-- An answer of the owner changes nothing, or it is recorded for one request that was open: as one of
-- its options, or as a text that is not empty where it takes one. A response that is there is never
-- written over.
pub record_answer-IsRecorded :
    (target : Option String) (payload : String) (now : ℕ) (store : Store)
    → IsRecorded now store (record_answer target payload now store)
unfolding record_answer
record_answer-IsRecorded target payload now store =
    record_for-IsRecorded now payload store (target_of store target) (target-In store target)
