-- ===== src/InputBridge/Board/Steps.antt =====
-- One event, on the files and on the board.
use horus_harness.Prelude.{
  ℕ, String, Bool, true, false, Option, none, some, ◌==◌, not, ◌≡◌, refl, ap, ◌∙◌, ◌&&◌, sym,
  Bool-cases, inl, inr, eq_iff, if◌then◌else◌, is_some,
}
use mathlib.Core.Path.{subst}
use mathlib.Core.Option
use mathlib.Core.Option.{some-injective}
use horus_harness.Prelude.Dict
use horus_harness.Prelude.Dict.{get-insert, get-erase}
use horus_harness.InputBridge.{
  marked, load_request, is_answered, InputRequest, InputResponse, Kind, Store, Question,
  write_request, write_response, mark_pushed, cleanup,
}
use horus_harness.InputBridge.Board.{
  Phase, absent, asked, settled, Event, ask, push, reply, clean, Board, asked_once, replied_once,
  is_asked, spec_step, step, phase_of, Models,
}

asked_phase :
    (b : Bool) (file : InputRequest) (req : Option (Option InputRequest))
    (res : Option (Option InputResponse)) (p : Phase)
    → phase_of req res ≡ some p
    → phase_of (if b then some (some file) else req) res ≡ some (if b then asked_once p else p)
asked_phase false file req res p h = h
asked_phase true file none none p h = ap (Option.map asked_once) h
asked_phase true file (some req) none p h = ap (Option.map asked_once) h
asked_phase true file (some req) (some (some r)) p h = ap (Option.map asked_once) h
asked_phase true file (some req) (some none) p h = absurd (cc h)
asked_phase true file none (some r) p h = absurd (cc h)

ask-Models :
    (q : Question) (id : String) (now : ℕ) (store : Store) (board : Board)
    → Models store board
    → Models (step (ask q id now) store).1 (spec_step (ask q id now) board).1
unfolding step write_request
ask-Models q id now store board h k =
    let req = (write_request q id now store).0 in
    ap (λ o. phase_of o (Dict.get k store.responses)) (get-insert id k (some req) store.requests)
    ∙ asked_phase (id == k) req (Dict.get k store.requests) (Dict.get k store.responses) (board k)
        (h k)

cleaned_phase :
    (b : Bool) (req : Option (Option InputRequest)) (res : Option (Option InputResponse))
    (p : Phase)
    → phase_of req res ≡ some p
    → phase_of (if b then none else req) (if b then none else res) ≡ some (if b then absent else p)
cleaned_phase true req res p h = refl
cleaned_phase false req res p h = h

clean-Models :
    (id : String) (store : Store) (board : Board)
    → Models store board
    → Models (step (clean id) store).1 (spec_step (clean id) board).1
unfolding step cleanup
clean-Models id store board h k =
    rw (get-erase id k store.requests, get-erase id k store.responses)
      (cleaned_phase (id == k) (Dict.get k store.requests) (Dict.get k store.responses) (board k)
        (h k))

pushed_phase :
    (b : Bool) (file : InputRequest) (req : Option (Option InputRequest))
    (res : Option (Option InputResponse)) (p : Phase)
    → (b ≡ true → is_some req ≡ true)
    → phase_of req res ≡ some p
    → phase_of (if b then some (some file) else req) res ≡ some p
pushed_phase false file req res p there h = h
pushed_phase true file none res p there h = absurd (cc (there refl))
pushed_phase true file (some req) none p there h = h
pushed_phase true file (some req) (some none) p there h = absurd (cc h)
pushed_phase true file (some req) (some (some r)) p there h = h

marked-Models :
    (id : String) (store : Store) (board : Board) (o : Option InputRequest)
    → (is_some o ≡ true → is_some (Dict.get id store.requests) ≡ true)
    → Models store board
    → Models (marked store id o) board
marked-Models id store board none there h k = h k
marked-Models id store board (some req) there h k = elim (Bool-cases req.pushed) [
  | inl e ↦ rw e (h k)
  | inr e ↦ rw e (
      ap (λ o. phase_of o (Dict.get k store.responses))
        (get-insert id k (some (record req { pushed = true })) store.requests)
      ∙ pushed_phase (id == k) (record req { pushed = true }) (Dict.get k store.requests)
          (Dict.get k store.responses) (board k)
          (λ t.
            subst (λ j. is_some (Dict.get j store.requests) ≡ true) ((eq_iff id k).0 t)
              (there refl))
          (h k))
]

loaded :
    (o : Option (Option InputRequest))
    → is_some (elim o [ none ↦ none | some file ↦ file ]) ≡ true
    → is_some o ≡ true
loaded none h = absurd (cc h)
loaded (some file) h = refl

push-Models :
    (id : String) (store : Store) (board : Board)
    → Models store board
    → Models (mark_pushed store id) board
unfolding mark_pushed
push-Models id store board h =
    marked-Models id store board (load_request store id) (loaded (Dict.get id store.requests)) h

-- Whether it is answered is a question of its own id alone.
same_at :
    (f : Phase → Phase) (board : Board) (id k : String)
    → f (board id) ≡ board id
    → (if id == k then f (board k) else board k) ≡ board k
same_at f board id k e = elim (Bool-cases (id == k)) [
  | inl t ↦ rw t (subst (λ j. f (board j) ≡ board j) ((eq_iff id k).0 t) e)
  | inr t ↦ rw t refl
]

replied_phase :
    (r : InputResponse) (req : Option (Option InputRequest)) (res : Option (Option InputResponse))
    (p : Phase)
    → is_some req ≡ true
    → is_some res ≡ false
    → phase_of req res ≡ some p
    → (p ≡ asked) × (phase_of req (some (some r)) ≡ some (replied_once r p))
replied_phase r none res p a b h = absurd (cc a)
replied_phase r (some req) (some res) p a b h = absurd (cc b)
replied_phase r (some req) none p a b h =
    (some-injective p asked (sym h), ap (Option.map (replied_once r)) h)

kept_phase :
    (r : InputResponse) (req : Option (Option InputRequest)) (res : Option (Option InputResponse))
    (p : Phase)
    → (is_some req && not (is_some res)) ≡ false
    → phase_of req res ≡ some p
    → (is_asked p ≡ false) × (replied_once r p ≡ p)
kept_phase r req res absent n h = (refl, refl)
kept_phase r req res (settled x) n h = (refl, refl)
kept_phase r (some req) none asked n h = absurd (cc n)
kept_phase r none none asked n h = absurd (cc h)
kept_phase r none (some res) asked n h = absurd (cc h)
kept_phase r (some req) (some none) asked n h = absurd (cc h)
kept_phase r (some req) (some (some x)) asked n h = absurd (cc h)

refused-Models :
    (r : InputResponse) (id : String) (store : Store) (board : Board)
    → (is_some (Dict.get id store.requests) && not (is_answered store id)) ≡ false
    → Models store board
    → (false ≡ is_asked (board id))
      × Models store (λ k. if id == k then replied_once r (board k) else board k)
refused-Models r id store board n h =
    let (closed, kept) =
      kept_phase r (Dict.get id store.requests) (Dict.get id store.responses) (board id) n (h id) in
    (sym closed, λ k. h k ∙ ap some (sym (same_at (replied_once r) board id k kept)))

accepted-Models :
    (r : InputResponse) (id : String) (store : Store) (board : Board)
    → is_some (Dict.get id store.requests) ≡ true
    → is_answered store id ≡ false
    → Models store board
    → (true ≡ is_asked (board id))
      × Models
          (record store { responses = Dict.insert id (some r) store.responses })
          (λ k. if id == k then replied_once r (board k) else board k)
accepted-Models r id store board a b h =
    let here =
      replied_phase r (Dict.get id store.requests) (Dict.get id store.responses) (board id) a b
        (h id) in
    (
      sym (ap is_asked here.0),
      λ k.
          ap (phase_of (Dict.get k store.requests)) (get-insert id k (some r) store.responses)
          ∙ elim (Bool-cases (id == k)) [
            | inl t ↦ rw t (
                subst
                  (λ j.
                    phase_of (Dict.get j store.requests) (some (some r))
                    ≡ some (replied_once r (board j)))
                  ((eq_iff id k).0 t) here.1)
            | inr t ↦ rw t (h k)
          ],
    )

-- One answer: the result and the phases after it.
reply-Models :
    (id answer : String) (kind : Kind) (now : ℕ) (store : Store) (board : Board)
    → Models store board
    → ((step (reply id answer kind now) store).0 ≡ (spec_step (reply id answer kind now) board).0)
      × Models
          (step (reply id answer kind now) store).1
          (spec_step (reply id answer kind now) board).1
unfolding step write_response
reply-Models id answer kind now store board h =
    let r : InputResponse = record { id = id; answer = answer; kind = kind; answered_at = now } in
    elim (Bool-cases (is_some (Dict.get id store.requests))) [
      | inr a ↦ rw a (refused-Models r id store board (rw a refl) h)
      | inl a ↦ elim (Bool-cases (is_answered store id)) [
        | inl b ↦ rw (a, b) (refused-Models r id store board (rw (a, b) refl) h)
        | inr b ↦ rw (a, b) (accepted-Models r id store board a b h)
      ]
    ]

pub step-Models :
    (e : Event) (store : Store) (board : Board)
    → Models store board
    → ((step e store).0 ≡ (spec_step e board).0) × Models (step e store).1 (spec_step e board).1
unfolding step
step-Models (ask q id now) store board h = (refl, ask-Models q id now store board h)
step-Models (push id) store board h = (refl, push-Models id store board h)
step-Models (reply id answer kind now) store board h = reply-Models id answer kind now store board h
step-Models (clean id) store board h = (refl, clean-Models id store board h)
