-- ===== src/Steering/Bounded.antt =====
-- What a message from the phone can do.
use horus_harness.Prelude.{
  ℕ, String, Bool, true, false, Option, none, some, List, [], ◌∷◌, ◌++◌, ◌==◌, ◌&&◌, ◌||◌, not,
  if◌then◌else◌, ◌≡◌, ◌≢◌, refl, sym, ap, ◌⊎◌, inl, inr, Bool-cases, eq_iff, test_of_ne, arith,
}
use mathlib.Core.Option.{some-injective}
use horus_harness.Prelude.Dict
use horus_harness.Prelude.Text.{lower, strip}
use horus_harness.Notify.{NotifyConfig}
use horus_harness.InputBridge.{Store, Told, record_answer}
use horus_harness.Steering.{
  Command, commands, first_word, is_safe_arg, Reaction, runs, checked_run, run_with, run_command,
  react, words_reaction, dispatch, recorded, answer_command, parse_answer, strip_slashes, Update,
  callback, message, other, chat_id_of, is_stranger, Reply, of_update, handle_update, with_repo,
  is_text, text_or,
}

-- The arguments of a command of the table: its own, then one of safe characters where it takes one,
-- then the repository.
abbrev pub IsListed : Option String → List String → Type 0
IsListed repo argv =
    (verb : String) × (cmd : Command) × (Dict.get verb commands ≡ some cmd)
    × (((cmd.takes_arg ≡ false) × (argv ≡ cmd.argv ++ with_repo cmd repo))
        ⊎ ((cmd.takes_arg ≡ true)
            × ((arg : String) × (is_safe_arg arg ≡ true)
                × (argv ≡ cmd.argv ++ arg ∷ [] ++ with_repo cmd repo))))

argv_of : Reaction → List String
argv_of (runs argv) = argv
argv_of _ = []

same_argv : {a b : List String} → runs a ≡ runs b → a ≡ b
unfolding argv_of
same_argv h = ap argv_of h

checked-lem :
    (cmd : Command) (verb : String) (repo : Option String) (arg : String) (safe : Bool)
    (argv : List String)
    → checked_run cmd verb repo arg safe ≡ runs argv
    → (safe ≡ true) × (argv ≡ cmd.argv ++ arg ∷ [] ++ with_repo cmd repo)
checked-lem cmd verb repo arg true argv h = (refl, sym (same_argv h))
checked-lem cmd verb repo arg false argv h = absurd (cc h)

run_with-lem :
    (cmd : Command) (verb : String) (repo : Option String) (word : Option (String × String))
    (argv : List String)
    → run_with cmd verb repo word ≡ runs argv
    → (arg : String) × (is_safe_arg arg ≡ true)
      × (argv ≡ cmd.argv ++ arg ∷ [] ++ with_repo cmd repo)
run_with-lem cmd verb repo none argv h = absurd (cc h)
run_with-lem cmd verb repo (some (arg, rest)) argv h =
    let (safe, e) = checked-lem cmd verb repo arg (is_safe_arg arg) argv h in (arg, safe, e)

branches :
    (b : Bool) (x y z : Reaction)
    → (if b then x else y) ≡ z
    → ((b ≡ true) × (x ≡ z)) ⊎ ((b ≡ false) × (y ≡ z))
branches true x y z h = inl (refl, h)
branches false x y z h = inr (refl, h)

run_command-IsListed :
    (verb arg : String) (repo : Option String) (o : Option Command) (argv : List String)
    → Dict.get verb commands ≡ o
    → run_command verb arg repo o ≡ runs argv
    → IsListed repo argv
unfolding run_command
run_command-IsListed verb arg repo none argv e h = absurd (cc h)
run_command-IsListed verb arg repo (some cmd) argv e h =
    elim (branches cmd.takes_arg (run_with cmd verb repo (first_word arg))
      (runs (cmd.argv ++ with_repo cmd repo)) (runs argv) h) [
        | inl (t, r) ↦ (verb, cmd, e, inr (t, run_with-lem cmd verb repo (first_word arg) argv r))
        | inr (t, r) ↦ (verb, cmd, e, inl (t, sym (same_argv r)))
      ]

recorded-told : (r : Told × Store) (argv : List String) → (recorded r).0 ≢ runs argv
recorded-told (text, store) argv h = absurd (cc h)

answer_told :
    (now : ℕ) (store : Store) (p : Option String × String) (argv : List String)
    → (answer_command now store p).0 ≢ runs argv
answer_told now store (target, payload) argv =
    recorded-told (record_answer target payload now store) argv

react-IsListed :
    (repo : Option String) (now : ℕ) (store : Store) (verb arg : String) (argv : List String)
    → (react repo now store verb arg).0 ≡ runs argv
    → IsListed repo argv
unfolding react
react-IsListed repo now store verb arg argv h =
    elim (Bool-cases (verb == "help" || verb == "start")) [
      | inl e ↦ absurd (cc (rw e at h))
      | inr e ↦ elim (Bool-cases (verb == "answer")) [
        | inl a ↦ elim (Bool-cases (arg == "")) [
          | inl b ↦ absurd (cc (rw (e, a, b) at h))
          | inr b ↦ absurd (answer_told now store (parse_answer store arg) argv (rw (e, a, b) at h))
        ]
        | inr a ↦ run_command-IsListed verb arg repo _ argv refl (rw (e, a) at h)
      ]
    ]

words-IsListed :
    (repo : Option String) (now : ℕ) (store : Store) (o : Option (String × String))
    (argv : List String)
    → (words_reaction repo now store o).0 ≡ runs argv
    → IsListed repo argv
words-IsListed repo now store none argv h = absurd (cc h)
words-IsListed repo now store (some (verb, rest)) argv h =
    react-IsListed repo now store (lower verb) (strip rest) argv h

dispatch-IsListed :
    (repo : Option String) (now : ℕ) (store : Store) (command : String) (argv : List String)
    → (dispatch repo now store command).0 ≡ runs argv
    → IsListed repo argv
unfolding dispatch
dispatch-IsListed repo now store command argv h =
    words-IsListed repo now store (first_word (strip_slashes (strip command))) argv h

-- Every process that a reply runs is one of the table, with arguments of the table's kind.
abbrev pub AreListed : Option String → Option Reply → Type 0
AreListed repo none = Unit
AreListed repo (some reply) = (argv : List String) → reply.reaction ≡ runs argv → IsListed repo argv

update-AreListed :
    (repo : Option String) (now : ℕ) (store : Store) (update : Update)
    → AreListed repo (of_update repo now store update).0
update-AreListed repo now store (callback chat pressed query) =
    λ argv h. dispatch-IsListed repo now store (text_or pressed) argv h
update-AreListed repo now store (message chat text) = elim (Bool-cases (text_or text == "")) [
  | inl e ↦ rw e tt
  | inr e ↦ rw e (λ argv h. dispatch-IsListed repo now store (text_or text) argv h)
]
update-AreListed repo now store other = tt

matched : (a b : Bool) → a ≡ false → (not a && not b) ≡ false → b ≡ true
matched a b e h = ground arith

is_text-lem : (s : String) (o : Option String) → is_text s o ≡ true → o ≡ some s
is_text-lem s none h = absurd (cc h)
is_text-lem s (some t) h = ap some ((eq_iff t s).0 h)

same_chat :
    (set : Option String) (owner : String) (chat : Option String)
    → set ≡ some owner
    → owner ≢ ""
    → (not (text_or set == "") && not (is_text (text_or set) chat)) ≡ false
    → chat ≡ some owner
same_chat none owner chat e given h = absurd (cc e)
same_chat (some s) owner chat e given h =
    let same = some-injective s owner e in
    is_text-lem owner chat
      (matched (owner == "") (is_text owner chat) (test_of_ne owner "" given) (rw same at h))

-- Where an owner's chat is set, an update from any other chat has no reply and changes nothing; and
-- what a reply to the owner runs is a command of the table, with one argument of safe characters at
-- most: no text of a message is ever more than that.
pub handle_update-AreListed :
    (cfg : NotifyConfig) (repo : Option String) (now : ℕ) (store : Store) (update : Update)
    (owner : String)
    → cfg.chat_id ≡ some owner
    → owner ≢ ""
    → ((chat_id_of update ≡ some owner)
        × AreListed repo (handle_update cfg repo now store update).0)
      ⊎ (((handle_update cfg repo now store update).0 ≡ none)
          × ((handle_update cfg repo now store update).1 ≡ store))
unfolding handle_update
handle_update-AreListed cfg repo now store update owner set given =
    elim (Bool-cases (is_stranger cfg update)) [
      | inl e ↦ inr (rw e (refl, refl))
      | inr e ↦ inl (
        same_chat cfg.chat_id owner (chat_id_of update) set given e,
        rw e (update-AreListed repo now store update),
      )
    ]
