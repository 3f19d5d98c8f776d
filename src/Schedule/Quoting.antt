-- ===== src/Schedule/Quoting.antt =====
-- The command that is written is the command that is read back.
use horus_harness.Prelude.{
  String, Bool, true, false, List, [], ◌∷◌, ◌==◌, ◌≡◌, refl, sym, ap, ◌∙◌, filter,
}
use horus_harness.Prelude.{if◌then◌else◌, ◌&&◌, ◌||◌, not, Bool-cases, inl, inr, arith}
use Prim.Native.Char.{Char}
use horus_harness.Prelude.Text.{◌<>◌, is_space, same_char, join}
use horus_harness.Schedule.{
  is_special, has_special, escape_marks, quote, exec_line, Scan, scan_step, ends_part, keep_part,
  scan, start, unquote_exec,
}

abbrev reading : String → Bool → Scan
reading current quoted = record { current = current; quoted = quoted; escape = false }

append_one :
    (a : String) (c : Char) (s : String) → (a <> String.◌∷◌ c "") <> s ≡ a <> String.◌∷◌ c s
unfolding ◌<>◌
append_one String.[] c s = refl
append_one (String.◌∷◌ d a) c s = ap (String.◌∷◌ d) (append_one a c s)

append_empty : (a : String) → a <> "" ≡ a
unfolding ◌<>◌
append_empty String.[] = refl
append_empty (String.◌∷◌ d a) = ap (String.◌∷◌ d) (append_empty a)

append_text : (a b c : String) → (a <> b) <> c ≡ a <> (b <> c)
unfolding ◌<>◌
append_text String.[] b c = refl
append_text (String.◌∷◌ d a) b c = ap (String.◌∷◌ d) (append_text a b c)

or-false : (a b : Bool) → (a || b) ≡ false → (a ≡ false) × (b ≡ false)
or-false false b h = (refl, h)
or-false true b h = absurd (cc h)

plain_facts :
    (c : Char)
    → is_special c ≡ false
    → (is_space c ≡ false) × (same_char c "\"" ≡ false) × (same_char c "\\" ≡ false)
unfolding is_special
plain_facts c h = (ground arith, ground arith, ground arith)

-- An ordinary character is kept, outside quotes and inside.
step_plain :
    (cur : String) (c : Char) (s : String)
    → is_special c ≡ false
    → scan (reading cur false) (String.◌∷◌ c s) ≡ scan (reading (cur <> String.◌∷◌ c "") false) s
unfolding scan scan_step ends_part is_special
step_plain cur c s h = let (space, mark, slash) = plain_facts c h in rw (space, mark, slash) refl

scan_plain :
    (cur p rest : String)
    → has_special p ≡ false
    → scan (reading cur false) (p <> rest) ≡ scan (reading (cur <> p) false) rest
unfolding has_special ◌<>◌
scan_plain cur String.[] rest h = ap (λ t. scan (reading t false) rest) (sym (append_empty cur))
scan_plain cur (String.◌∷◌ c p) rest h =
    let (plain, others) = or-false (is_special c) (has_special p) h in
    step_plain cur c (p <> rest) plain
    ∙ scan_plain (cur <> String.◌∷◌ c "") p rest others
    ∙ ap (λ t. scan (reading t false) rest) (append_one cur c p)

-- A mark that is not escaped in quotes is kept.
step_quoted :
    (cur : String) (c : Char) (s : String)
    → (same_char c "\\" || same_char c "\"") ≡ false
    → scan (reading cur true) (String.◌∷◌ c s) ≡ scan (reading (cur <> String.◌∷◌ c "") true) s
unfolding scan scan_step ends_part
step_quoted cur c s h =
    let (slash, mark) = or-false (same_char c "\\") (same_char c "\"") h in
    elim (Bool-cases (is_space c)) [
      | inl space ↦ rw (slash, mark, space) refl
      | inr space ↦ rw (slash, mark, space) refl
    ]

step_escaped :
    (cur : String) (c : Char) (s : String)
    → scan (reading cur true) (String.◌∷◌ "\\" (String.◌∷◌ c s))
      ≡ scan (reading (cur <> String.◌∷◌ c "") true) s
unfolding scan scan_step ends_part
step_escaped cur c s = refl

step_close :
    (cur s : String) → scan (reading cur true) (String.◌∷◌ "\"" s) ≡ scan (reading cur false) s
unfolding scan scan_step ends_part
step_close cur s = refl

scan_quoted :
    (cur p rest : String)
    → scan (reading cur true) ((escape_marks p <> "\"") <> rest)
      ≡ scan (reading (cur <> p) false) rest
unfolding escape_marks ◌<>◌
scan_quoted cur String.[] rest =
    step_close cur rest ∙ ap (λ t. scan (reading t false) rest) (sym (append_empty cur))
scan_quoted cur (String.◌∷◌ c p) rest = elim (Bool-cases (same_char c "\\" || same_char c "\"")) [
  | inl marked ↦ rw marked (
      step_escaped cur c ((escape_marks p <> "\"") <> rest)
      ∙ scan_quoted (cur <> String.◌∷◌ c "") p rest
      ∙ ap (λ t. scan (reading t false) rest) (append_one cur c p))
  | inr plain ↦ rw plain (
      step_quoted cur c ((escape_marks p <> "\"") <> rest) plain
      ∙ scan_quoted (cur <> String.◌∷◌ c "") p rest
      ∙ ap (λ t. scan (reading t false) rest) (append_one cur c p))
]

step_open : (s : String) → scan start (String.◌∷◌ "\"" s) ≡ scan (reading "" true) s
unfolding scan scan_step ends_part
step_open s = refl

-- A quoted argument is read as itself.
scan-quote : (p rest : String) → scan start (quote p <> rest) ≡ scan (reading p false) rest
unfolding quote ◌<>◌
scan-quote p rest = elim (Bool-cases (not (p == "") && not (has_special p))) [
  | inl plain ↦ rw plain (scan_plain "" p rest (unspecial (p == "") (has_special p) plain))
  | inr special ↦ rw special (step_open ((escape_marks p <> "\"") <> rest) ∙ scan_quoted "" p rest)
]
  where
    unspecial : (a b : Bool) → (not a && not b) ≡ true → b ≡ false
    unspecial a true h = ground arith
    unspecial a false h = refl

step_space : (p s : String) → scan (reading p false) (String.◌∷◌ " " s) ≡ keep_part p (scan start s)
unfolding scan scan_step ends_part is_space
step_space p s = refl

scan_end : (p : String) → scan (reading p false) "" ≡ keep_part p []
unfolding scan
scan_end p = refl

kept : (p : String) (ps : List String) → keep_part p ps ≡ (if not (p == "") then p ∷ ps else ps)
kept p ps = elim (Bool-cases (p == "")) [ inl e ↦ rw e refl | inr e ↦ rw e refl ]

-- A command that is written on an `ExecStart=` line is read back argument by argument, without the
-- arguments that are empty.
pub unquote_exec-exec_line :
    (command : List String) → unquote_exec (exec_line command) ≡ filter (λ p. not (p == "")) command
unfolding unquote_exec exec_line join ◌<>◌
unquote_exec-exec_line [] = refl
unquote_exec-exec_line (p ∷ []) =
    ap (scan start) (sym (append_empty (quote p))) ∙ scan-quote p "" ∙ scan_end p ∙ kept p []
unquote_exec-exec_line (p ∷ q ∷ ps) =
    scan-quote p (String.◌∷◌ " " (exec_line (q ∷ ps)))
    ∙ step_space p (exec_line (q ∷ ps))
    ∙ ap (keep_part p) (unquote_exec-exec_line (q ∷ ps))
    ∙ kept p (filter (λ t. not (t == "")) (q ∷ ps))
