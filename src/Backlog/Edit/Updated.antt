-- ===== src/Backlog/Edit/Updated.antt =====
-- What the front matter says after an edit: the new value of the key, the old ones of the others, and
-- the same body.
use horus_harness.Prelude.{String, true, false, Option, none, some, List, [], ◌∷◌, ◌++◌, ok}
use horus_harness.Prelude.{◌≡◌, refl, sym, ap, ◌∙◌, inl, inr, ◌==◌, if◌then◌else◌, All}
use horus_harness.Prelude.{Bool-cases, ok-injective}
use mathlib.Core.Path.{subst}
use horus_harness.Prelude.Dict
use horus_harness.Prelude.Dict.{Dict}
use horus_harness.Frontmatter.{is_fence, read_line, read_fields, parse_lines, document_of, Document}
use horus_harness.Backlog.Edit.{
  rewrite, split_fence, set_lines, set_fenced, put_together, first_part,
}
use horus_harness.Backlog.Edit.Values.{
  or_else-none, writes, IsField, IsOnce, read_all, last_value, get-read_all, rewrite-writes,
  rewrite-keeps, header, append_nil, last_value-rewrite,
}

abbrev IsClosed : List String → Type 0
IsClosed [] = ⊥
IsClosed (line ∷ lines) = is_fence line ≡ true

-- No line of the header is a fence, and a fence follows it.
abbrev IsSplit : List String → Option (List String × List String) → Type 0
IsSplit lines none = Unit
IsSplit lines (some (head, tail)) =
    All (λ l. is_fence l ≡ false) head × IsClosed tail × (lines ≡ head ++ tail)

split_fence-IsSplit : (lines : List String) → IsSplit lines (split_fence lines)
unfolding split_fence
split_fence-IsSplit [] = tt
split_fence-IsSplit (line ∷ lines) = elim (Bool-cases (is_fence line)) [
  | inl e ↦ rw e (tt, e, refl)
  | inr e ↦ rw e (push e (split_fence lines) (split_fence-IsSplit lines))
]
  where
    push :
        is_fence line ≡ false
        → (o : Option (List String × List String)) → IsSplit lines o
        → IsSplit (line ∷ lines) (first_part line o)
    push e none h = tt
    push e (some (head, tail)) (h, closed, same) = ((e, h), closed, ap (◌∷◌ line) same)

read_fields-append :
    (head : List String) (front : Dict String) (f : String) (rest : List String)
    → All (λ l. is_fence l ≡ false) head
    → is_fence f ≡ true
    → read_fields front (head ++ f ∷ rest) ≡ some (read_all front head, rest)
unfolding read_fields read_all
read_fields-append [] front f rest h e = rw e refl
read_fields-append (line ∷ head) front f rest (h, hs) e =
    rw h (read_fields-append head (read_line line front) f rest hs e)

parse_lines-fenced :
    (t first f : String) (head rest : List String)
    → is_fence first ≡ true
    → All (λ l. is_fence l ≡ false) head
    → is_fence f ≡ true
    → parse_lines t (first ∷ head ++ f ∷ rest) ≡ document_of t (some (read_all [] head, rest))
unfolding parse_lines
parse_lines-fenced t first f head rest e h closed =
    rw e (ap (document_of t) (read_fields-append head [] f rest h closed))

rewrite-fences :
    (k v w : String) (lines : List String)
    → IsField k v w
    → All (λ l. is_fence l ≡ false) lines
    → All (λ l. is_fence l ≡ false) (header (rewrite ((k, v) ∷ []) lines))
unfolding rewrite
rewrite-fences k v w [] (plain, _) h = (plain, tt)
rewrite-fences k v w (line ∷ lines) field (h, hs) = elim (Bool-cases (writes k line)) [
  | inl e ↦ rw (rewrite-writes k v line lines e) (field.0, rw (append_nil lines) hs)
  | inr e ↦ rw (rewrite-keeps k v line lines e) (h, rewrite-fences k v w lines field hs)
]

abbrev head_of : Option (List String × List String) → List String
head_of none = []
head_of (some (head, tail)) = head

-- The lines between the fences.
unfoldable pub header_lines : List String → List String
header_lines [] = []
header_lines (first ∷ lines) = head_of (split_fence lines)

-- What the key and the others read as, where the lines are parsed before and after.
abbrev pub IsEdited : String → String → Document → Document → Type 0
IsEdited k w old new =
    ((j : String)
      → Dict.get j new.front_matter ≡ (if k == j then some w else Dict.get j old.front_matter))
    × (new.body ≡ old.body)

get-rewrite :
    (k v w j : String) (head : List String)
    → IsField k v w
    → IsOnce k head
    → Dict.get j (read_all [] (header (rewrite ((k, v) ∷ []) head)))
      ≡ (if k == j then some w else Dict.get j (read_all [] head))
unfolding Dict.get
get-rewrite k v w j head field once =
    get-all (header (rewrite ((k, v) ∷ []) head))
    ∙ last_value-rewrite k v w j head field once
    ∙ ap (λ o. if k == j then some w else o) (sym (get-all head))
  where
    get-all : (lines : List String) → Dict.get j (read_all [] lines) ≡ last_value j lines
    get-all lines = get-read_all j lines [] ∙ or_else-none (last_value j lines)

edited :
    (k v w t t2 first f : String) (head rest out : List String)
    → IsField k v w
    → IsOnce k head
    → All (λ l. is_fence l ≡ false) head
    → is_fence first ≡ true
    → is_fence f ≡ true
    → put_together first (rewrite ((k, v) ∷ []) head) (f ∷ rest) ≡ out
    → IsEdited k w (parse_lines t (first ∷ head ++ f ∷ rest)) (parse_lines t2 out)
edited k v w t t2 first f head rest out field once plain opens closes h =
    subst (λ o. IsEdited k w (parse_lines t (first ∷ head ++ f ∷ rest)) (parse_lines t2 o)) h
      (rw
        (
          parse_lines-fenced t first f head rest opens plain closes,
          parse_lines-fenced t2 first f (header (rewrite ((k, v) ∷ []) head)) rest opens
              (rewrite-fences k v w head field plain) closes,
        )
        (λ j. get-rewrite k v w j head field once, refl))

-- Where at most one line between the fences writes the key, and the new line reads as the key with
-- the value `w`: what is parsed of the lines that `set_lines` gives has `w` at that key, and its
-- other fields and its body are the old ones.
pub set_lines-IsEdited :
    (k v w t t2 : String) (lines out : List String)
    → IsField k v w
    → IsOnce k (header_lines lines)
    → set_lines ((k, v) ∷ []) lines ≡ ok out
    → IsEdited k w (parse_lines t lines) (parse_lines t2 out)
unfolding set_lines header_lines
set_lines-IsEdited k v w t t2 [] out field once h = absurd (cc h)
set_lines-IsEdited k v w t t2 (first ∷ lines) out field once h =
    elim (Bool-cases (is_fence first)) [
      | inr e ↦ absurd (cc (rw e at h))
      | inl e ↦ parts e (split_fence lines) (split_fence-IsSplit lines) once (rw e at h)
    ]
  where
    parts :
        is_fence first ≡ true
        → (o : Option (List String × List String)) → IsSplit lines o
        → IsOnce k (head_of o)
        → set_fenced ((k, v) ∷ []) first o ≡ ok out
        → IsEdited k w (parse_lines t (first ∷ lines)) (parse_lines t2 out)
    parts e none split single eq = absurd (cc eq)
    parts e (some (head, [])) (plain, closed, same) single eq = absurd closed
    parts e (some (head, f ∷ rest)) (plain, closed, same) single eq =
        rw same
          (edited k v w t t2 first f head rest out field single plain e closed (ok-injective eq))
