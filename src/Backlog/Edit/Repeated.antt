-- ===== src/Backlog/Edit/Repeated.antt =====
-- A key that the header writes twice: the edit is of its first line, and the parser keeps the last.
use horus_harness.Prelude.{String, true, false, some, List, [], ◌∷◌}
use horus_harness.Prelude.{◌≡◌, refl, sym, ap, ◌∙◌, ◌⊎◌, inl, inr}
use horus_harness.Prelude.Dict
use horus_harness.Backlog.Edit.{rewrite}
use horus_harness.Backlog.Edit.Values.{
  writes, read_all, last_value, value_of, or_else, or_else-none, get-read_all, rewrite-writes,
  rewrite-keeps, header, append_nil,
}

-- A line writes the key, and a later one gives it a value.
abbrev pub IsRepeated : String → List String → Type 0
IsRepeated k [] = ⊥
IsRepeated k (line ∷ lines) =
    ((writes k line ≡ true) × (x : String) × (last_value k lines ≡ some x))
    ⊎ ((writes k line ≡ false) × IsRepeated k lines)

last_value-repeated :
    (k v : String) (lines : List String)
    → IsRepeated k lines
    → last_value k (header (rewrite ((k, v) ∷ []) lines)) ≡ last_value k lines
unfolding last_value
last_value-repeated k v [] h = absurd h
last_value-repeated k v (line ∷ lines) (inl (h, x, later)) =
    rw (rewrite-writes k v line lines h, append_nil lines, later) refl
last_value-repeated k v (line ∷ lines) (inr (h, hs)) =
    rw (rewrite-keeps k v line lines h)
      (ap (λ o. or_else o (value_of k line)) (last_value-repeated k v lines hs))

-- Where a line of the header writes the key and a later line gives it a value, an edit of the key
-- leaves what the parser reads for it as it was.
pub rewrite_repeated :
    (k v : String) (lines : List String)
    → IsRepeated k lines
    → Dict.get k (read_all [] (header (rewrite ((k, v) ∷ []) lines)))
      ≡ Dict.get k (read_all [] lines)
unfolding Dict.get
rewrite_repeated k v lines h =
    get-all (header (rewrite ((k, v) ∷ []) lines))
    ∙ last_value-repeated k v lines h
    ∙ sym (get-all lines)
  where
    get-all : (ls : List String) → Dict.get k (read_all [] ls) ≡ last_value k ls
    get-all ls = get-read_all k ls [] ∙ or_else-none (last_value k ls)
