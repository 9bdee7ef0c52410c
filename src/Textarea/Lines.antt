-- ===== src/Textarea/Lines.antt =====
-- app/web/src/components/MemoEditor/Editor/index.tsx: `setLine` and `getLine`.
use collab_notes_ecs.Base.{
  ℕ, zero, suc, Text, List, [], ◌∷◌, ◌≡◌, ◌≢◌, refl, arith, ap, ◌∙◌, if◌then◌else◌, Bool-cases, inl,
  inr, eqb, get_or, get_elem?, All, All-append,
}
use collab_notes_ecs.Base.Split.{split, join, cons_head, Without, split-join, split-Without}
use collab_notes_ecs.Textarea.{IsClean, Dom, Editor, write_line, get_line, set_line}
use collab_notes_ecs.Textarea.Views.{write_value}

Without-cons_head :
    (c x : ℕ) (ps : List Text) → x ≢ c → All (Without c) ps → All (Without c) (cons_head x ps)
Without-cons_head c x [] ne h = ((ne, tt), tt)
Without-cons_head c x (p ∷ ps) ne h = ((ne, h.0), h.1)

-- The lines of a text hold no character that the text does not hold.
split_keeps : (c sep : ℕ) (s : Text) → Without c s → All (Without c) (split sep s)
unfolding split
split_keeps c sep [] h = (tt, tt)
split_keeps c sep (x ∷ s) h = elim (Bool-cases (eqb x sep)) [
  | inl same ↦ rw same (tt, split_keeps c sep s h.1)
  | inr other ↦ rw other (Without-cons_head c x (split sep s) h.0 (split_keeps c sep s h.1))
]

join_keeps : (c sep : ℕ) (ps : List Text) → sep ≢ c → All (Without c) ps → Without c (join sep ps)
unfolding join
join_keeps c sep [] ne h = tt
join_keeps c sep (p ∷ []) ne h = h.0
join_keeps c sep (p ∷ q ∷ ps) ne h =
    All-append _ p (sep ∷ join sep (q ∷ ps)) h.0 (ne, join_keeps c sep (q ∷ ps) ne h.1)

write_line_keeps :
    (c i : ℕ) (lines : List Text) (text : Text)
    → Without c text
    → All (Without c) lines
    → All (Without c) (write_line lines i text)
write_line_keeps c zero [] text h all = (h, tt)
write_line_keeps c (suc i) [] text h all = (tt, write_line_keeps c i [] text h tt)
write_line_keeps c zero (line ∷ lines) text h all = (h, all.1)
write_line_keeps c (suc i) (line ∷ lines) text h all =
    (all.0, write_line_keeps c i lines text h all.1)

-- The lines that a written list reads as.
get_elem?-write_line :
    (lines : List Text) (i j : ℕ) (text : Text)
    → get_or (get_elem? (write_line lines i text) j) []
      ≡ (if eqb i j then text else get_or (get_elem? lines j) [])
get_elem?-write_line [] zero zero text = refl
get_elem?-write_line [] zero (suc j) text = ground arith
get_elem?-write_line [] (suc i) zero text = ground arith
get_elem?-write_line [] (suc i) (suc j) text = ground (arith, get_elem?-write_line [] i j text)
get_elem?-write_line (line ∷ lines) zero zero text = refl
get_elem?-write_line (line ∷ lines) zero (suc j) text = ground arith
get_elem?-write_line (line ∷ lines) (suc i) zero text = ground arith
get_elem?-write_line (line ∷ lines) (suc i) (suc j) text =
    ground (arith, get_elem?-write_line lines i j text)

split-join-write_line :
    (lines : List Text) (i : ℕ) (text : Text)
    → All (Without b'\n') (write_line lines i text)
    → split b'\n' (join b'\n' (write_line lines i text)) ≡ write_line lines i text
split-join-write_line [] zero text h = split-join b'\n' text [] h
split-join-write_line [] (suc i) text h = split-join b'\n' [] (write_line [] i text) h
split-join-write_line (line ∷ lines) zero text h = split-join b'\n' text lines h
split-join-write_line (line ∷ lines) (suc i) text h =
    split-join b'\n' line (write_line lines i text) h

-- A line that is set is the line that is read, and every other line reads as before, also where the
-- line lies behind the end of the text. The new line holds no line break, and neither text has a
-- carriage return.
pub get_line-set_line :
    (dom : Dom) (i j : ℕ) (text : Text) (e : Editor)
    → Without b'\n' text
    → IsClean text
    → IsClean e.area.value
    → get_line j (set_line dom i text e) ≡ (if eqb i j then text else get_line j e)
unfolding get_line set_line
get_line-set_line dom i j text e one_line clean clean' =
    let lines = split b'\n' e.area.value in
    let kept : IsClean (join b'\n' (write_line lines i text)) =
      join_keeps 13 b'\n' (write_line lines i text) (omega arith)
        (write_line_keeps 13 i lines text clean (split_keeps 13 b'\n' e.area.value clean')) in
    let split_again =
      split-join-write_line lines i text
        (write_line_keeps b'\n' i lines text one_line (split-Without b'\n' e.area.value)) in
    ap (λ t. get_or (get_elem? (split b'\n' t) j) [])
      (write_value dom (join b'\n' (write_line lines i text)) e kept)
    ∙ (ap (λ ls. get_or (get_elem? ls j) []) split_again ∙ get_elem?-write_line lines i j text)
