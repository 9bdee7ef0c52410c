-- ===== src/Textarea/CaretLine.antt =====
-- app/web/src/components/MemoEditor/Editor/index.tsx: the line that the caret is in, as it is read and set.
use collab_notes_ecs.Base.{
  Text, Option, none, some, List, [], ◌∷◌, ◌++◌, ◌≡◌, refl, sym, ap, ◌∙◌, arith, All, get_elem?,
  length, take, length-append, append_assoc, append-nil,
}
use collab_notes_ecs.Base.Slices.{take-append}
use collab_notes_ecs.Base.Split.{split, join, Without, split_plain, split-append, join-split}
use collab_notes_ecs.Textarea.{
  IsClean, Dom, Editor, write_line, get_cursor_line_number, get_line, set_line,
}
use collab_notes_ecs.Textarea.Views.{Shows, write_value}

-- Whole lines, with their line feeds.
abbrev pub text_of : List Text → Text
text_of [] = []
text_of (line ∷ lines) = line ++ (b'\n' ∷ text_of lines)

-- What stands behind a line: nothing, or a line feed and more.
abbrev pub behind_line : Option Text → Text
behind_line none = []
behind_line (some rest) = b'\n' ∷ rest

abbrev lines_behind : Option Text → List Text
lines_behind none = []
lines_behind (some rest) = split b'\n' rest

split-line :
    (line : Text) (rest : Option Text)
    → Without b'\n' line
    → split b'\n' (line ++ behind_line rest) ≡ line ∷ lines_behind rest
split-line line none h = ap (split b'\n') (append-nil line) ∙ split_plain b'\n' line h
split-line line (some rest) h = split-append b'\n' line rest h

pub split-text_of :
    (lines : List Text) (s : Text)
    → All (Without b'\n') lines
    → split b'\n' (text_of lines ++ s) ≡ lines ++ split b'\n' s
split-text_of [] s h = refl
split-text_of (line ∷ lines) s h =
    ap (split b'\n') (append_assoc line (b'\n' ∷ text_of lines) s)
    ∙ (split-append b'\n' line (text_of lines ++ s) h.0
        ∙ ap (λ l. line ∷ l) (split-text_of lines s h.1))

pub get_elem?-middle :
    (xs ys : List Text) (y : Text) → get_elem? (xs ++ (y ∷ ys)) (length xs) ≡ some y
get_elem?-middle [] ys y = refl
get_elem?-middle (x ∷ xs) ys y = get_elem?-middle xs ys y

write_line-middle :
    (xs ys : List Text) (y new : Text)
    → write_line (xs ++ (y ∷ ys)) (length xs) new ≡ xs ++ (new ∷ ys)
write_line-middle [] ys y new = refl
write_line-middle (x ∷ xs) ys y new = ap (λ l. x ∷ l) (write_line-middle xs ys y new)

module _ (lines : List Text) (left right : Text) (rest : Option Text) (e : Editor)
    (h : Shows (text_of lines ++ left) [] (right ++ behind_line rest) e.area)
    (whole : All (Without b'\n') lines) (left_line : Without b'\n' left)
    (line : Without b'\n' (left ++ right)) where
  value_lem : e.area.value ≡ text_of lines ++ ((left ++ right) ++ behind_line rest)
  value_lem = h.value ∙ simp append_assoc

  split-value : split b'\n' e.area.value ≡ lines ++ ((left ++ right) ∷ lines_behind rest)
  split-value =
      ap (split b'\n') value_lem
      ∙ (split-text_of lines ((left ++ right) ++ behind_line rest) whole
          ∙ ap (λ l. lines ++ l) (split-line (left ++ right) rest line))

  pub get_cursor_line_number_lem : get_cursor_line_number e ≡ length lines
  unfolding get_cursor_line_number
  get_cursor_line_number_lem =
      let front : take e.area.selection_start e.area.value ≡ text_of lines ++ left =
        rw (h.start, h.value) (take-append (text_of lines ++ left) (right ++ behind_line rest)) in
      let parts : split b'\n' (text_of lines ++ left) ≡ lines ++ (left ∷ []) =
        split-text_of lines left whole ∙ ap (λ l. lines ++ l) (split_plain b'\n' left left_line) in
      rw (front, parts) (omega (arith, length-append lines (left ∷ [])))

  pub get_line_lem : get_line (length lines) e ≡ left ++ right
  unfolding get_line
  get_line_lem =
      rw split-value (rw (get_elem?-middle lines (lines_behind rest) (left ++ right)) refl)

  -- Setting the line leaves the text before and behind it.
  pub set_line_value :
      (dom : Dom) (new : Text)
      → Without b'\n' new
      → IsClean (text_of lines ++ (new ++ behind_line rest))
      → (set_line dom (length lines) new e).area.value ≡ text_of lines ++ (new ++ behind_line rest)
  unfolding set_line
  set_line_value dom new new_line clean =
      let written : write_line (split b'\n' e.area.value) (length lines) new
          ≡ lines ++ (new ∷ lines_behind rest) =
        ap (λ ls. write_line ls (length lines) new) split-value
        ∙ write_line-middle lines (lines_behind rest) (left ++ right) new in
      let again : split b'\n' (text_of lines ++ (new ++ behind_line rest))
          ≡ lines ++ (new ∷ lines_behind rest) =
        split-text_of lines (new ++ behind_line rest) whole
        ∙ ap (λ l. lines ++ l) (split-line new rest new_line) in
      let joined : join b'\n' (write_line (split b'\n' e.area.value) (length lines) new)
          ≡ text_of lines ++ (new ++ behind_line rest) =
        ap (join b'\n') (written ∙ sym again)
        ∙ join-split b'\n' (text_of lines ++ (new ++ behind_line rest)) in
      rw joined (write_value dom (text_of lines ++ (new ++ behind_line rest)) e clean)
