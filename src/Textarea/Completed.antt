-- ===== src/Textarea/Completed.antt =====
-- app/web/src/components/MemoEditor/Editor/TagSuggestions.tsx and CommandSuggestions.tsx: what a
-- completion does to the text, and how the keys move through the list.
use collab_notes_ecs.Base.{
  ℕ, ◌+◌, ◌<◌, ◌≤◌, Text, some, [], ◌∷◌, ◌++◌, ◌≡◌, ◌≢◌, inl, inr, arith, sym, ap, ◌∙◌, Bool-cases,
  eqb, length, take, drop, length-append, append_assoc, take-append-drop, length-take, append-nil,
}
use collab_notes_ecs.Base.Slices.{take-append, drop-append-append}
use collab_notes_ecs.Textarea.{
  IsClean, Dom, Editor, remove_text, write, write_selection_end, set_cursor_position,
  get_cursor_position,
}
use collab_notes_ecs.Textarea.Views.{
  Shows, length_parts, write_value, write_selection_end_value, write_caret, select_caret,
}
use collab_notes_ecs.Textarea.Insert.{insert_text_lem}
use collab_notes_ecs.Textarea.Words.{IsWord, IsBefore, IsBehind, get_current_word_lem}
use collab_notes_ecs.Textarea.Suggestions.{
  Command, remove_current_word, complete_tag, complete_command, move_by,
}

module _ (dom : Dom) (x y : Text) (e : Editor) where
  -- A new value, and the end of the selection set in it.
  remove_changed :
      (w : Text)
      → e.area.value ≡ x ++ (w ++ y)
      → 0 < length w
      → IsClean (x ++ y)
      → Shows x [] y (write_selection_end dom (length x) (write dom (x ++ y) e)).area
  remove_changed w value some_word clean =
      let sizes : length e.area.value ≡ length x + length w + length y =
        ap (length {0}) value ∙ length_parts x w y in
      let changed : (x ++ y) ≢ e.area.value =
        λ same. omega (arith, ap (length {0}) same, sizes, length-append x y, some_word) in
      let caret =
        write_caret dom (x ++ y) (length x) e clean changed (omega (arith, length-append x y)) in
      record {
        value = write_selection_end_value dom _ _ ∙ write_value dom (x ++ y) e clean;
        start = caret.0;
        end = caret.1 ∙ omega arith;
      }

  -- The value that is there already, and the end of the selection set to the caret.
  remove_nothing :
      e.area.value ≡ x ++ y
      → e.area.selection_start ≡ length x
      → Shows x [] y (write_selection_end dom (length x) (write dom (x ++ y) e)).area
  unfolding write write_selection_end
  remove_nothing value start = rw (← value) (
      rw (dom.set_value_same e.area, ← start)
        (select_caret dom e.area.selection_start x y e start value))

  -- Removing what stands between two texts leaves the caret between them.
  remove_text_lem :
      (left right : Text)
      → Shows (x ++ left) [] (right ++ y) e.area
      → IsClean (x ++ y)
      → Shows x [] y (remove_text dom (length x) (length (left ++ right)) e).area
  unfolding remove_text
  remove_text_lem left right h clean =
      let value : e.area.value ≡ x ++ ((left ++ right) ++ y) = h.value ∙ simp append_assoc in
      let front : take (length x) e.area.value ≡ x =
        rw value (take-append x ((left ++ right) ++ y)) in
      let back : drop (length x + length (left ++ right)) e.area.value ≡ y =
        rw value (drop-append-append x (left ++ right) y) in
      rw (front, back) (remove_either left right h value clean)
    where
      remove_either :
          (left right : Text)
          → Shows (x ++ left) [] (right ++ y) e.area
          → e.area.value ≡ x ++ ((left ++ right) ++ y)
          → IsClean (x ++ y)
          → Shows x [] y (write_selection_end dom (length x) (write dom (x ++ y) e)).area
      remove_either [] [] h value clean =
          remove_nothing value (h.start ∙ ap (length {0}) (append-nil x))
      remove_either [] (c ∷ right) h value clean =
          remove_changed (c ∷ right) value (omega arith) clean
      remove_either (c ∷ left) right h value clean =
          remove_changed (c ∷ (left ++ right)) value (omega arith) clean

-- The caret moved on by an offset.
move_by_lem :
    (dom : Dom) (x y run : Text) (offset : ℕ) (e : Editor)
    → offset ≤ length y
    → Shows (x ++ run) [] y e.area
    → Shows (x ++ (run ++ take offset y)) [] (drop offset y) (move_by dom (some offset) e).area
unfolding move_by set_cursor_position get_cursor_position
move_by_lem dom x y run offset e fits h =
    let cut : take offset y ++ drop offset y ≡ y = take-append-drop offset y in
    let value : e.area.value ≡ (x ++ (run ++ take offset y)) ++ drop offset y =
      h.value ∙ (ap (λ t. (x ++ run) ++ t) (sym cut) ∙ simp append_assoc) in
    let cut_size = length-take offset y in
    let place : e.area.selection_start + offset ≡ length (x ++ (run ++ take offset y)) =
      omega
        (arith, h.start, length-append x run, length_parts x run (take offset y), cut_size, fits) in
    elim (Bool-cases (eqb offset 0)) [
      | inl zero_offset ↦
          let none_taken : offset ≡ 0 = ground arith in
          rw (zero_offset, none_taken) (rw (append-nil run) h)
      | inr other ↦ rw other (
          select_caret dom (e.area.selection_start + offset) (x ++ (run ++ take offset y))
            (drop offset y) e place value)
    ]

module _ (dom : Dom) (x left right y : Text) (e : Editor)
    (h : Shows (x ++ left) [] (right ++ y) e.area) (before : IsBefore x) (behind : IsBehind y)
    (left_word : IsWord left) (right_word : IsWord right) (clean : IsClean (x ++ y)) where
  remove_current_word_lem : Shows x [] y (remove_current_word dom e).area
  unfolding remove_current_word
  remove_current_word_lem =
      rw (get_current_word_lem x left right y e h before behind left_word right_word)
        (remove_text_lem dom x y e left right h clean)

  -- Completing a tag puts it, with its hash, in place of the word around the caret, whatever part of
  -- the word stands in front of the caret, changes no other text, and moves the caret behind the tag.
  -- The word is what stands between two characters of white space or the ends of the text, and the
  -- values have no carriage return.
  pub complete_tag_lem :
      (tag : Text)
      → IsClean (x ++ ((35 ∷ tag) ++ y))
      → Shows (x ++ (35 ∷ tag)) [] y (complete_tag dom tag e).area
  unfolding complete_tag
  complete_tag_lem tag clean' =
      insert_text_lem dom x y (35 ∷ tag) [] [] (remove_current_word dom e) remove_current_word_lem
        (omega arith) clean'

  -- Completing a command that has a text and an offset puts its text in place of the word around the
  -- caret; the caret moves behind it and then on by the offset, where so much text follows. The word
  -- is what stands between two characters of white space or the ends of the text, and the values have
  -- no carriage return.
  pub complete_command_lem :
      (cmd : Command) (offset : ℕ)
      → cmd.cursor_offset ≡ some offset
      → 0 < length cmd.run
      → offset ≤ length y
      → IsClean (x ++ (cmd.run ++ y))
      → Shows (x ++ (cmd.run ++ take offset y)) [] (drop offset y) (complete_command dom cmd e).area
  unfolding complete_command
  complete_command_lem cmd offset has_offset some_text fits clean' = rw has_offset (
      move_by_lem dom x y cmd.run offset _ fits (
        insert_text_lem dom x y cmd.run [] [] (remove_current_word dom e) remove_current_word_lem
          some_text clean'))
