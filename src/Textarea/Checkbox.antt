-- ===== src/Textarea/Checkbox.antt =====
-- app/web/src/components/MemoEditor/ActionButton/MarkdownMenu.tsx: the checkbox entry makes a line a task and
-- takes it back.
use collab_notes_ecs.Base.{
  ◌+◌, ◌-◌, Text, txt, starts_with, false, Option, none, List, [], ◌++◌, ◌≡◌, refl, ◌∙◌, arith, All,
  All-append, ltb, length, length-append, append_assoc,
}
use collab_notes_ecs.Base.Split.{Without}
use collab_notes_ecs.Textarea.{
  IsClean, Dom, Editor, get_cursor_position, set_line, set_cursor_position,
}
use collab_notes_ecs.Textarea.Views.{Shows, select_caret}
use collab_notes_ecs.Textarea.Shortcuts.{uint32_sub}
use collab_notes_ecs.Textarea.CaretLine.{
  text_of, behind_line, get_cursor_line_number_lem, get_line_lem, set_line_value,
}
use collab_notes_ecs.Textarea.Menu.{
  Change, has_checkbox, number_marker, dash_marker, change_line, handle_checkbox_click,
}

abbrev pub task : Text
task = txt "- [ ] "

-- The click sets the caret's line to the changed line, and the caret by as much.
module _ (dom : Dom) (lines : List Text) (left right : Text) (rest : Option Text) (e : Editor)
    (h : Shows (text_of lines ++ left) [] (right ++ behind_line rest) e.area)
    (whole : All (Without b'\n') lines) (left_line : Without b'\n' left)
    (line : Without b'\n' (left ++ right)) where
  click_lem :
      (change : Change) (left' right' : Text)
      → change_line (left ++ right) ≡ change
      → change.new_line ≡ left' ++ right'
      → Without b'\n' (left' ++ right')
      → IsClean (text_of lines ++ ((left' ++ right') ++ behind_line rest))
      → length left + change.forward ≡ length left' + change.back
      → Shows
          (text_of lines ++ left')
          []
          (right' ++ behind_line rest)
          (handle_checkbox_click dom e).area
  unfolding handle_checkbox_click set_cursor_position get_cursor_position uint32_sub
  click_lem change left' right' changed new_line new_whole clean moved =
      let number = get_cursor_line_number_lem lines left right rest e h whole left_line line in
      let read = get_line_lem lines left right rest e h whole left_line line in
      let set =
        set_line_value lines left right rest e h whole left_line line dom (left' ++ right')
          new_whole clean in
      let before = length-append (text_of lines) left in
      let enough : ltb (e.area.selection_start + change.forward) change.back ≡ false =
        ground (arith, h.start, before, moved) in
      let place : e.area.selection_start + change.forward - change.back
          ≡ length (text_of lines ++ left') =
        omega (arith, h.start, before, moved, length-append (text_of lines) left') in
      rw (number, read, changed, new_line, enough)
        (select_caret dom (e.area.selection_start + change.forward - change.back)
          (text_of lines ++ left') (right' ++ behind_line rest)
          (set_line dom (length lines) (left' ++ right') e) place (set ∙ simp append_assoc))

change_line-task :
    (line : Text) → change_line (task ++ line) ≡ record { new_line = line; forward = 0; back = 6 }
unfolding change_line has_checkbox starts_with
change_line-task line = refl

change_line_bare :
    (line : Text)
    → has_checkbox line ≡ false
    → number_marker line ≡ none
    → dash_marker line ≡ none
    → change_line line ≡ record { new_line = task ++ line; forward = 6; back = 0 }
unfolding change_line
change_line_bare line unchecked unnumbered undashed = rw (unchecked, unnumbered) (rw undashed refl)

-- The checkbox entry puts a checkbox in front of the line of the caret, when the line has no checkbox,
-- no number as a marker and no dash that a space follows, and a second click takes it away; each time
-- the caret stays between the same characters, and no other line changes. Nothing is selected, and
-- neither value has a carriage return.
pub handle_checkbox_click-handle_checkbox_click :
    (dom : Dom) (lines : List Text) (left right : Text) (rest : Option Text) (e : Editor)
    → Shows (text_of lines ++ left) [] (right ++ behind_line rest) e.area
    → All (Without b'\n') lines
    → Without b'\n' left
    → Without b'\n' right
    → IsClean (text_of lines ++ ((left ++ right) ++ behind_line rest))
    → IsClean (text_of lines ++ ((task ++ (left ++ right)) ++ behind_line rest))
    → has_checkbox (left ++ right) ≡ false
    → number_marker (left ++ right) ≡ none
    → dash_marker (left ++ right) ≡ none
    → Shows
        (text_of lines ++ (task ++ left))
        []
        (right ++ behind_line rest)
        (handle_checkbox_click dom e).area
      × Shows
          (text_of lines ++ left)
          []
          (right ++ behind_line rest)
          (handle_checkbox_click dom (handle_checkbox_click dom e)).area
handle_checkbox_click-handle_checkbox_click dom lines left right rest e h whole left_line right_line
      clean clean' unchecked unnumbered undashed =
    let line = All-append _ left right left_line right_line in
    let task_line : Without b'\n' task = omega arith in
    let once =
      click_lem dom lines left right rest e h whole left_line line
        (record { new_line = task ++ (left ++ right); forward = 6; back = 0 }) (task ++ left) right
        (change_line_bare (left ++ right) unchecked unnumbered undashed) refl
        (All-append _ task (left ++ right) task_line line) clean'
        (omega (arith, length-append task left)) in
    (
      once,
      click_lem dom lines (task ++ left) right rest (handle_checkbox_click dom e) once whole
          (All-append _ task left task_line left_line)
          (All-append _ task (left ++ right) task_line line)
          (record { new_line = left ++ right; forward = 0; back = 6 }) left right
          (change_line-task (left ++ right)) refl line clean
          (omega (arith, length-append task left)),
    )
