-- ===== src/Textarea.antt =====
-- app/web/src/components/MemoEditor/Editor/index.tsx: the actions on the textarea of the memo editor. The
-- textarea is the browser's: what its members do is a parameter. The component is mounted, so that
-- `editorRef.current` is there; its height is not modelled.
pub mod Views
pub mod Insert
pub mod Lines
pub mod Reported
pub mod Shortcuts
pub mod Styled
pub mod Words
pub mod Suggestions
pub mod Completed
pub mod Keys
pub mod Enter
pub mod Continued
pub mod Menu
pub mod CaretLine
pub mod Checkbox
pub mod Tests
use collab_notes_ecs.Base.{
  ℕ, zero, suc, ◌+◌, ◌-◌, ◌<◌, min, Text, txt, truthy, Bool, true, false, Option, none, some, List,
  [], ◌∷◌, ◌++◌, ◌≡◌, ◌≢◌, if◌then◌else◌, get_or, length, take, drop, get_elem?,
}
use collab_notes_ecs.Base.Slices.{slice}
use collab_notes_ecs.Base.Split.{split, join, Without}

-- What the code reads of a textarea.
pub record Area : Type 0 where
  pub value : Text
  pub selection_start : ℕ
  pub selection_end : ℕ

-- A text that a textarea keeps as it is: it turns carriage returns into line feeds.
abbrev pub IsClean : Text → Type 0
IsClean t = Without 13 t

-- The members of the textarea that the code assigns to or calls: `value` and `setSelectionRange`. A new
-- value puts the caret at its end; the value that is there already changes nothing; a range is cut to
-- the length of the value. `focus` moves no caret.
pub record Dom : Type 0 where
  pub set_value : Text → Area → Area
  pub set_selection_range : ℕ → ℕ → Area → Area
  pub value-set_value : (t : Text) (a : Area) → IsClean t → (set_value t a).value ≡ t
  pub set_value_same : (a : Area) → set_value a.value a ≡ a
  pub caret-set_value :
      (t : Text) (a : Area)
      → IsClean t
      → t ≢ a.value
      → ((set_value t a).selection_start ≡ length t) × ((set_value t a).selection_end ≡ length t)
  pub set_selection_range_lem :
      (start end : ℕ) (a : Area)
      → set_selection_range start end a ≡ record a {
        selection_start = min start (min end (length a.value));
        selection_end = min end (length a.value);
      }

-- The textarea, and the content that `onContentChange` was last called with.
pub record Editor : Type 0 where
  pub area : Area
  pub reported : Text

-- `handleContentChangeCallback(editorRef.current.value)`
abbrev pub report : Editor → Editor
report e = record e { reported = e.area.value }

unfoldable pub get_content : Editor → Text
get_content e = e.area.value

unfoldable pub get_cursor_position : Editor → ℕ
get_cursor_position e = e.area.selection_start

unfoldable pub get_selected_content : Editor → Text
get_selected_content e = slice e.area.selection_start e.area.selection_end e.area.value

unfoldable pub get_cursor_line_number : Editor → ℕ
get_cursor_line_number e = length (split b'\n' (take e.area.selection_start e.area.value)) - 1

unfoldable pub get_line : ℕ → Editor → Text
get_line line_number e = get_or (get_elem? (split b'\n' e.area.value) line_number) []

-- `lines[i] = text`; behind the end it leaves holes, which `join` reads as empty texts
abbrev pub write_line : List Text → ℕ → Text → List Text
write_line [] zero text = text ∷ []
write_line [] (suc i) text = [] ∷ write_line [] i text
write_line (line ∷ lines) zero text = text ∷ lines
write_line (line ∷ lines) (suc i) text = line ∷ write_line lines i text

module _ (dom : Dom) where
  -- `editorRef.current.value = value`, and `selectionEnd = position`, which is a range from the start
  -- that is there
  unfoldable pub write : Text → Editor → Editor
  write value e = record e { area = dom.set_value value e.area }

  unfoldable pub write_selection_end : ℕ → Editor → Editor
  write_selection_end position e = record e {
    area = dom.set_selection_range e.area.selection_start position e.area;
  }

  unfoldable pub insert_text : Text → Text → Text → Editor → Editor
  insert_text content prefix suffix e =
      let cursor_position = e.area.selection_start in
      let end_position = e.area.selection_end in
      let prev_value = e.area.value in
      let value =
        take cursor_position prev_value
        ++ (prefix
            ++ ((if truthy content then content else slice cursor_position end_position prev_value)
                ++ (suffix ++ drop end_position prev_value))) in
      report (write_selection_end (end_position + length prefix + length content) (write value e))

  unfoldable pub remove_text : ℕ → ℕ → Editor → Editor
  remove_text start length e =
      let prev_value = e.area.value in
      let value = take start prev_value ++ drop (start + length) prev_value in
      report (write_selection_end start (write value e))

  unfoldable pub set_content : Text → Editor → Editor
  set_content text e = report (write text e)

  -- A missing end is the start.
  unfoldable pub set_cursor_position : ℕ → Option ℕ → Editor → Editor
  set_cursor_position start_pos end_pos e = record e {
    area = dom.set_selection_range start_pos (get_or end_pos start_pos) e.area;
  }

  unfoldable pub set_line : ℕ → Text → Editor → Editor
  set_line line_number text e =
      report (write (join b'\n' (write_line (split b'\n' e.area.value) line_number text)) e)

-- the handler of input: the browser has changed the textarea
unfoldable pub handle_editor_input : Area → Editor → Editor
handle_editor_input area e = report (record e { area = area })

-- the effect of the first render, on an empty textarea; what it reports is its argument
unfoldable pub mount : Dom → Text → Editor → Editor
mount dom initial_content e =
    if truthy initial_content
    then record (write dom initial_content e) { reported = initial_content }
    else e
