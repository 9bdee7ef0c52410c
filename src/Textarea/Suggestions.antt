-- ===== src/Textarea/Suggestions.antt =====
-- app/web/src/components/MemoEditor/Editor/TagSuggestions.tsx and CommandSuggestions.tsx: the list that
-- completes the word around the caret. What the list offers of the tags is a search of a package; it is
-- a parameter, as is the lower case of a text. The place of the list on the screen is not modelled.
use collab_notes_ecs.Base.{
  ℕ, ◌+◌, ◌-◌, ◌%◌, Text, txt, truthy, ◌==◌, starts_with, contains, Bool, true, false, not, ◌&&◌,
  Option, none, some, List, [], ◌∷◌, if◌then◌else◌, eqb, length, drop, get_elem?, get_or, select,
}
use collab_notes_ecs.Textarea.{
  Area, Dom, Editor, get_cursor_position, insert_text, remove_text, set_cursor_position,
}
use collab_notes_ecs.Textarea.Words.{get_current_word}

-- `position`, which is null or not, and `selected`
pub record Popup : Type 0 where
  pub shown : Bool
  pub selected : ℕ

abbrev pub hide : Popup → Popup
hide p = record p { shown = false }

pub record Command : Type 0 where
  pub name : Text
  pub description : Option Text
  pub run : Text
  pub cursor_offset : Option ℕ

-- What a handler leaves: the list, the editor, and whether the default action of the key is prevented.
pub record Handled : Type 0 where
  pub popup : Popup
  pub editor : Editor
  pub prevented : Bool

-- `suggestionsRef.current` of the commands
unfoldable pub command_suggestions : (Text → Text) → List Command → Area → List Command
command_suggestions lower commands a =
    let word = (get_current_word a).0 in
    if not (starts_with word (txt "/"))
    then []
    else let search = lower (drop 1 word) in
      if not (truthy search)
      then commands
      else select (λ (c : Command). starts_with (lower c.name) search) commands

module _ (dom : Dom) where
  unfoldable pub remove_current_word : Editor → Editor
  remove_current_word e =
      remove_text dom (get_current_word e.area).1 (length (get_current_word e.area).0) e

  unfoldable pub complete_tag : Text → Editor → Editor
  complete_tag tag e = insert_text dom (35 ∷ tag) [] [] (remove_current_word e)

  -- the caret moves on by the offset of the command, where it has one other than zero
  unfoldable pub move_by : Option ℕ → Editor → Editor
  move_by none e = e
  move_by (some offset) e =
      if eqb offset 0 then e else set_cursor_position dom (get_cursor_position e + offset) none e

  unfoldable pub complete_command : Command → Editor → Editor
  complete_command cmd e =
      move_by cmd.cursor_offset (insert_text dom cmd.run [] [] (remove_current_word e))

  -- Without a tag, the template reads `undefined`.
  unfoldable pub autocomplete_tag : Option Text → Popup → Editor → Handled
  autocomplete_tag tag p e = record {
    popup = hide p;
    editor = complete_tag (get_or tag (txt "undefined")) e;
    prevented = true;
  }

  -- Without a command, the handler throws once the word is removed.
  unfoldable pub autocomplete_command : Option Command → Popup → Editor → Handled
  autocomplete_command none p e = record {
    popup = p;
    editor = remove_current_word e;
    prevented = false;
  }
  autocomplete_command (some cmd) p e = record {
    popup = hide p;
    editor = complete_command cmd e;
    prevented = true;
  }

-- `handleKeyDown` of both files, which differ in the completion
unfoldable pub handle_key_down :
    {A : Type 0} → (Option A → Popup → Editor → Handled) → List A → Text → Popup → Editor → Handled
handle_key_down autocomplete suggestions code p e =
    let n = length suggestions in
    let left =
      if contains (txt "Escape" ∷ txt "ArrowLeft" ∷ txt "ArrowRight" ∷ []) code
      then hide p
      else p in
    if not (p.shown && not (eqb n 0))
    then record { popup = p; editor = e; prevented = false }
    else if txt "ArrowDown" == code
    then record {
      popup = record left { selected = (p.selected + 1) % n };
      editor = e;
      prevented = true;
    }
    else if txt "ArrowUp" == code
    then record {
      popup = record left { selected = (p.selected + n - 1) % n };
      editor = e;
      prevented = true;
    }
    else if contains (txt "Enter" ∷ txt "Tab" ∷ []) code
    then autocomplete (get_elem? suggestions p.selected) left e
    else record { popup = left; editor = e; prevented = false }

-- `handleInput` of both files: the list is shown while the caret is in a word with the trigger, and not
-- in front of another one
unfoldable pub handle_input : ℕ → Area → Popup → Popup
handle_input trigger a p =
    let word = (get_current_word a).0 in
    let is_active =
      starts_with word (trigger ∷ [])
      && not (elim (get_elem? a.value a.selection_end) [ none ↦ false | some c ↦ eqb c trigger ]) in
    record { shown = is_active; selected = 0 }
