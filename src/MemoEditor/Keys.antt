-- ===== src/MemoEditor/Keys.antt =====
-- app/web/src/components/MemoEditor/index.tsx: the keys and the paste of the memo editor, on the textarea of
-- Textarea. The test for a URL is an argument.
use collab_notes_ecs.Base.{
  ℕ, ◌+◌, Text, txt, truthy, ◌==◌, Bool, true, false, not, ◌&&◌, none, some, [], ◌∷◌, ◌++◌, ◌≡◌,
  ◌∙◌, arith, if◌then◌else◌, eqb, length, length-append, append_assoc,
}
use collab_notes_ecs.Textarea.{
  IsClean, Dom, Editor, get_cursor_position, get_selected_content, insert_text, set_cursor_position,
}
use collab_notes_ecs.Textarea.Shortcuts.{
  handle_editor_keydown_with_markdown_shortcuts, hyperlink_highlighted_text,
}
use collab_notes_ecs.Textarea.Views.{
  Shows, get_selected_content_lem, get_cursor_position_lem, select_caret,
}
use collab_notes_ecs.Textarea.Insert.{insert_text_lem, insert_text_value}

abbrev pub tab_space : Text
tab_space = txt "  "

-- Tab, outside of a composition
unfoldable pub handle_tab : Dom → Editor → Editor
handle_tab dom e =
    let cursor_position = get_cursor_position e in
    let selected_content = get_selected_content e in
    let inserted = insert_text dom tab_space [] [] e in
    if truthy selected_content
    then set_cursor_position dom (cursor_position + length tab_space) none inserted
    else inserted

-- Whether the memo is saved, and the editor afterwards.
unfoldable pub handle_key_down : Dom → Text → Bool → Bool → Bool → Editor → Bool × Editor
handle_key_down dom key is_meta_key disable_markdown_shortcuts is_composing e =
    if is_meta_key && (key == txt "Enter")
    then (true, e)
    else let e' =
        if is_meta_key && not disable_markdown_shortcuts
        then (handle_editor_keydown_with_markdown_shortcuts dom key e).1
        else e in
      (false, if (key == txt "Tab") && not is_composing then handle_tab dom e' else e')

-- Whether the files of the clipboard are uploaded, and the editor afterwards.
unfoldable pub handle_paste_event : Dom → (Text → Bool) → ℕ → Text → Editor → Bool × Editor
handle_paste_event dom is_valid_url files text e =
    if not (eqb files 0)
    then (true, e)
    else if truthy (get_selected_content e) && is_valid_url text
    then (false, hyperlink_highlighted_text dom (some text) e)
    else (false, e)

-- Tab puts its spaces in place of the selection, whether there is one or not, and the caret behind them.
handle_tab_lem :
    (dom : Dom) (before selected after : Text) (e : Editor)
    → Shows before selected after e.area
    → IsClean (before ++ (tab_space ++ after))
    → Shows (before ++ tab_space) [] after (handle_tab dom e).area
unfolding handle_tab set_cursor_position
handle_tab_lem dom before [] after e h clean =
    rw (get_selected_content_lem before [] after e h)
      (insert_text_lem dom before after tab_space [] [] e h (omega arith) clean)
handle_tab_lem dom before (c ∷ selected) after e h clean =
    let place : length before + 2 ≡ length (before ++ tab_space) =
      omega (arith, length-append before tab_space) in
    rw
      (
        get_selected_content_lem before (c ∷ selected) after e h,
        get_cursor_position_lem before (c ∷ selected) after e h,
      )
      (select_caret dom (length before + 2) (before ++ tab_space) after
        (insert_text dom tab_space [] [] e) place
        (insert_text_value dom before (c ∷ selected) after tab_space [] [] e h clean
          ∙ simp append_assoc))
