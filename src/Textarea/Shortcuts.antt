-- ===== src/Textarea/Shortcuts.antt =====
-- app/web/src/components/MemoEditor/handlers.ts: the keyboard shortcuts that wrap the selection in
-- Markdown. A position that the code computes below zero is taken modulo 2 ^ 32 by `setSelectionRange`.
use collab_notes_ecs.Base.{
  ℕ, ◌+◌, ◌-◌, ◌*◌, Text, txt, truthy, ◌==◌, starts_with, Bool, true, false, not, ◌&&◌, ◌||◌,
  Option, none, some, [], ◌∷◌, ◌++◌, if◌then◌else◌, eqb, leb, ltb, any, get_or, length, drop,
}
use collab_notes_ecs.Base.Slices.{slice}
use collab_notes_ecs.Textarea.{
  Dom, Editor, get_selected_content, get_cursor_position, insert_text, set_cursor_position,
}

-- `s.endsWith(p)`
unfoldable pub ends_with : Text → Text → Bool
ends_with s p = leb (length p) (length s) && (drop (length s - length p) s == p)

-- `\s`
unfoldable pub is_space : ℕ → Bool
is_space c =
    (leb 9 c && leb c 13)
    || eqb c 32
    || eqb c 160
    || eqb c 5760
    || (leb 8192 c && leb c 8202)
    || eqb c 8232
    || eqb c 8233
    || eqb c 8239
    || eqb c 8287
    || eqb c 12288
    || eqb c 65279

-- `s.trimStart()`, and `s.trimEnd()` and `s.trim()`, whose white space is that of `\s`
unfoldable pub trim_start : Text → Text
trim_start [] = []
trim_start (c ∷ s) = let rest = trim_start s in if is_space c then rest else c ∷ s

unfoldable pub trim_end : Text → Text
trim_end [] = []
trim_end (c ∷ s) = let rest = trim_end s in if is_space c && not (truthy rest) then [] else c ∷ rest

unfoldable pub trim : Text → Text
trim s = trim_end (trim_start s)

-- `/^(https?:\/\/[^\s]+)$/`
abbrev solid : Text → Bool
solid s = truthy s && not (any is_space s)

unfoldable pub is_url : Text → Bool
is_url s =
    (starts_with s (txt "http://") && solid (drop 7 s))
    || (starts_with s (txt "https://") && solid (drop 8 s))

-- `a - b` as an unsigned number of 32 bits
unfoldable pub uint32_sub : ℕ → ℕ → ℕ
uint32_sub a b = if ltb a b then 4294967296 - (b - a) else a - b

unfoldable pub hyperlink_highlighted_text : Dom → Option Text → Editor → Editor
hyperlink_highlighted_text dom url e =
    let cursor_position = get_cursor_position e in
    let selected_content = get_selected_content e in
    let blank_url = txt "url" in
    let url_or_blank = get_or url blank_url in
    if not (truthy (get_or url [])) && is_url (trim selected_content)
    then set_cursor_position dom (cursor_position + 1) (some (cursor_position + 1))
        (insert_text dom (txt "[](" ++ (selected_content ++ txt ")")) [] [] e)
    else let inserted =
        insert_text dom (txt "[" ++ (selected_content ++ (txt "](" ++ (url_or_blank ++ txt ")"))))
          [] [] e in
      let new_cursor_start = cursor_position + length selected_content + 3 in
      if url_or_blank == blank_url
      then set_cursor_position dom new_cursor_start (some (new_cursor_start + length url_or_blank))
          inserted
      else inserted

-- the selection carries the delimiter at both ends
unfoldable pub delimited : Text → Text → Bool
delimited delimiter s = starts_with s delimiter && ends_with s delimiter

unfoldable pub style_highlighted_text : Dom → Text → Editor → Editor
style_highlighted_text dom delimiter e =
    let cursor_position = get_cursor_position e in
    let selected_content = get_selected_content e in
    if delimited delimiter selected_content
    then set_cursor_position dom cursor_position
        (some (uint32_sub (cursor_position + length selected_content) (length delimiter * 2)))
        (insert_text dom
          (slice (length delimiter) (length selected_content - length delimiter) selected_content)
          [] [] e)
    else set_cursor_position dom (cursor_position + length delimiter)
        (some (cursor_position + length delimiter + length selected_content))
        (insert_text dom (delimiter ++ (selected_content ++ delimiter)) [] [] e)

-- whether the default action of the key is prevented, and the editor afterwards
unfoldable pub handle_editor_keydown_with_markdown_shortcuts : Dom → Text → Editor → Bool × Editor
handle_editor_keydown_with_markdown_shortcuts dom key e =
    if key == txt "b"
    then (true, style_highlighted_text dom (txt "**") e)
    else if key == txt "i"
    then (true, style_highlighted_text dom (txt "*") e)
    else if key == txt "k"
    then (true, hyperlink_highlighted_text dom none e)
    else (false, e)
