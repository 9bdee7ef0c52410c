-- ===== src/Textarea/Menu.antt =====
-- app/web/src/components/MemoEditor/ActionButton/MarkdownMenu.tsx: the entries of the menu, and the line that
-- the caret is in. What runs in a timer moves no caret.
use collab_notes_ecs.Base.{
  ℕ, ◌+◌, Text, txt, truthy, starts_with, Bool, not, ◌&&◌, ◌||◌, Option, none, some, [], ◌∷◌, ◌++◌,
  if◌then◌else◌, eqb, leb, take, drop,
}
use collab_notes_ecs.Textarea.{
  Dom, Editor, get_content, get_cursor_position, get_cursor_line_number, get_line, set_line,
  set_cursor_position, insert_text,
}
use collab_notes_ecs.Textarea.Shortcuts.{ends_with, uint32_sub}

unfoldable pub handle_code_block_click : Dom → Editor → Editor
handle_code_block_click dom e =
    let prev_value = take (get_cursor_position e) (get_content e) in
    if not (truthy prev_value) || ends_with prev_value (txt "\n")
    then insert_text dom [] (txt "```\n") (txt "\n```") e
    else insert_text dom [] (txt "\n```\n") (txt "\n```") e

-- `/^- \[( |x|X)\] /`, a match of which has six characters
unfoldable pub has_checkbox : Text → Bool
has_checkbox line =
    starts_with line (txt "- [ ] ")
    || starts_with line (txt "- [x] ")
    || starts_with line (txt "- [X] ")

-- the number of digits at the beginning
unfoldable pub digits : Text → ℕ
digits [] = 0
digits (c ∷ s) = let rest = digits s in if leb b'0' c && leb c b'9' then 1 + rest else 0

-- what `/^\d+\. /` matches, as its length
unfoldable pub number_marker : Text → Option ℕ
number_marker line =
    let n = digits line in
    if not (eqb n 0) && starts_with (drop n line) (txt ". ") then some (n + 2) else none

-- the first match of `/- /`, as what stands before and behind it
unfoldable pub dash_marker : Text → Option (Text × Text)
dash_marker [] = none
dash_marker (c ∷ s) = elim (dash_marker s) [
  | none ↦ if starts_with (c ∷ s) (txt "- ") then some ([], drop 2 (c ∷ s)) else none
  | some (before, behind) ↦
      if starts_with (c ∷ s) (txt "- ")
      then some ([], drop 2 (c ∷ s))
      else some (c ∷ before, behind)
]

-- A new line, and what the caret moves on and back by.
pub record Change : Type 0 where
  pub new_line : Text
  pub forward : ℕ
  pub back : ℕ

abbrev pub change_dash : Text → Option (Text × Text) → Change
change_dash line none = record { new_line = txt "- [ ] " ++ line; forward = 6; back = 0 }
change_dash line (some (before, behind)) = record {
  new_line = before ++ (txt "- [ ] " ++ behind);
  forward = 6;
  back = 2;
}

-- the match of `/^\d+\. |- /`, of which only the first alternative is bound to the beginning of the line
abbrev pub change_marker : Text → Option ℕ → Change
change_marker line none = change_dash line (dash_marker line)
change_marker line (some n) = record {
  new_line = txt "- [ ] " ++ drop n line;
  forward = 6;
  back = n;
}

unfoldable pub change_line : Text → Change
change_line line =
    if has_checkbox line
    then record { new_line = drop 6 line; forward = 0; back = 6 }
    else change_marker line (number_marker line)

unfoldable pub handle_checkbox_click : Dom → Editor → Editor
handle_checkbox_click dom e =
    let current_position = get_cursor_position e in
    let current_line_number = get_cursor_line_number e in
    let change = change_line (get_line current_line_number e) in
    set_cursor_position dom (uint32_sub (current_position + change.forward) change.back) none
      (set_line dom current_line_number change.new_line e)
