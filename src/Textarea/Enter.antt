-- ===== src/Textarea/Enter.antt =====
-- app/web/src/components/MemoEditor/Editor/index.tsx: the Enter key, which continues the list that the caret is
-- in. The server parses the text in front of the caret: the handler is split where it awaits the reply.
use collab_notes_ecs.Base.{
  ℕ, zero, suc, ◌-◌, Text, txt, truthy, ◌==◌, Bool, not, ◌&&◌, Option, none, some, [], ◌∷◌, ◌++◌,
  if◌then◌else◌, eqb, length, take, get_elem?, get_or,
}
use collab_notes_ecs.Base.Split.{split}
use collab_notes_ecs.Textarea.{Dom, Editor, get_content, get_cursor_position, insert_text}
use collab_notes_ecs.Textarea.Shortcuts.{is_space}

-- What the handler reads of the nodes of the parsed text: their type, the children of a list, the symbol
-- or the number of an item, and the length of a table's header, if it has one; a list
-- may have no children at all.
mutual
  pub data Node : Type 0 where
    list : Nodes → Node
    childless_list : Node
    task_list_item : Text → Node
    unordered_list_item : Text → Node
    ordered_list_item : Text → Node
    table : Option ℕ → Node
    other : Node

  pub data Nodes : Type 0 where
    nil : Nodes
    cons : Node → Nodes → Nodes

unfoldable mutual
  pub get_last_node : Nodes → Option Node
  get_last_node nil = none
  get_last_node (cons node nil) = last_inside node
  get_last_node (cons node (cons next rest)) = get_last_node (cons next rest)

  pub last_inside : Node → Option Node
  last_inside (list children) = get_last_node children
  last_inside childless_list = some childless_list
  last_inside (task_list_item symbol) = some (task_list_item symbol)
  last_inside (unordered_list_item symbol) = some (unordered_list_item symbol)
  last_inside (ordered_list_item number) = some (ordered_list_item number)
  last_inside (table header) = some (table header)
  last_inside other = some other

-- The match of `/^\s*/`.
unfoldable pub indentation : Text → Text
indentation [] = []
indentation (c ∷ s) = let rest = indentation s in if is_space c then c ∷ rest else []

-- the loop that begins with the second column
abbrev pub row : ℕ → Text
row zero = txt " |"
row (suc rounds) = txt " | " ++ row rounds

-- What follows the indentation, `none` where the handler returns. `Number(number) + 1` as a text is an
-- argument.
unfoldable pub marker : (Text → Text) → Node → Option Text
marker plus_one (task_list_item symbol) = some (symbol ++ txt " [ ] ")
marker plus_one (unordered_list_item symbol) = some (symbol ++ txt " ")
marker plus_one (ordered_list_item number) = some (plus_one number ++ txt ". ")
marker plus_one (table none) = none
marker plus_one (table (some columns)) =
    if eqb columns 0 then none else some (txt "| " ++ row (columns - 1))
marker plus_one node = some []

-- The text in front of the caret, which is sent to the parser when Enter is pressed with no other key and
-- no composition is on.
unfoldable pub begin_enter : Text → Bool → Bool → Editor → Option Text
begin_enter key is_in_ime other_key e =
    if (key == txt "Enter") && (not is_in_ime && not other_key)
    then some (take (get_cursor_position e) (get_content e))
    else none

abbrev pub insert_marker : Dom → Text → Option Text → Editor → Editor
insert_marker dom indent none e = e
insert_marker dom indent (some text) e =
    if truthy (indent ++ text) then insert_text dom (indent ++ text) [] [] e else e

abbrev pub continue_node : Dom → (Text → Text) → Text → Option Node → Editor → Editor
continue_node dom plus_one last_line none e = e
continue_node dom plus_one last_line (some node) e =
    insert_marker dom (indentation last_line) (marker plus_one node) e

-- The handler when the nodes are there; the browser may have changed the textarea meanwhile.
unfoldable pub end_enter : Dom → (Text → Text) → Text → Nodes → Editor → Editor
end_enter dom plus_one prev_content nodes e =
    let lines = split b'\n' prev_content in
    let last_line = get_or (get_elem? lines (length lines - 1)) [] in
    continue_node dom plus_one last_line (get_last_node nodes) e
