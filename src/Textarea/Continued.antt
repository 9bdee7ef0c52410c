-- ===== src/Textarea/Continued.antt =====
-- app/web/src/components/MemoEditor/Editor/index.tsx: how a line is continued after Enter.
use collab_notes_ecs.Base.{
  ℕ, zero, suc, Text, txt, false, Option, none, some, [], ◌∷◌, ◌++◌, ◌≡◌, ◌≢◌,
}
use collab_notes_ecs.Textarea.Shortcuts.{is_space}
use collab_notes_ecs.Textarea.Enter.{Node, Nodes, marker}

-- Where the last node is found: in the last of the nodes, and if that is a list with children, in these.
pub data IsLast : Nodes → Option Node → Type 0 where
  nothing : IsLast Nodes.nil none
  behind :
      {node next : Node} {rest : Nodes} {o : Option Node}
      → IsLast (Nodes.cons next rest) o
      → IsLast (Nodes.cons node (Nodes.cons next rest)) o
  inside :
      {children : Nodes} {o : Option Node}
      → IsLast children o
      → IsLast (Nodes.cons (Node.list children) Nodes.nil) o
  itself :
      {node : Node}
      → ((children : Nodes) → node ≢ Node.list children)
      → IsLast (Nodes.cons node Nodes.nil) (some node)

abbrev pub times : ℕ → Text → Text
times zero t = []
times (suc n) t = t ++ times n t

-- How a node goes on in the next line, behind the indentation; `none` where nothing is put in, not even the
-- indentation. A task goes on with an empty box, an item of a numbered list with the next number, and a
-- table with a row of as many cells as its header.
pub data Continues (plus_one : Text → Text) : Option Node → Option Text → Type 0 where
  no_node : Continues plus_one none none
  task :
      (symbol : Text)
      → Continues plus_one (some (Node.task_list_item symbol)) (some (symbol ++ txt " [ ] "))
  item :
      (symbol : Text)
      → Continues plus_one (some (Node.unordered_list_item symbol)) (some (symbol ++ txt " "))
  numbered :
      (number : Text)
      → Continues plus_one
          (some (Node.ordered_list_item number))
          (some (plus_one number ++ txt ". "))
  table_row :
      (columns : ℕ)
      → Continues plus_one
          (some (Node.table (some (suc columns))))
          (some (txt "| " ++ (times columns (txt " | ") ++ txt " |")))
  empty_table : Continues plus_one (some (Node.table (some 0))) none
  bare_table : Continues plus_one (some (Node.table none)) none
  empty_list : Continues plus_one (some Node.childless_list) (some [])
  paragraph : Continues plus_one (some Node.other) (some [])

-- What the handler puts in.
abbrev pub put_in : Text → Option Text → Text
put_in indent none = []
put_in indent (some text) = indent ++ text

marker_of : (Text → Text) → Option Node → Option Text
marker_of plus_one none = none
marker_of plus_one (some node) = marker plus_one node

-- Not a space: what follows the indentation of a line, or nothing
abbrev pub StartsSolid : Text → Type 0
StartsSolid [] = Unit
StartsSolid (c ∷ s) = is_space c ≡ false
