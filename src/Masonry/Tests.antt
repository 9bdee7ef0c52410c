-- ===== src/Masonry/Tests.antt =====
-- Distributions on concrete memos, and instances of the theorems.
use collab_notes_ecs.Base.{
  ℕ, ◌+◌, ◌≤◌, Text, txt, true, false, none, some, List, [], ◌∷◌, ◌≡◌, refl, arith, ◌==◌,
}
use collab_notes_ecs.Base.Dict.{Dict, get}
use collab_notes_ecs.Api.{Memo, private_memo, State}
use collab_notes_ecs.Masonry.{
  Columns, minimum, index_of, place, place_all, empty_columns, distribute_memos_to_columns, ◌>>=◌,
}
use collab_notes_ecs.Masonry.Layout.{IsLayout}
use collab_notes_ecs.Masonry.Layout.Result.{Tallest, distribute-IsLayout, distribute_even}
use collab_notes_ecs.Masonry.View.{
  Props, mount, height_changed, new_list_mode, run, Shows, run-IsShown, calculate_columns,
}

abbrev memo_named : Text → Memo
memo_named name = record {
  name = name;
  state = State.normal;
  create_time = none;
  update_time = none;
  display_time = none;
  content = [];
  visibility = private_memo;
  attachments = [];
  relations = [];
  location = none;
}

abbrev three_memos : List Memo
three_memos = memo_named (txt "a") ∷ memo_named (txt "b") ∷ memo_named (txt "c") ∷ []

abbrev measured : Dict ℕ
measured = (txt "a", 50) ∷ (txt "b", 30) ∷ (txt "c", 20) ∷ []

abbrev two_columns : Columns
two_columns = record { distribution = (1 ∷ []) ∷ (0 ∷ 2 ∷ []) ∷ []; column_heights = 70 ∷ 70 ∷ [] }

three_in_two : distribute_memos_to_columns three_memos 2 measured 40 ≡ some two_columns
unfolding distribute_memos_to_columns place_all place empty_columns minimum index_of get ◌==◌
three_in_two = refl

distribute-IsLayout_example :
    (c : Columns) × (distribute_memos_to_columns three_memos 2 measured 40 ≡ some c)
    × IsLayout three_memos 2 measured 40 c
distribute-IsLayout_example = distribute-IsLayout three_memos 2 measured 40 (omega arith)

Tallest-measured : Tallest measured 50 three_memos
unfolding get ◌==◌
Tallest-measured i = ground arith

distribute_even_example : 70 ≤ 70 + 50
distribute_even_example =
    distribute_even three_memos 2 measured 40 50 0 1 70 70 two_columns (omega arith) (omega arith)
      Tallest-measured three_in_two refl refl

abbrev wide : Props
wide = record { memo_list = three_memos; list_mode = false }

run-IsShown_example : Shows (
    mount 40 (some 1300) wide
    >>= run (height_changed (txt "a") 50 40 ∷ new_list_mode true (some 1300) 40 ∷ []))
run-IsShown_example =
    run-IsShown 40 (some 1300) wide
      (height_changed (txt "a") 50 40 ∷ new_list_mode true (some 1300) 40 ∷ [])

three_columns : calculate_columns (some 1300) false ≡ 3
unfolding calculate_columns
three_columns = refl
