-- ===== src/Pages/Tests.antt =====
-- Three memos, two of one time, and filters of the home page.
use collab_notes_ecs.Base.{
  ℕ, Text, txt, ◌==◌, starts_with, includes, Option, none, some, List, [], ◌∷◌, ◌≡◌, ◌↔◌, refl,
  true, false, get_or, select,
}
use collab_notes_ecs.Base.Split.{split}
use collab_notes_ecs.Api.{Memo, State, normal, archived, private_memo}
use collab_notes_ecs.Pages.{
  same_state, insert, sort, list_sort, get_shortcut_id, last_part, extract_user_id_from_name,
  page_filter, page_condition,
}
use collab_notes_ecs.Pages.Order.{IsOrdered, at_time, list_sort-IsOrdered}

abbrev memo_at : Text → State → ℕ → Memo
memo_at name state time = record {
  name = name;
  state = state;
  create_time = none;
  update_time = none;
  display_time = some time;
  content = [];
  visibility = private_memo;
  attachments = [];
  relations = [];
  location = none;
}

abbrev seconds : Option ℕ → ℕ
seconds time = get_or time 0

abbrev stored : List Memo
stored =
    memo_at (txt "a") normal 1
    ∷ memo_at (txt "b") archived 2
    ∷ memo_at (txt "c") normal 3
    ∷ memo_at (txt "d") normal 1
    ∷ []

newest_first :
    list_sort seconds normal false stored
    ≡ memo_at (txt "c") normal 3 ∷ memo_at (txt "a") normal 1 ∷ memo_at (txt "d") normal 1 ∷ []
unfolding list_sort sort insert
newest_first = refl

list_sort-IsOrdered_example :
    IsOrdered (λ (m : Memo). seconds m.display_time) false (list_sort seconds normal false stored)
    × ((t : ℕ)
        → at_time (λ (m : Memo). seconds m.display_time) t (list_sort seconds normal false stored)
          ≡ at_time
              (λ (m : Memo). seconds m.display_time)
              t
              (select (λ (m : Memo). same_state m.state normal) stored))
    × ((m : Memo) → (same_state m.state normal ≡ true) ↔ (m.state ≡ normal))
list_sort-IsOrdered_example = list_sort-IsOrdered seconds normal false stored

shortcut_id : get_shortcut_id (txt "users/1/shortcuts/7") ≡ txt "7"
unfolding get_shortcut_id split
shortcut_id = refl

searched :
    page_filter (txt "users/1") (record { factor = txt "contentSearch"; value = txt "x" } ∷ [])
    ≡ txt "creator_id == 1 && content.contains(\"x\")"
unfolding page_filter page_condition extract_user_id_from_name last_part includes starts_with ◌==◌
searched = refl
