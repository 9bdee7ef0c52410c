-- ===== src/PagedMemoList/Tests.antt =====
-- A server of two pages, loaded by scrolling.
use collab_notes_ecs.Base.{Text, txt, truthy, false, none, [], ◌∷◌, ◌≡◌, refl, arith, if◌then◌else◌}
use collab_notes_ecs.Api.{Memo, private_memo, State}
use collab_notes_ecs.Store.Memo.{initial}
use collab_notes_ecs.Store.Memo.Requests.{initial-IsCoherent}
use collab_notes_ecs.PagedMemoList.{Server, mounted, refresh_list}
use collab_notes_ecs.PagedMemoList.Loading.{Holds, scrolls, scrolls-refresh_list}

abbrev named : Text → Memo
named name = record {
  name = name;
  state = State.normal;
  create_time = none;
  update_time = none;
  display_time = none;
  content = [];
  visibility = private_memo;
  attachments = [];
  relations = [];
  location = none;
}

abbrev two_pages : Server
two_pages token =
    if truthy token
    then (named (txt "memos/2") ∷ [], [])
    else (named (txt "memos/1") ∷ [], txt "next")

scrolls-refresh_list_example :
    Holds
      (named (txt "memos/1") ∷ named (txt "memos/2") ∷ [])
      (scrolls two_pages
        (txt "8" ∷ txt "9" ∷ [])
        (refresh_list two_pages (txt "6") (txt "7") (mounted (initial [])))).store
    × ((scrolls two_pages
          (txt "8" ∷ txt "9" ∷ [])
          (refresh_list two_pages (txt "6") (txt "7") (mounted (initial [])))).next_page_token
        ≡ [])
    × ((scrolls two_pages
          (txt "8" ∷ txt "9" ∷ [])
          (refresh_list two_pages (txt "6") (txt "7") (mounted (initial [])))).is_requesting
        ≡ false)
scrolls-refresh_list_example =
    scrolls-refresh_list two_pages (named (txt "memos/1") ∷ []) ((named (txt "memos/2") ∷ []) ∷ [])
      (txt "6") (txt "7") (txt "8" ∷ txt "9" ∷ []) (mounted (initial [])) (initial-IsCoherent [])
      (txt "next", refl, refl, refl) (omega arith)
