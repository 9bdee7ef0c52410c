-- ===== src/PagedMemoList.antt =====
-- app/web/src/components/PagedMemoList/PagedMemoList.tsx: the list that loads its memos page by page into
-- the store of Store/Memo. The properties `state`, `orderBy`, `filter` and `pageSize` stay as they are,
-- and belong to the server; sorting, timers and the measures of the window are arguments.
pub mod Loading
pub mod Tests
use collab_notes_ecs.Base.{
  ℕ, Text, truthy, Bool, true, false, not, ◌&&◌, List, [], ◌∷◌, eqb, length, if◌then◌else◌,
}
use collab_notes_ecs.Api.{Memo}
use collab_notes_ecs.Store.Memo.{
  Fetch, LocalState, ListReply, listed, Outcome, page, undefined, thrown, begin_fetch, end_fetch,
  update_state_id, memos,
}

pub record PagedList : Type 0 where
  pub store : LocalState
  pub is_requesting : Bool
  pub next_page_token : Text

-- The state as it is rendered first.
abbrev pub mounted : LocalState → PagedList
mounted store = record { store = store; is_requesting = true; next_page_token = [] }

-- `response?.nextPageToken || ""`, which a call that throws does not reach
abbrev pub token_of : Outcome → Text → Text
token_of (page memos next) old = next
token_of undefined old = []
token_of (thrown e) old = old

-- `fetchMoreMemos` up to the `await`, and after it
unfoldable pub begin_fetch_more_memos : Text → PagedList → PagedList
begin_fetch_more_memos page_token p = record p {
  store = begin_fetch page_token p.store;
  is_requesting = true;
}

unfoldable pub end_fetch_more_memos : Text → Fetch → ListReply → PagedList → PagedList
end_fetch_more_memos id f reply p =
    let (store, outcome) = end_fetch id f reply p.store in
    record {
      store = store;
      is_requesting = false;
      next_page_token = token_of outcome p.next_page_token;
    }

-- What the server answers to a page token: the memos of the page, and the token of the next one.
abbrev pub Server : Type 0
Server = Text → List Memo × Text

-- `fetchMoreMemos` when nothing else happens while it waits
unfoldable pub fetch_more_memos : Server → Text → Text → PagedList → PagedList
fetch_more_memos server id page_token p =
    let (memos, next) = server page_token in
    end_fetch_more_memos id
      (record { controller = p.store.next_controller; page_token = page_token }) (listed memos next)
      (begin_fetch_more_memos page_token p)

-- `refreshList`; the call of `updateStateId` has an identifier of its own
unfoldable pub refresh_list : Server → Text → Text → PagedList → PagedList
refresh_list server state_id id p =
    fetch_more_memos server id []
      (record p { store = update_state_id state_id p.store; next_page_token = [] })

-- the handler of scrolling, which is there while there is a next page
unfoldable pub handle_scroll : Server → Bool → Text → PagedList → PagedList
handle_scroll server near_bottom id p =
    if truthy p.next_page_token && (near_bottom && not p.is_requesting)
    then fetch_more_memos server id p.next_page_token p
    else p

-- `checkAndFetchIfNeeded` after its wait, with the property `listSort` of the list
unfoldable pub check_and_fetch_if_needed :
    Server → (List Memo → List Memo) → Bool → Text → PagedList → PagedList
check_and_fetch_if_needed server list_sort is_page_scrollable id p =
    let should_fetch =
      not is_page_scrollable
      && (truthy p.next_page_token
          && (not p.is_requesting && not (eqb (length (list_sort (memos p.store))) 0))) in
    if should_fetch then fetch_more_memos server id p.next_page_token p else p
