-- ===== src/PagedMemoList/Loading.antt =====
-- app/web/src/components/PagedMemoList/PagedMemoList.tsx: scrolling loads every page.
use collab_notes_ecs.Base.{
  ◌≤◌, Text, truthy, true, false, none, some, List, [], ◌∷◌, ◌++◌, ◌≡◌, refl, sym, ap, ◌∙◌, arith,
  length, if◌then◌else◌, or_else, append-nil, append_assoc,
}
use collab_notes_ecs.Base.Dict.{find_last}
use collab_notes_ecs.Api.{Memo}
use collab_notes_ecs.Store.Memo.{
  Fetch, LocalState, listed, begin_fetch, update_state_id, get_memo_by_name,
}
use collab_notes_ecs.Store.Memo.Requests.{IsCoherent, begin_fetch-IsCoherent, end_fetch-IsCoherent}
use collab_notes_ecs.Store.Memo.Latest.{current_page}
use collab_notes_ecs.PagedMemoList.{
  PagedList, Server, token_of, begin_fetch_more_memos, end_fetch_more_memos, fetch_more_memos,
  refresh_list, handle_scroll,
}

-- The server's pages from a token on, the last of which has no next one.
abbrev pub IsChain : Server → Text → List (List Memo) → Type 0
IsChain server token [] = ⊥
IsChain server token (memos ∷ []) = server token ≡ (memos, [])
IsChain server token (memos ∷ q ∷ rest) =
    (next : Text) × (server token ≡ (memos, next))
    × (truthy next ≡ true)
    × IsChain server next (q ∷ rest)

abbrev pub concat : List (List Memo) → List Memo
concat [] = []
concat (memos ∷ rest) = memos ++ concat rest

-- Scrolling to the bottom once for each identifier.
unfoldable pub scrolls : Server → List Text → PagedList → PagedList
scrolls server [] p = p
scrolls server (id ∷ ids) p = scrolls server ids (handle_scroll server true id p)

-- The store holds these memos, the last one where several share a name.
abbrev pub Holds : List Memo → LocalState → Type 0
Holds memos s =
    (name : Text) → get_memo_by_name name s ≡ find_last (λ (m : Memo). m.name) name memos

find_last-append :
    (name : Text) (xs ys : List Memo)
    → find_last (λ (m : Memo). m.name) name (xs ++ ys)
      ≡ or_else
          (find_last (λ (m : Memo). m.name) name ys)
          (find_last (λ (m : Memo). m.name) name xs)
find_last-append name [] ys = ground arith
find_last-append name (x ∷ xs) ys = ground (arith, find_last-append name xs ys)

current-begin :
    (token : Text) (s : LocalState) → (begin_fetch token s).current_request ≡ some s.next_controller
unfolding begin_fetch
current-begin token s = refl

found-begin :
    (token : Text) (s : LocalState) (name : Text)
    → get_memo_by_name name (begin_fetch token s) ≡ get_memo_by_name name s
unfolding begin_fetch get_memo_by_name
found-begin token s name = refl

module _ (server : Server) (id token next : Text) (memos : List Memo) (p : PagedList)
    (h : IsCoherent p.store) (answer : server token ≡ (memos, next)) where
  -- A call that is not disturbed stores its page and keeps its token.
  fetch_more_memos_lem :
      ((name : Text)
        → get_memo_by_name name (fetch_more_memos server id token p).store
          ≡ or_else
              (find_last (λ (m : Memo). m.name) name memos)
              (if truthy token then get_memo_by_name name p.store else none))
      × ((fetch_more_memos server id token p).next_page_token ≡ next)
      × ((fetch_more_memos server id token p).is_requesting ≡ false)
      × IsCoherent (fetch_more_memos server id token p).store
  unfolding fetch_more_memos begin_fetch_more_memos end_fetch_more_memos
  fetch_more_memos_lem =
      let f : Fetch = record { controller = p.store.next_controller; page_token = token } in
      let begun = begin_fetch-IsCoherent token p.store h in
      let stored =
        current_page (begin_fetch token p.store) f id next memos begun
          (current-begin token p.store) in
      rw answer (
        λ name. stored.0 name ∙ rw (found-begin token p.store name) refl,
        ap (λ o. token_of o p.next_page_token) stored.1,
        refl,
        end_fetch-IsCoherent id f (listed memos next) (begin_fetch token p.store) begun,
      )

-- Scrolling does nothing once there is no next page.
scrolls_done :
    (server : Server) (ids : List Text) (p : PagedList)
    → p.next_page_token ≡ []
    → scrolls server ids p ≡ p
unfolding scrolls handle_scroll
scrolls_done server [] p h = refl
scrolls_done server (id ∷ ids) p h =
    ap (scrolls server ids) (simp h refl) ∙ scrolls_done server ids p h

handle_scroll_lem :
    (server : Server) (id token : Text) (p : PagedList)
    → p.is_requesting ≡ false
    → p.next_page_token ≡ token
    → truthy token ≡ true
    → handle_scroll server true id p ≡ fetch_more_memos server id token p
unfolding handle_scroll
handle_scroll_lem server id token p idle at more = rw (← at) (rw (idle, ap truthy at ∙ more) refl)

module _ (server : Server) (id token next : Text) (memos seen : List Memo) (p : PagedList)
    (h : IsCoherent p.store) (answer : server token ≡ (memos, next)) (more : truthy token ≡ true)
    (holds : Holds seen p.store) where
  -- A further page joins the memos that are there.
  Holds-fetch_more_memos : Holds (seen ++ memos) (fetch_more_memos server id token p).store
  Holds-fetch_more_memos name =
      (fetch_more_memos_lem server id token next memos p h answer).0 name
      ∙ (rw (more, holds name) (sym (find_last-append name seen memos)))

-- Everything that a run of scrolls leaves.
abbrev Loaded : List Memo → PagedList → Type 0
Loaded memos p = Holds memos p.store × (p.next_page_token ≡ []) × (p.is_requesting ≡ false)

-- From a token on, scrolling loads the pages of the chain behind what the store holds.
scrolls_lem :
    (server : Server) (pages : List (List Memo)) (token : Text) (ids : List Text) (seen : List Memo)
    (p : PagedList)
    → IsCoherent p.store
    → p.is_requesting ≡ false
    → p.next_page_token ≡ token
    → truthy token ≡ true
    → IsChain server token pages
    → length pages ≤ length ids
    → Holds seen p.store
    → Loaded (seen ++ concat pages) (scrolls server ids p)
unfolding scrolls
scrolls_lem server [] token ids seen p h idle at more chain enough holds = absurd chain
scrolls_lem server (memos ∷ rest) token [] seen p h idle at more chain enough holds =
    absurd (omega (arith, enough))
scrolls_lem server (memos ∷ []) token (id ∷ ids) seen p h idle at more chain enough holds =
    let fetched = fetch_more_memos_lem server id token [] memos p h chain in
    let held = Holds-fetch_more_memos server id token [] memos seen p h chain more holds in
    rw (handle_scroll_lem server id token p idle at more, scrolls)
      (rw (scrolls_done server ids (fetch_more_memos server id token p) fetched.1)
        (rw (append-nil memos) (held, fetched.1, fetched.2)))
scrolls_lem server (memos ∷ q ∷ rest) token (id ∷ ids) seen p h idle at more chain enough holds =
    let fetched = fetch_more_memos_lem server id token chain.0 memos p h chain.1 in
    let held = Holds-fetch_more_memos server id token chain.0 memos seen p h chain.1 more holds in
    rw (handle_scroll_lem server id token p idle at more, scrolls)
      (rw (← append_assoc seen memos (concat (q ∷ rest))) (
        scrolls_lem server (q ∷ rest) chain.0 ids (seen ++ memos)
          (fetch_more_memos server id token p) fetched.3 fetched.2 fetched.1 chain.2 chain.3
          (omega (arith, enough)) held))

refresh-IsCoherent : (id : Text) (s : LocalState) → IsCoherent s → IsCoherent (update_state_id id s)
unfolding update_state_id
refresh-IsCoherent id s h = record {
  live = h.live;
  settled = h.settled;
  aborted_below = h.aborted_below;
  waiting_below = h.waiting_below;
  distinct = h.distinct;
}

-- From any coherent state of the store, with a server whose pages end, a refresh and as many scrolls
-- to the bottom as the server has further pages, or more, load everything: the store holds exactly the
-- memos of the server's pages, each under its name, there is no next page, and no request is shown.
-- Each call is answered before the next scroll.
pub scrolls-refresh_list :
    (server : Server) (page : List Memo) (rest : List (List Memo)) (state_id id : Text)
    (ids : List Text) (p : PagedList)
    → IsCoherent p.store
    → IsChain server [] (page ∷ rest)
    → length rest ≤ length ids
    → Holds (page ++ concat rest) (scrolls server ids (refresh_list server state_id id p)).store
      × ((scrolls server ids (refresh_list server state_id id p)).next_page_token ≡ [])
      × ((scrolls server ids (refresh_list server state_id id p)).is_requesting ≡ false)
unfolding refresh_list
scrolls-refresh_list server memos [] state_id id ids p h chain enough =
    let cleared : PagedList = record p {
      store = update_state_id state_id p.store;
      next_page_token = [];
    } in
    let fetched =
      fetch_more_memos_lem server id [] [] memos cleared (refresh-IsCoherent state_id p.store h)
        chain in
    rw (scrolls_done server ids (fetch_more_memos server id [] cleared) fetched.1)
      (rw (append-nil memos) (λ name. fetched.0 name ∙ ground arith, fetched.1, fetched.2))
scrolls-refresh_list server memos (q ∷ rest) state_id id ids p h chain enough =
    let cleared : PagedList = record p {
      store = update_state_id state_id p.store;
      next_page_token = [];
    } in
    let fetched =
      fetch_more_memos_lem server id [] chain.0 memos cleared
        (refresh-IsCoherent state_id p.store h) chain.1 in
    scrolls_lem server (q ∷ rest) chain.0 ids memos (fetch_more_memos server id [] cleared)
      fetched.3 fetched.2 fetched.1 chain.2 chain.3 enough (λ name. fetched.0 name ∙ ground arith)
