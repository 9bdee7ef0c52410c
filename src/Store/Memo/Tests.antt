-- ===== src/Store/Memo/Tests.antt =====
-- Runs of the memo store on concrete events, and instances of its theorems.
use collab_notes_ecs.Base.{txt, Text, false, none, some, List, [], ◌∷◌, ◌≡◌, refl, ◌≢◌, arith}
use collab_notes_ecs.Base.Dict.{get, put, put_all, remove}
use collab_notes_ecs.Base.{◌==◌, ◌+◌}
use collab_notes_ecs.Api.{Memo, private_memo, State}
use collab_notes_ecs.Store.Memo.{
  Fetch, LocalState, initial, listed, Event, fetch, fetch_reply, get_reply, create_reply,
  delete_reply, step, run, begin_fetch, end_fetch, end_get, end_create, end_delete,
  get_memo_by_name,
}
use collab_notes_ecs.Store.Memo.Requests.{IsCoherent, run-IsCoherent, initial-IsCoherent}
use collab_notes_ecs.Store.Memo.Latest.{SameView, reply_order_irrelevant}
use collab_notes_ecs.Store.Memo.Entries.{Refines, run-Refines, cache_run, empty_cache}

abbrev memo_of : Text → Text → Memo
memo_of name content = record {
  name = name;
  state = State.normal;
  create_time = none;
  update_time = none;
  display_time = none;
  content = content;
  visibility = private_memo;
  attachments = [];
  relations = [];
  location = none;
}

abbrev first_memo : Memo
first_memo = memo_of (txt "memos/1") (txt "one")

abbrev second_memo : Memo
second_memo = memo_of (txt "memos/2") (txt "two")

-- Two list requests overlap; the reply to the first comes last.
abbrev overlap : List Event
overlap =
    fetch []
    ∷ fetch []
    ∷ fetch_reply 1 (txt "7") (listed (second_memo ∷ []) (txt "next"))
    ∷ fetch_reply 0 (txt "8") (listed (first_memo ∷ []) [])
    ∷ []

overlap_first : get_memo_by_name (txt "memos/1") (run overlap (initial [])) ≡ none
unfolding run step begin_fetch end_fetch get_memo_by_name get put_all put ◌==◌
overlap_first = refl

overlap_second : get_memo_by_name (txt "memos/2") (run overlap (initial [])) ≡ some second_memo
unfolding run step begin_fetch end_fetch get_memo_by_name get put_all put ◌==◌
overlap_second = refl

abbrev two_fetches : List Event
two_fetches = fetch [] ∷ fetch [] ∷ []

first_not_current : (run two_fetches (initial [])).current_request ≢ some 0
unfolding run step begin_fetch
first_not_current e = ground arith

reply_order_irrelevant_example :
    let w = begin_fetch [] (begin_fetch [] (initial [])) in
    let first = fetch_reply 0 (txt "8") (listed (first_memo ∷ []) []) in
    let second = fetch_reply (0 + 1) (txt "7") (listed (second_memo ∷ []) []) in
    SameView (run (first ∷ second ∷ []) w) (run (second ∷ []) w)
    × SameView (run (second ∷ first ∷ []) w) (run (second ∷ []) w)
reply_order_irrelevant_example =
    reply_order_irrelevant (initial []) [] [] (txt "8") (txt "7") (listed (first_memo ∷ []) [])
      (listed (second_memo ∷ []) []) (initial-IsCoherent [])

abbrev one_fetch : LocalState
one_fetch = begin_fetch [] (initial [])

abbrev first_fetch : Fetch
first_fetch = record { controller = 0; page_token = [] }

first_is_current : one_fetch.current_request ≡ some 0
unfolding begin_fetch
first_is_current = refl

run-IsCoherent_example : IsCoherent (run overlap (initial []))
run-IsCoherent_example = run-IsCoherent overlap (initial []) (initial-IsCoherent [])

run-Refines_example : Refines (run overlap (initial [])) (cache_run overlap empty_cache)
run-Refines_example = run-Refines [] overlap

abbrev writes : List Event
writes =
    create_reply (txt "3") first_memo
    ∷ get_reply (txt "4") (txt "memos/2") false second_memo
    ∷ delete_reply (txt "5") (txt "memos/1")
    ∷ []

writes_found : get_memo_by_name (txt "memos/2") (run writes (initial [])) ≡ some second_memo
unfolding run step end_create end_get end_delete get_memo_by_name get put remove ◌==◌
writes_found = refl
