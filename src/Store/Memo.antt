-- ===== src/Store/Memo.antt =====
-- app/web/src/store/memo.ts. A call that awaits the service is two steps: the code up to the `await`, and
-- the code that runs when the reply is there. Steps of different calls interleave freely, so a run of
-- the store is a list of events. The number that names an `AbortController` is the order in which the
-- controllers were made; what lodash's `uniqueId` returns is an argument of the step that calls it.
pub mod Requests
pub mod Latest
pub mod Entries
pub mod Keyed
pub mod Tests
use collab_notes_ecs.Base.{
  ℕ, ◌+◌, Text, truthy, Bool, true, false, Option, none, some, List, [], ◌∷◌, ◌++◌, ◌||◌, eqb, find,
  select, not, if◌then◌else◌, is_some,
}
use collab_notes_ecs.Base.Dict.{Dict, get, put, remove, put_all, values}
use collab_notes_ecs.Api.{Memo}

-- A call of `fetchMemos` that waits for `listMemos`. A missing page token is the empty text.
pub record Fetch : Type 0 where
  pub controller : ℕ
  pub page_token : Text

-- `LocalState`, with the controllers that were made and aborted and the calls that wait.
pub record LocalState : Type 0 where
  pub state_id : Text
  pub memo_map_by_name : Dict Memo
  pub current_request : Option ℕ
  pub aborted : List ℕ
  pub next_controller : ℕ
  pub waiting : List Fetch

abbrev pub initial : Text → LocalState
initial id = record {
  state_id = id;
  memo_map_by_name = [];
  current_request = none;
  aborted = [];
  next_controller = 0;
  waiting = [];
}

-- `get memos()`
pub memos : LocalState → List Memo
memos s = values s.memo_map_by_name

unfoldable pub update_state_id : Text → LocalState → LocalState
update_state_id id s = record s { state_id = id }

-- What `listMemos` comes back with.
pub data ListReply : Type 0 where
  listed : List Memo → Text → ListReply
  abort_error : ListReply
  failed : Text → ListReply

-- What the promise of `fetchMemos` settles to.
pub data Outcome : Type 0 where
  page : List Memo → Text → Outcome
  undefined : Outcome
  thrown : Text → Outcome

abbrev pub is_aborted : List ℕ → ℕ → Bool
is_aborted [] c = false
is_aborted (a ∷ l) c = eqb a c || is_aborted l c

abbrev abort_current : Option ℕ → List ℕ → List ℕ
abort_current none aborted = aborted
abort_current (some old) aborted = old ∷ aborted

-- `fetchMemos` up to the `await`
unfoldable pub begin_fetch : Text → LocalState → LocalState
begin_fetch token s = record s {
  aborted = abort_current s.current_request s.aborted;
  next_controller = s.next_controller + 1;
  current_request = some s.next_controller;
  waiting = record { controller = s.next_controller; page_token = token } ∷ s.waiting;
}

-- the body of `if (!controller.signal.aborted)`
store_page : Text → Text → List Memo → LocalState → LocalState
store_page id token memos s = record s {
  state_id = id;
  memo_map_by_name =
      put_all (λ (m : Memo). m.name) (if truthy token then s.memo_map_by_name else []) memos;
}

-- the `try` and the `catch` of `fetchMemos`, after the `await`
settle : Text → Fetch → ListReply → LocalState → LocalState × Outcome
settle id f (listed memos next) s =
    if is_aborted s.aborted f.controller
    then (s, undefined)
    else (store_page id f.page_token memos s, page memos next)
settle id f abort_error s = (s, undefined)
settle id f (failed e) s = (s, thrown e)

abbrev is_current : Option ℕ → ℕ → Bool
is_current none c = false
is_current (some d) c = eqb d c

-- the `finally` of `fetchMemos`
release : ℕ → LocalState → LocalState
release c s = if is_current s.current_request c then record s { current_request = none } else s

abbrev answered : ℕ → LocalState → LocalState
answered c s = record s { waiting = select (λ (f : Fetch). not (eqb f.controller c)) s.waiting }

-- `fetchMemos` after the `await`; the call waits no longer
unfoldable pub end_fetch : Text → Fetch → ListReply → LocalState → LocalState × Outcome
unfolding store_page settle release
end_fetch id f reply s =
    let (s', outcome) = settle id f reply (answered f.controller s) in
    (release f.controller s', outcome)

-- `getOrFetchMemoByName` up to the `await`: the memo if the cache has it, and otherwise it waits
unfoldable pub cached_memo : Text → Bool → LocalState → Option Memo
cached_memo name skip_cache s = if skip_cache then none else get s.memo_map_by_name name

-- the same after the `await`
unfoldable pub end_get : Text → Text → Bool → Memo → LocalState → LocalState
end_get id name skip_store memo s =
    if skip_store
    then s
    else record s { state_id = id; memo_map_by_name = put s.memo_map_by_name name memo }

unfoldable pub get_memo_by_name : Text → LocalState → Option Memo
get_memo_by_name name s = get s.memo_map_by_name name

-- `createMemo` and `updateMemo` after the `await`
unfoldable pub end_create : Text → Memo → LocalState → LocalState
end_create id memo s = record s {
  state_id = id;
  memo_map_by_name = put s.memo_map_by_name memo.name memo;
}

unfoldable pub end_update : Text → Memo → LocalState → LocalState
end_update id memo s = record s {
  state_id = id;
  memo_map_by_name = put s.memo_map_by_name memo.name memo;
}

-- `deleteMemo` after the `await`
unfoldable pub end_delete : Text → Text → LocalState → LocalState
end_delete id name s = record s { state_id = id; memo_map_by_name = remove s.memo_map_by_name name }

-- One step of the store. A reply names the controller of the call that it answers.
pub data Event : Type 0 where
  fetch : Text → Event
  fetch_reply : ℕ → Text → ListReply → Event
  get_reply : Text → Text → Bool → Memo → Event
  create_reply update_reply : Text → Memo → Event
  delete_reply : Text → Text → Event
  refresh : Text → Event

abbrev pub waiting_for : ℕ → LocalState → Option Fetch
waiting_for c s = find (λ (f : Fetch). eqb f.controller c) s.waiting

answer : Option Fetch → Text → ListReply → LocalState → LocalState
answer none id reply s = s
answer (some f) id reply s = (end_fetch id f reply s).0

unfoldable pub step : Event → LocalState → LocalState
unfolding answer
step (fetch token) s = begin_fetch token s
step (fetch_reply c id reply) s = answer (waiting_for c s) id reply s
step (get_reply id name skip_store memo) s = end_get id name skip_store memo s
step (create_reply id memo) s = end_create id memo s
step (update_reply id memo) s = end_update id memo s
step (delete_reply id name) s = end_delete id name s
step (refresh id) s = update_state_id id s

unfoldable pub run : List Event → LocalState → LocalState
run [] s = s
run (e ∷ es) s = run es (step e s)
