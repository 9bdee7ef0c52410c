-- ===== src/Store/Memo/Entries.antt =====
-- The memo cache of app/web/src/store/memo.ts: what is found under a name after any run of the store.
use collab_notes_ecs.Base.{
  ℕ, ◌+◌, Text, truthy, Bool, true, false, Option, none, some, List, [], ◌∷◌, ◌≡◌, refl, inl, inr,
  arith, eqb, eqb_refl, ◌⊎◌, find, if◌then◌else◌, Option-cases, Bool-cases, or_else, ◌==◌, sym, ◌∙◌,
  ap,
}
use collab_notes_ecs.Base.Dict.{get, find_last, get-put, get-remove}
use collab_notes_ecs.Api.{Memo}
use collab_notes_ecs.Store.Memo.{
  Fetch, LocalState, initial, ListReply, listed, abort_error, failed, is_current, begin_fetch,
  end_fetch, end_get, end_create, end_update, end_delete, update_state_id, Event, fetch,
  fetch_reply, get_reply, create_reply, update_reply, delete_reply, refresh, waiting_for, step, run,
  get_memo_by_name,
}
use collab_notes_ecs.Store.Memo.Requests.{
  IsCoherent, IsLive, step-IsCoherent, initial-IsCoherent, end_fetch-SameRequests,
}
use collab_notes_ecs.Store.Memo.Latest.{
  stale_step, waiting_for-step, waiting_for-controller, current_page,
}

-- What the store promises: a cache by name, and the one call of fetchMemos whose page it still takes.
pub record Cache : Type 0 where
  pub found : Text → Option Memo
  pub latest : Option Fetch
  pub next : ℕ

abbrev is_latest : Option Fetch → ℕ → Bool
is_latest none c = false
is_latest (some f) c = eqb f.controller c

-- A page without a page token replaces the cache, one with a token adds to it.
abbrev loaded : ListReply → Option Fetch → (Text → Option Memo) → Text → Option Memo
loaded (listed memos next) (some f) found name =
    or_else (find_last (λ (m : Memo). m.name) name memos)
      (if truthy f.page_token then found name else none)
loaded (listed memos next) none found name = found name
loaded abort_error latest found name = found name
loaded (failed e) latest found name = found name

abbrev pub cache_step : Event → Cache → Cache
cache_step (fetch token) t = record t {
  latest = some (record { controller = t.next; page_token = token });
  next = t.next + 1;
}
cache_step (fetch_reply c id reply) t =
    if is_latest t.latest c
    then record t { found = loaded reply t.latest t.found; latest = none }
    else t
cache_step (get_reply id name skip_store memo) t =
    if skip_store then t else record t { found = λ k. if name == k then some memo else t.found k }
cache_step (create_reply id memo) t = record t {
  found = λ k. if memo.name == k then some memo else t.found k;
}
cache_step (update_reply id memo) t = record t {
  found = λ k. if memo.name == k then some memo else t.found k;
}
cache_step (delete_reply id name) t = record t {
  found = λ k. if name == k then none else t.found k;
}
cache_step (refresh id) t = t

abbrev pub cache_run : List Event → Cache → Cache
cache_run [] t = t
cache_run (e ∷ es) t = cache_run es (cache_step e t)

abbrev pub latest_of : Option ℕ → List Fetch → Option Fetch
latest_of none l = none
latest_of (some c) l = find (λ (f : Fetch). eqb f.controller c) l

pub record Refines (s : LocalState) (t : Cache) : Type 0 where
  pub found : (name : Text) → get_memo_by_name name s ≡ t.found name
  pub latest : latest_of s.current_request s.waiting ≡ t.latest
  pub next : s.next_controller ≡ t.next

is_latest-latest_of :
    (current : Option ℕ) (aborted : List ℕ) (n c : ℕ) (l : List Fetch)
    → IsLive current aborted n l
    → is_latest (latest_of current l) c ≡ is_current current c
is_latest-latest_of none aborted n c l h = refl
is_latest-latest_of (some d) aborted n c l h =
    elim (Option-cases (find (λ (f : Fetch). eqb f.controller d) l)) [
      | inl missing ↦ ground arith
      | inr (f, e) ↦ rw e (rw (waiting_for-controller d l f e))
    ]

begin_fetch-Refines :
    (token : Text) (s : LocalState) (t : Cache)
    → Refines s t
    → Refines (begin_fetch token s) (cache_step (fetch token) t)
unfolding begin_fetch get_memo_by_name
begin_fetch-Refines token s t r = record {
  found = r.found;
  latest = ground arith;
  next = ground arith;
}

next-step :
    (c : ℕ) (id : Text) (reply : ListReply) (s : LocalState)
    → (step (fetch_reply c id reply) s).next_controller ≡ s.next_controller
unfolding step
next-step c id reply s = elim (Option-cases (waiting_for c s)) [
  | inl missing ↦ rw missing
  | inr (f, found) ↦ rw found (end_fetch-SameRequests id f reply s).next
]

latest_of-step :
    (c : ℕ) (id : Text) (reply : ListReply) (s : LocalState) (current : Option ℕ)
    → is_current current c ≡ false
    → latest_of current (step (fetch_reply c id reply) s).waiting ≡ latest_of current s.waiting
latest_of-step c id reply s none h = refl
latest_of-step c id reply s (some d) h = waiting_for-step c d id reply s (ground arith)

waiting_of_current :
    (current : Option ℕ) (aborted : List ℕ) (n c : ℕ) (l : List Fetch)
    → IsLive current aborted n l
    → is_current current c ≡ true
    → (f : Fetch) × (find (λ (g : Fetch). eqb g.controller c) l ≡ some f) × (current ≡ some c)
waiting_of_current none aborted n c l h e = cc
waiting_of_current (some d) aborted n c l h e =
    let same : d ≡ c = ground arith in
    elim (Option-cases (find (λ (g : Fetch). eqb g.controller c) l)) [
      | inl missing ↦ cc (rw (same, missing) at h.2)
      | inr (f, found) ↦ (f, found, ap some same)
    ]

failed_reply-map :
    (id : Text) (f : Fetch) (reply : ListReply) (s : LocalState)
    → (reply ≡ abort_error) ⊎ ((e : Text) × (reply ≡ failed e))
    → (end_fetch id f reply s).0.memo_map_by_name ≡ s.memo_map_by_name
unfolding end_fetch
failed_reply-map id f (listed memos next) s h = ground arith
failed_reply-map id f abort_error s h = ground arith
failed_reply-map id f (failed e) s h = ground arith

module _ (s : LocalState) (t : Cache) (h : IsCoherent s) (r : Refines s t) where
  agree : (c : ℕ) → is_latest t.latest c ≡ is_current s.current_request c
  agree c =
      rw (← r.latest)
        (is_latest-latest_of s.current_request s.aborted s.next_controller c s.waiting h.live)

  stale_reply-Refines :
      (c : ℕ) (id : Text) (reply : ListReply)
      → is_current s.current_request c ≡ false
      → Refines (step (fetch_reply c id reply) s) (cache_step (fetch_reply c id reply) t)
  unfolding get_memo_by_name
  stale_reply-Refines c id reply stale =
      let same = stale_step s c id reply h (λ e. ground (arith, eqb_refl c)) in
      rw (agree c ∙ stale) (record {
        found = λ name. rw same.map (r.found name);
        latest = rw same.current (latest_of-step c id reply s s.current_request stale ∙ r.latest);
        next = next-step c id reply s ∙ r.next;
      })

  loaded-found :
      (id : Text) (reply : ListReply) (f : Fetch) (name : Text)
      → s.current_request ≡ some f.controller
      → get_memo_by_name name (end_fetch id f reply s).0 ≡ loaded reply (some f) t.found name
  loaded-found id (listed memos next) f name now =
      rw ((current_page s f id next memos h now).0 name) (rw (r.found name))
  loaded-found id abort_error f name now =
      unfold get_memo_by_name in rw (failed_reply-map id f abort_error s (inl refl)) (r.found name)
  loaded-found id (failed e) f name now =
      unfold get_memo_by_name in
      rw (failed_reply-map id f (failed e) s (inr (e, refl))) (r.found name)

  current_reply-Refines :
      (c : ℕ) (id : Text) (reply : ListReply)
      → is_current s.current_request c ≡ true
      → Refines (step (fetch_reply c id reply) s) (cache_step (fetch_reply c id reply) t)
  unfolding step
  current_reply-Refines c id reply now =
      let (f, found, current) =
        waiting_of_current s.current_request s.aborted s.next_controller c s.waiting h.live now in
      let same = waiting_for-controller c s.waiting f found in
      let latest : t.latest ≡ some f = sym r.latest ∙ rw current found in
      rw (agree c ∙ now, found, latest)
        (record {
          found = λ name. loaded-found id reply f name (rw same current);
          latest =
              rw ((end_fetch-SameRequests id f reply s).current, same, current, eqb_refl c) refl;
          next = (end_fetch-SameRequests id f reply s).next ∙ r.next;
        })

  write-Refines : (e : Event) → Refines (step e s) (cache_step e t)
  unfolding step
  write-Refines (fetch token) = begin_fetch-Refines token s t r
  write-Refines (fetch_reply c id reply) = elim (Bool-cases (is_current s.current_request c)) [
    | inl now ↦ current_reply-Refines c id reply now
    | inr stale ↦ stale_reply-Refines c id reply stale
  ]
  write-Refines (get_reply id name true memo) = unfold end_get in r
  write-Refines (get_reply id name false memo) =
      unfold end_get get_memo_by_name in
      record {
        found = λ k. rw (get-put s.memo_map_by_name name k memo) (rw (← r.found k));
        latest = r.latest;
        next = r.next;
      }
  write-Refines (create_reply id memo) =
      unfold end_create get_memo_by_name in
      record {
        found = λ k. rw (get-put s.memo_map_by_name memo.name k memo) (rw (← r.found k));
        latest = r.latest;
        next = r.next;
      }
  write-Refines (update_reply id memo) =
      unfold end_update get_memo_by_name in
      record {
        found = λ k. rw (get-put s.memo_map_by_name memo.name k memo) (rw (← r.found k));
        latest = r.latest;
        next = r.next;
      }
  write-Refines (delete_reply id name) =
      unfold end_delete get_memo_by_name in
      record {
        found = λ k. rw (get-remove s.memo_map_by_name name k) (rw (← r.found k));
        latest = r.latest;
        next = r.next;
      }
  write-Refines (refresh id) =
      unfold update_state_id get_memo_by_name in
      record { found = r.found; latest = r.latest; next = r.next }

abbrev pub empty_cache : Cache
empty_cache = record { found = λ k. none; latest = none; next = 0 }

run_from-Refines :
    (es : List Event) (s : LocalState) (t : Cache)
    → IsCoherent s
    → Refines s t
    → Refines (run es s) (cache_run es t)
unfolding run
run_from-Refines [] s t h r = r
run_from-Refines (e ∷ es) s t h r =
    run_from-Refines es (step e s) (cache_step e t) (step-IsCoherent e s h)
      (write-Refines s t h r e)

-- After any interleaving of calls and replies, the store finds under each name what the abstract cache
-- has there, in which a page of fetchMemos counts only if no later fetchMemos has begun, a page asked
-- for without a token replaces all entries, and every other reply writes or removes one name.
pub run-Refines :
    (id : Text) (es : List Event) → Refines (run es (initial id)) (cache_run es empty_cache)
unfolding get_memo_by_name get
run-Refines id es =
    run_from-Refines es (initial id) empty_cache (initial-IsCoherent id)
      (record { found = λ name. refl; latest = refl; next = refl })
