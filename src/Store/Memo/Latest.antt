-- ===== src/Store/Memo/Latest.antt =====
-- fetchMemos of app/web/src/store/memo.ts: only the latest request writes the store.
use collab_notes_ecs.Base.{
  ℕ, ◌+◌, Text, truthy, true, false, Option, none, some, List, [], ◌∷◌, ◌≡◌, refl, inl, inr, ◌≢◌,
  arith, eqb, eqb_iff, find, All, if◌then◌else◌, Option-cases, or_else,
}
use collab_notes_ecs.Base.Dict.{get, find_last, get-put_all}
use collab_notes_ecs.Api.{Memo}
use collab_notes_ecs.Store.Memo.{
  Fetch, LocalState, initial, ListReply, listed, abort_error, failed, Outcome, page, is_aborted,
  is_current, begin_fetch, end_fetch, Event, fetch_reply, waiting_for, step, run, get_memo_by_name,
}
use collab_notes_ecs.Store.Memo.Requests.{
  Settled, IsCoherent, begin_fetch-IsCoherent, run-IsCoherent, initial-IsCoherent, IsLive, others,
  released, end_fetch-SameRequests, step-IsCoherent,
}

pub waiting_for-controller :
    (c : ℕ) (l : List Fetch) (f : Fetch)
    → find (λ (g : Fetch). eqb g.controller c) l ≡ some f
    → f.controller ≡ c
waiting_for-controller c [] f h = cc
waiting_for-controller c (g ∷ l) f h = ground (arith, waiting_for-controller c l f)

Settled-find :
    (current : Option ℕ) (aborted : List ℕ) (c : ℕ) (l : List Fetch) (f : Fetch)
    → All (Settled current aborted) l
    → find (λ (g : Fetch). eqb g.controller c) l ≡ some f
    → Settled current aborted f
Settled-find current aborted c [] f h e = cc
Settled-find current aborted c (g ∷ l) f h e =
    ground (arith, Settled-find current aborted c l f h.1)

pub is_current_iff : (current : Option ℕ) (c : ℕ) → current ≢ some c → is_current current c ≡ false
is_current_iff none c h = refl
is_current_iff (some d) c h = ground arith

-- What the rest of the client sees of the store.
pub record SameView (s t : LocalState) : Type 0 where
  pub id : s.state_id ≡ t.state_id
  pub map : s.memo_map_by_name ≡ t.memo_map_by_name
  pub current : s.current_request ≡ t.current_request

abbrev pub IsPage : Outcome → Type 0
IsPage (page memos token) = Unit
IsPage _ = ⊥

pub end_fetch-stale :
    (id : Text) (f : Fetch) (reply : ListReply) (s : LocalState)
    → is_current s.current_request f.controller ≡ false
    → is_aborted s.aborted f.controller ≡ true
    → SameView (end_fetch id f reply s).0 s × (¬ IsPage (end_fetch id f reply s).1)
unfolding end_fetch
end_fetch-stale id f (listed memos next) s h a = ground arith
end_fetch-stale id f abort_error s h a = ground arith
end_fetch-stale id f (failed e) s h a = ground arith

stale_fetch :
    (s : LocalState) (c : ℕ) (id : Text) (reply : ListReply) (f : Fetch)
    → IsCoherent s
    → s.current_request ≢ some c
    → waiting_for c s ≡ some f
    → SameView (end_fetch id f reply s).0 s × (¬ IsPage (end_fetch id f reply s).1)
stale_fetch s c id reply f h ne found =
    let same = waiting_for-controller c s.waiting f found in
    let other : is_current s.current_request f.controller ≡ false =
      rw same (is_current_iff s.current_request c ne) in
    elim (Settled-find s.current_request s.aborted c s.waiting f h.settled found) [
      | inl now ↦ cc
      | inr old ↦ end_fetch-stale id f reply s other old
    ]

pub stale_step :
    (s : LocalState) (c : ℕ) (id : Text) (reply : ListReply)
    → IsCoherent s
    → s.current_request ≢ some c
    → SameView (step (fetch_reply c id reply) s) s
unfolding step
stale_step s c id reply h ne = elim (Option-cases (waiting_for c s)) [
  | inl missing ↦ rw missing (record { id = refl; map = refl; current = refl })
  | inr (f, found) ↦ rw found (stale_fetch s c id reply f h ne found).0
]

-- In every reachable state, the reply to a call of fetchMemos that is not the current request, whatever
-- it is, leaves the memo map, the state id and the current request as they are.
pub stale_reply_ignored :
    (id₀ : Text) (es : List Event) (c : ℕ) (id : Text) (reply : ListReply)
    → (run es (initial id₀)).current_request ≢ some c
    → SameView (step (fetch_reply c id reply) (run es (initial id₀))) (run es (initial id₀))
stale_reply_ignored id₀ es c id reply ne =
    stale_step _ c id reply (run-IsCoherent es _ (initial-IsCoherent id₀)) ne

end_fetch-SameView :
    (id : Text) (f : Fetch) (reply : ListReply) (s t : LocalState)
    → SameView s t
    → s.aborted ≡ t.aborted
    → SameView (end_fetch id f reply s).0 (end_fetch id f reply t).0
unfolding end_fetch
end_fetch-SameView id f (listed memos next) s t v a = ground arith
end_fetch-SameView id f abort_error s t v a = ground arith
end_fetch-SameView id f (failed e) s t v a = ground arith

step-SameView :
    (c : ℕ) (id : Text) (reply : ListReply) (s t : LocalState)
    → SameView s t
    → s.aborted ≡ t.aborted
    → waiting_for c s ≡ waiting_for c t
    → SameView (step (fetch_reply c id reply) s) (step (fetch_reply c id reply) t)
unfolding step
step-SameView c id reply s t v a e = elim (Option-cases (waiting_for c t)) [
  | inl missing ↦ rw (e, missing) v
  | inr (f, found) ↦ rw (e, found) (end_fetch-SameView id f reply s t v a)
]

-- The abort signals and the other waiting calls are untouched by a reply.
waiting_for-others :
    (c d : ℕ) (l : List Fetch)
    → c ≢ d
    → find (λ (f : Fetch). eqb f.controller d) (others c l)
      ≡ find (λ (f : Fetch). eqb f.controller d) l
waiting_for-others c d [] ne = refl
waiting_for-others c d (f ∷ l) ne = ground (arith, waiting_for-others c d l)

aborted-step :
    (c : ℕ) (id : Text) (reply : ListReply) (s : LocalState)
    → (step (fetch_reply c id reply) s).aborted ≡ s.aborted
unfolding step
aborted-step c id reply s = elim (Option-cases (waiting_for c s)) [
  | inl missing ↦ rw missing
  | inr (f, found) ↦ rw found (end_fetch-SameRequests id f reply s).aborts
]

pub waiting_for-step :
    (c d : ℕ) (id : Text) (reply : ListReply) (s : LocalState)
    → c ≢ d
    → waiting_for d (step (fetch_reply c id reply) s) ≡ waiting_for d s
unfolding step
waiting_for-step c d id reply s ne = elim (Option-cases (waiting_for c s)) [
  | inl missing ↦ rw missing
  | inr (f, found) ↦
      let same = waiting_for-controller c s.waiting f found in
      rw found (
        rw ((end_fetch-SameRequests id f reply s).waits, same)
          (waiting_for-others c d s.waiting ne))
]

IsLive-missing :
    (c : ℕ) (current : Option ℕ) (aborted : List ℕ) (n : ℕ) (l : List Fetch)
    → IsLive current aborted n l
    → find (λ (f : Fetch). eqb f.controller c) l ≡ none
    → current ≡ released c current
IsLive-missing c none aborted n l h e = refl
IsLive-missing c (some d) aborted n l h e = ground (arith, eqb_iff d c)

-- The answered call is current no longer.
pub current-step :
    (c : ℕ) (id : Text) (reply : ListReply) (s : LocalState)
    → IsCoherent s
    → (step (fetch_reply c id reply) s).current_request ≡ released c s.current_request
unfolding step
current-step c id reply s h = elim (Option-cases (waiting_for c s)) [
  | inl missing ↦
      rw missing
        (IsLive-missing c s.current_request s.aborted s.next_controller s.waiting h.live missing)
  | inr (f, found) ↦
      let same = waiting_for-controller c s.waiting f found in
      rw found (rw ((end_fetch-SameRequests id f reply s).current, same))
]

second_is_current :
    (t₁ t₂ : Text) (s : LocalState)
    → (begin_fetch t₂ (begin_fetch t₁ s)).current_request ≡ some (s.next_controller + 1)
unfolding begin_fetch
second_is_current t₁ t₂ s = refl

-- Of two calls of fetchMemos, the second started before the first was answered, the replies leave the
-- same memo map, state id and current request in whichever order they come: those of the second
-- reply alone.
pub reply_order_irrelevant :
    (s : LocalState) (t₁ t₂ id₁ id₂ : Text) (r₁ r₂ : ListReply)
    → IsCoherent s
    → let w = begin_fetch t₂ (begin_fetch t₁ s) in
      let first = fetch_reply s.next_controller id₁ r₁ in
      let second = fetch_reply (s.next_controller + 1) id₂ r₂ in
      SameView (run (first ∷ second ∷ []) w) (run (second ∷ []) w)
      × SameView (run (second ∷ first ∷ []) w) (run (second ∷ []) w)
unfolding run
reply_order_irrelevant s t₁ t₂ id₁ id₂ r₁ r₂ h =
    let c = s.next_controller in
    let w = begin_fetch t₂ (begin_fetch t₁ s) in
    let hw = begin_fetch-IsCoherent t₂ _ (begin_fetch-IsCoherent t₁ s h) in
    let now = second_is_current t₁ t₂ s in
    let done = step (fetch_reply (c + 1) id₂ r₂) w in
    let over : done.current_request ≢ some c =
      ground (arith, current-step (c + 1) id₂ r₂ w hw, now) in
    (
      step-SameView (c + 1) id₂ r₂ (step (fetch_reply c id₁ r₁) w) w
          (stale_step w c id₁ r₁ hw (ground arith)) (aborted-step c id₁ r₁ w)
          (waiting_for-step c (c + 1) id₁ r₁ w (omega arith)),
      stale_step done c id₁ r₁ (step-IsCoherent (fetch_reply (c + 1) id₂ r₂) w hw) over,
    )

IsLive-not_aborted :
    (current : Option ℕ) (aborted : List ℕ) (n c : ℕ) (l : List Fetch)
    → IsLive current aborted n l
    → current ≡ some c
    → is_aborted aborted c ≡ false
IsLive-not_aborted none aborted n c l h e = cc
IsLive-not_aborted (some d) aborted n c l h e = ground arith

-- A page that the current request brings: a memo of the page is found under its name, the last one if
-- several share it; any other name keeps its memo if a page token was sent, and is gone otherwise. The
-- caller gets the page, and no request is current afterwards.
pub current_page :
    (s : LocalState) (f : Fetch) (id next : Text) (memos : List Memo)
    → IsCoherent s
    → s.current_request ≡ some f.controller
    → let r = end_fetch id f (listed memos next) s in
      ((name : Text)
        → get_memo_by_name name r.0
          ≡ or_else
              (find_last (λ (m : Memo). m.name) name memos)
              (if truthy f.page_token then get_memo_by_name name s else none))
      × (r.1 ≡ page memos next)
      × (r.0.current_request ≡ none)
unfolding end_fetch get_memo_by_name get
current_page s f id next memos h now =
    let c = f.controller in
    let key = λ (m : Memo). m.name in
    let running =
      IsLive-not_aborted s.current_request s.aborted s.next_controller c s.waiting h.live now in
    (
      λ name.
          ground
            (arith, get-put_all key [] memos name, get-put_all key s.memo_map_by_name memos name),
      ground arith,
      ground arith,
    )
