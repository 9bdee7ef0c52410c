-- ===== src/Store/Memo/Requests.antt =====
-- fetchMemos of app/web/src/store/memo.ts: which request may write the store.
use collab_notes_ecs.Base.{
  ℕ, ◌+◌, ◌<◌, Text, true, false, Option, none, some, List, [], ◌∷◌, ◌≡◌, refl, ◌⊎◌, inl, inr, ◌≢◌,
  arith, eqb, find, select, not, is_some, All, All-select, if◌then◌else◌, Option-cases,
}
use collab_notes_ecs.Store.Memo.{
  Fetch, LocalState, initial, ListReply, listed, abort_error, failed, is_aborted, is_current,
  abort_current, begin_fetch, end_fetch, Event, fetch, fetch_reply, get_reply, create_reply,
  update_reply, delete_reply, refresh, waiting_for, step, run, end_get, end_create, end_update,
  end_delete, update_state_id,
}

-- A waiting call is the current request, or its controller has been aborted.
abbrev pub Settled : Option ℕ → List ℕ → Fetch → Type 0
Settled current aborted f =
    (is_current current f.controller ≡ true) ⊎ (is_aborted aborted f.controller ≡ true)

abbrev pub IsLive : Option ℕ → List ℕ → ℕ → List Fetch → Type 0
IsLive none aborted next waiting = Unit
IsLive (some c) aborted next waiting =
    (is_aborted aborted c ≡ false)
    × (c < next)
    × (is_some (find (λ (f : Fetch). eqb f.controller c) waiting) ≡ true)

-- No two of the calls have the same controller.
abbrev pub HasDistinctControllers : List Fetch → Type 0
HasDistinctControllers [] = Unit
HasDistinctControllers (f ∷ l) =
    All (λ (g : Fetch). g.controller ≢ f.controller) l × HasDistinctControllers l

pub record IsCoherent (s : LocalState) : Type 0 where
  pub live : IsLive s.current_request s.aborted s.next_controller s.waiting
  pub settled : All (Settled s.current_request s.aborted) s.waiting
  pub aborted_below : All (λ a. a < s.next_controller) s.aborted
  pub waiting_below : All (λ (f : Fetch). f.controller < s.next_controller) s.waiting
  pub distinct : HasDistinctControllers s.waiting

below_suc : (n : ℕ) (l : List ℕ) → All (λ a. a < n) l → All (λ a. a < n + 1) l
below_suc n [] h = tt
below_suc n (a ∷ l) h = (omega arith, below_suc n l h.1)

fetches_below_suc :
    (n : ℕ) (l : List Fetch)
    → All (λ (f : Fetch). f.controller < n) l
    → All (λ (f : Fetch). f.controller < n + 1) l
fetches_below_suc n [] h = tt
fetches_below_suc n (f ∷ l) h = (omega arith, fetches_below_suc n l h.1)

others_than_next :
    (n : ℕ) (l : List Fetch)
    → All (λ (f : Fetch). f.controller < n) l
    → All (λ (f : Fetch). f.controller ≢ n) l
others_than_next n [] h = tt
others_than_next n (f ∷ l) h = (omega (arith, h.0), others_than_next n l h.1)

pub not_aborted : (n : ℕ) (l : List ℕ) → All (λ a. a < n) l → is_aborted l n ≡ false
not_aborted n [] h = refl
not_aborted n (a ∷ l) h = ground (arith, not_aborted n l h.1)

Settled-begin :
    (current : Option ℕ) (aborted : List ℕ) (n : ℕ) (l : List Fetch)
    → All (Settled current aborted) l
    → All (Settled (some n) (abort_current current aborted)) l
Settled-begin current aborted n [] h = tt
Settled-begin none aborted n (f ∷ l) h = (inr (ground arith), Settled-begin none aborted n l h.1)
Settled-begin (some c) aborted n (f ∷ l) h =
    (inr (ground arith), Settled-begin (some c) aborted n l h.1)

aborted_below-begin :
    (current : Option ℕ) (aborted : List ℕ) (n : ℕ) (l : List Fetch)
    → IsLive current aborted n l
    → All (λ a. a < n) aborted
    → All (λ a. a < n) (abort_current current aborted)
aborted_below-begin none aborted n l live h = h
aborted_below-begin (some c) aborted n l live h = (live.1, h)

pub begin_fetch-IsCoherent :
    (token : Text) (s : LocalState) → IsCoherent s → IsCoherent (begin_fetch token s)
unfolding begin_fetch
begin_fetch-IsCoherent token s h =
    let n = s.next_controller in
    let below =
      aborted_below-begin s.current_request s.aborted n s.waiting h.live h.aborted_below in
    record {
      live = (not_aborted n _ below, omega arith, ground arith);
      settled =
          (inl (ground arith), Settled-begin s.current_request s.aborted n s.waiting h.settled);
      aborted_below = below_suc n _ below;
      waiting_below = (omega arith, fetches_below_suc n s.waiting h.waiting_below);
      distinct = (others_than_next n s.waiting h.waiting_below, h.distinct);
    }

-- What is left of the waiting calls when the call of controller `c` is answered.
abbrev pub others : ℕ → List Fetch → List Fetch
others c = select (λ (f : Fetch). not (eqb f.controller c))

abbrev pub released : ℕ → Option ℕ → Option ℕ
released c current = if is_current current c then none else current

Settled-end :
    (c : ℕ) (current : Option ℕ) (aborted : List ℕ) (l : List Fetch)
    → All (Settled current aborted) l
    → All (Settled (released c current) aborted) (others c l)
Settled-end c current aborted [] h = tt
Settled-end c current aborted (f ∷ l) h = ground (arith, Settled-end c current aborted l h.1)

find-others :
    (c d : ℕ) (l : List Fetch)
    → c ≢ d
    → is_some (find (λ (f : Fetch). eqb f.controller d) l) ≡ true
    → is_some (find (λ (f : Fetch). eqb f.controller d) (others c l)) ≡ true
find-others c d [] ne h = h
find-others c d (f ∷ l) ne h = ground (arith, find-others c d l ne)

IsLive-end :
    (c : ℕ) (current : Option ℕ) (aborted : List ℕ) (n : ℕ) (l : List Fetch)
    → IsLive current aborted n l
    → IsLive (released c current) aborted n (others c l)
IsLive-end c none aborted n l h = tt
IsLive-end c (some d) aborted n l h = ground (arith, find-others c d l)

waiting_below-end :
    (c n : ℕ) (l : List Fetch)
    → All (λ (f : Fetch). f.controller < n) l
    → All (λ (f : Fetch). f.controller < n) (others c l)
waiting_below-end c n [] h = tt
waiting_below-end c n (f ∷ l) h = ground (arith, waiting_below-end c n l h.1)

HasDistinctControllers-end :
    (c : ℕ) (l : List Fetch) → HasDistinctControllers l → HasDistinctControllers (others c l)
HasDistinctControllers-end c [] h = tt
HasDistinctControllers-end c (f ∷ l) h = ground (
  arith,
  All-select (λ (g : Fetch). g.controller ≢ f.controller) (λ (g : Fetch). not (eqb g.controller c))
      l h.0,
  HasDistinctControllers-end c l h.1,
)

-- The bookkeeping fields after a reply are the same whatever the reply.
pub record SameRequests (s t : LocalState) : Type 0 where
  pub current : s.current_request ≡ t.current_request
  pub aborts : s.aborted ≡ t.aborted
  pub next : s.next_controller ≡ t.next_controller
  pub waits : s.waiting ≡ t.waiting

SameRequests-IsCoherent : (s t : LocalState) → SameRequests s t → IsCoherent t → IsCoherent s
SameRequests-IsCoherent s t e h = record {
  live = rw (e.current, e.aborts, e.next, e.waits) h.live;
  settled = rw (e.current, e.aborts, e.waits) h.settled;
  aborted_below = rw (e.aborts, e.next) h.aborted_below;
  waiting_below = rw (e.next, e.waits) h.waiting_below;
  distinct = rw (e.waits) h.distinct;
}

abbrev pub closed : ℕ → LocalState → LocalState
closed c s = record s {
  current_request = released c s.current_request;
  waiting = others c s.waiting;
}

pub end_fetch-SameRequests :
    (id : Text) (f : Fetch) (reply : ListReply) (s : LocalState)
    → SameRequests (end_fetch id f reply s).0 (closed f.controller s)
unfolding end_fetch
end_fetch-SameRequests id f (listed memos next) s = ground arith
end_fetch-SameRequests id f abort_error s = ground arith
end_fetch-SameRequests id f (failed e) s = ground arith

pub end_fetch-IsCoherent :
    (id : Text) (f : Fetch) (reply : ListReply) (s : LocalState)
    → IsCoherent s
    → IsCoherent (end_fetch id f reply s).0
end_fetch-IsCoherent id f reply s h =
    let c = f.controller in
    SameRequests-IsCoherent _ (closed c s) (end_fetch-SameRequests id f reply s) (record {
      live = IsLive-end c s.current_request s.aborted s.next_controller s.waiting h.live;
      settled = Settled-end c s.current_request s.aborted s.waiting h.settled;
      aborted_below = h.aborted_below;
      waiting_below = waiting_below-end c s.next_controller s.waiting h.waiting_below;
      distinct = HasDistinctControllers-end c s.waiting h.distinct;
    })

pub step-IsCoherent : (e : Event) (s : LocalState) → IsCoherent s → IsCoherent (step e s)
unfolding step
step-IsCoherent (fetch token) s h = begin_fetch-IsCoherent token s h
step-IsCoherent (fetch_reply c id reply) s h = elim (Option-cases (waiting_for c s)) [
  | inl missing ↦ rw missing h
  | inr (f, found) ↦ rw found (end_fetch-IsCoherent id f reply s h)
]
step-IsCoherent (get_reply id name skip memo) s h =
    SameRequests-IsCoherent _ s (unfold end_get in ground arith) h
step-IsCoherent (create_reply id memo) s h =
    unfold end_create in
    SameRequests-IsCoherent _ s
      (record { current = refl; aborts = refl; next = refl; waits = refl }) h
step-IsCoherent (update_reply id memo) s h =
    unfold end_update in
    SameRequests-IsCoherent _ s
      (record { current = refl; aborts = refl; next = refl; waits = refl }) h
step-IsCoherent (delete_reply id name) s h =
    unfold end_delete in
    SameRequests-IsCoherent _ s
      (record { current = refl; aborts = refl; next = refl; waits = refl }) h
step-IsCoherent (refresh id) s h =
    unfold update_state_id in
    SameRequests-IsCoherent _ s
      (record { current = refl; aborts = refl; next = refl; waits = refl }) h

-- Any events keep a coherent state coherent: the current request, if there is one, waits and is not
-- aborted, every other waiting call of `fetchMemos` has been aborted, no two waiting calls have the same
-- controller, and the number of the next controller is above those of all that wait or are aborted.
pub run-IsCoherent : (es : List Event) (s : LocalState) → IsCoherent s → IsCoherent (run es s)
unfolding run
run-IsCoherent [] s h = h
run-IsCoherent (e ∷ es) s h = run-IsCoherent es (step e s) (step-IsCoherent e s h)

pub initial-IsCoherent : (id : Text) → IsCoherent (initial id)
initial-IsCoherent id = record {
  live = tt;
  settled = tt;
  aborted_below = tt;
  waiting_below = tt;
  distinct = tt;
}
