-- ===== src/Store/Memo/Keyed.antt =====
-- The memo map of app/web/src/store/memo.ts holds every memo under its own name.
use collab_notes_ecs.Base.{
  Text, truthy, true, false, some, List, [], ◌∷◌, ◌≡◌, refl, inl, inr, arith, if◌then◌else◌,
  Option-cases, All,
}
use collab_notes_ecs.Base.Dict.{Dict, put_all, Each, Each-put, Each-remove, Each-put_all, Each-get}
use collab_notes_ecs.Api.{Memo}
use collab_notes_ecs.Store.Memo.{
  Fetch, LocalState, initial, ListReply, listed, abort_error, failed, begin_fetch, end_fetch,
  end_get, end_create, end_update, end_delete, update_state_id, Event, fetch, fetch_reply,
  get_reply, create_reply, update_reply, delete_reply, refresh, waiting_for, step, run,
  get_memo_by_name,
}

-- getMemo answers with the memo of the name that was asked for.
abbrev pub IsHonest : Event → Type 0
IsHonest (get_reply id name skip memo) = memo.name ≡ name
IsHonest _ = Unit

abbrev Named : Text → Memo → Type 0
Named k m = m.name ≡ k

abbrev pub IsKeyed : LocalState → Type 0
IsKeyed s = Each Named s.memo_map_by_name

page-IsKeyed :
    (token : Text) (memos : List Memo) (m : Dict Memo)
    → Each Named m
    → Each Named (put_all (λ (x : Memo). x.name) (if truthy token then m else []) memos)
page-IsKeyed [] memos m h = Each-put_all Named _ [] memos (λ x. refl) tt
page-IsKeyed (c ∷ token) memos m h = Each-put_all Named _ m memos (λ x. refl) h

end_fetch-IsKeyed :
    (id : Text) (f : Fetch) (reply : ListReply) (s : LocalState)
    → IsKeyed s
    → IsKeyed (end_fetch id f reply s).0
unfolding end_fetch
end_fetch-IsKeyed id f (listed memos next) s h =
    ground (arith, page-IsKeyed f.page_token memos s.memo_map_by_name h)
end_fetch-IsKeyed id f abort_error s h = ground arith
end_fetch-IsKeyed id f (failed e) s h = ground arith

step-IsKeyed : (e : Event) (s : LocalState) → IsHonest e → IsKeyed s → IsKeyed (step e s)
unfolding step begin_fetch end_get end_create end_update end_delete update_state_id
step-IsKeyed (fetch token) s e h = h
step-IsKeyed (fetch_reply c id reply) s e h = elim (Option-cases (waiting_for c s)) [
  | inl missing ↦ rw missing h
  | inr (f, found) ↦ rw found (end_fetch-IsKeyed id f reply s h)
]
step-IsKeyed (get_reply id name true memo) s e h = h
step-IsKeyed (get_reply id name false memo) s e h = Each-put Named s.memo_map_by_name name memo h e
step-IsKeyed (create_reply id memo) s e h = Each-put Named s.memo_map_by_name memo.name memo h refl
step-IsKeyed (update_reply id memo) s e h = Each-put Named s.memo_map_by_name memo.name memo h refl
step-IsKeyed (delete_reply id name) s e h = Each-remove Named s.memo_map_by_name name h
step-IsKeyed (refresh id) s e h = h

run-IsKeyed : (es : List Event) (s : LocalState) → All IsHonest es → IsKeyed s → IsKeyed (run es s)
unfolding run
run-IsKeyed [] s e h = h
run-IsKeyed (e ∷ es) s (p, ps) h = run-IsKeyed es (step e s) ps (step-IsKeyed e s p h)

-- If getMemo answers with the memo that was asked for, then after any run a memo that the store finds
-- under a name has that name.
name-get_memo_by_name :
    (id : Text) (es : List Event) (name : Text) (m : Memo)
    → All IsHonest es
    → get_memo_by_name name (run es (initial id)) ≡ some m
    → m.name ≡ name
unfolding get_memo_by_name
name-get_memo_by_name id es name m honest found =
    Each-get Named _ name m (run-IsKeyed es (initial id) honest tt) found
