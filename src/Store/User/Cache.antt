-- ===== src/Store/User/Cache.antt =====
-- Where no two calls overlap, the user map behaves as an abstract cache.
use collab_notes_ecs.Base.{
  ℕ, ◌<◌, zero, suc, Text, ◌==◌, ==_iff, Option, none, some, List, [], ◌∷◌, ◌++◌, ◌≡◌, refl, arith,
  if◌then◌else◌, get_or, or_else, Option-cases, inl, inr, length, length-append, length-set,
  get_elem?, ◌∙◌, set,
}
use collab_notes_ecs.Base.Dict.{
  Dict, get, put, remove, put_all, get-put, get-remove, find_last, get-put_all,
}
use collab_notes_ecs.Store.User.{
  User, LocalState, object_at, user_map, replace_user_map, mutate_user_map, get_user_by_name,
  end_get_user, get_or_fetch_user_by_name, end_fetch_users, end_update_user, end_delete_user,
}

-- The state refers to an object of the heap.
abbrev pub IsValid : LocalState → Type 0
IsValid s = s.user_map_by_name < length s.objects

get_elem?-concat {ℓ} :
    {A : Type ℓ} (xs : List A) (a : A) → get_elem? (xs ++ a ∷ []) (length xs) ≡ some a
get_elem?-concat [] a = refl
get_elem?-concat (x ∷ xs) a = get_elem?-concat xs a

get_elem?-set {ℓ} :
    {A : Type ℓ} (xs : List A) (i : ℕ) (a : A) → i < length xs → get_elem? (set xs i a) i ≡ some a
get_elem?-set [] i a h = ground arith
get_elem?-set (x ∷ xs) zero a h = refl
get_elem?-set (x ∷ xs) (suc i) a h = get_elem?-set xs i a (omega arith)

pub user_map-replace_user_map :
    (m : Dict User) (s : LocalState) → user_map (replace_user_map m s) ≡ m
unfolding user_map object_at replace_user_map
user_map-replace_user_map m s = rw (get_elem?-concat s.objects m)

user_map-mutate_user_map :
    (m : Dict User) (s : LocalState) → IsValid s → user_map (mutate_user_map m s) ≡ m
unfolding user_map object_at mutate_user_map
user_map-mutate_user_map m s h = rw (get_elem?-set s.objects s.user_map_by_name m h)

replace_user_map-IsValid : (m : Dict User) (s : LocalState) → IsValid (replace_user_map m s)
unfolding replace_user_map
replace_user_map-IsValid m s = omega (arith, length-append s.objects (m ∷ []))

mutate_user_map-IsValid :
    (m : Dict User) (s : LocalState) → IsValid s → IsValid (mutate_user_map m s)
unfolding mutate_user_map
mutate_user_map-IsValid m s h = omega (arith, length-set s.objects s.user_map_by_name m)

-- A call with the answer of the service, nothing else happening until it is there.
pub data Call : Type 0 where
  get_user : Text → User → Call
  fetch_users : List User → Call
  update_user : User → Call
  delete_user : Text → Call

unfoldable pub step : Call → LocalState → LocalState
step (get_user name answer) s = (get_or_fetch_user_by_name name answer s).0
step (fetch_users users) s = end_fetch_users users s
step (update_user user) s = end_update_user user s
step (delete_user name) s = end_delete_user name s

unfoldable pub run : List Call → LocalState → LocalState
run [] s = s
run (c ∷ calls) s = run calls (step c s)

abbrev pub Cache : Type 0
Cache = Text → Option User

-- What a call means: a user that is known is not asked for again, the users of a list replace those of
-- their names, and updating and deleting change one name.
abbrev pub cache_step : Call → Cache → Cache
cache_step (get_user name answer) c k = if name == k then some (get_or (c k) answer) else c k
cache_step (fetch_users users) c k = or_else (find_last (λ (u : User). u.name) k users) (c k)
cache_step (update_user user) c k = if user.name == k then some user else c k
cache_step (delete_user name) c k = if name == k then none else c k

abbrev pub cache_run : List Call → Cache → Cache
cache_run [] c = c
cache_run (call ∷ calls) c = cache_run calls (cache_step call c)

get_or_fetch_found :
    (name : Text) (answer user : User) (s : LocalState)
    → get_user_by_name name s ≡ some user
    → get_or_fetch_user_by_name name answer s ≡ (s, user)
unfolding get_or_fetch_user_by_name
get_or_fetch_found name answer user s h = rw (h, get_or_fetch_user_by_name)

get_or_fetch_missing :
    (name : Text) (answer : User) (s : LocalState)
    → get_user_by_name name s ≡ none
    → get_or_fetch_user_by_name name answer s
      ≡ (replace_user_map (put (user_map s) name answer) s, answer)
unfolding get_or_fetch_user_by_name end_get_user user_map
get_or_fetch_missing name answer s h = rw (h, get_or_fetch_user_by_name)

step-IsValid : (c : Call) (s : LocalState) → IsValid s → IsValid (step c s)
unfolding step end_fetch_users end_update_user end_delete_user
step-IsValid (get_user name answer) s h = elim (Option-cases (get_user_by_name name s)) [
  | inl missing ↦
      rw (get_or_fetch_missing name answer s missing, step) (replace_user_map-IsValid _ s)
  | inr (user, found) ↦ rw (get_or_fetch_found name answer user s found, step) h
]
step-IsValid (fetch_users users) s h = mutate_user_map-IsValid _ s h
step-IsValid (update_user user) s h = replace_user_map-IsValid _ s
step-IsValid (delete_user name) s h = mutate_user_map-IsValid _ s h

get_user_by_name-replace_user_map :
    (m : Dict User) (s : LocalState) (k : Text)
    → get_user_by_name k (replace_user_map m s) ≡ get m k
unfolding get_user_by_name
get_user_by_name-replace_user_map m s k = rw (user_map-replace_user_map m s)

step-Refines :
    (c : Call) (s : LocalState)
    → IsValid s
    → (k : Text) → get_user_by_name k (step c s) ≡ cache_step c (λ j. get_user_by_name j s) k
unfolding step end_fetch_users end_update_user end_delete_user get_user_by_name
step-Refines (get_user name answer) s h k = elim (Option-cases (get_user_by_name name s)) [
  | inl missing ↦
      rw (get_or_fetch_missing name answer s missing, step)
        (get_user_by_name-replace_user_map (put (user_map s) name answer) s k
          ∙ get-put (user_map s) name k answer
          ∙ ground (arith, ==_iff name k, missing))
  | inr (user, found) ↦
      rw (get_or_fetch_found name answer user s found, step) (ground (arith, ==_iff name k, found))
]
step-Refines (fetch_users users) s h k =
    rw (user_map-mutate_user_map (put_all (λ (u : User). u.name) (user_map s) users) s h)
      (get-put_all _ (user_map s) users k)
step-Refines (update_user user) s h k =
    rw (user_map-replace_user_map (put (user_map s) user.name user) s)
      (get-put (user_map s) user.name k user)
step-Refines (delete_user name) s h k =
    rw (user_map-mutate_user_map (remove (user_map s) name) s h) (get-remove (user_map s) name k)

cache_step-ext :
    (call : Call) (c d : Cache)
    → ((k : Text) → c k ≡ d k)
    → (k : Text) → cache_step call c k ≡ cache_step call d k
cache_step-ext (get_user name answer) c d h k = rw (h k)
cache_step-ext (fetch_users users) c d h k = rw (h k)
cache_step-ext (update_user user) c d h k = rw (h k)
cache_step-ext (delete_user name) c d h k = rw (h k)

cache_run-ext :
    (calls : List Call) (c d : Cache)
    → ((k : Text) → c k ≡ d k)
    → (k : Text) → cache_run calls c k ≡ cache_run calls d k
cache_run-ext [] c d h k = h k
cache_run-ext (call ∷ calls) c d h k =
    cache_run-ext calls (cache_step call c) (cache_step call d) (cache_step-ext call c d h) k

-- From a state that refers to a map of the heap, and where every call ends before the next one begins,
-- the store finds under each name what the abstract
-- cache has there: a user that is known is not replaced by being asked for, the users of a list are
-- stored under their names, and an update or a deletion changes one name.
pub run-Refines_cache :
    (calls : List Call) (s : LocalState)
    → IsValid s
    → (k : Text) → get_user_by_name k (run calls s) ≡ cache_run calls (λ j. get_user_by_name j s) k
unfolding run
run-Refines_cache [] s h k = refl
run-Refines_cache (c ∷ calls) s h k =
    run-Refines_cache calls (step c s) (step-IsValid c s h) k
    ∙ cache_run-ext calls _ _ (step-Refines c s h) k
