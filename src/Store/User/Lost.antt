-- ===== src/Store/User/Lost.antt =====
-- What overlapping calls of getOrFetchUserByName lose.
use collab_notes_ecs.Base.{
  ℕ, zero, suc, ◌<◌, ◌≢◌, Text, ◌==◌, ==_refl, ==_of_ne, none, some, List, [], ◌∷◌, ◌++◌, ◌≡◌, refl,
  arith, if◌then◌else◌, get_elem?, length, sym, ◌∙◌,
}
use collab_notes_ecs.Base.Dict.{get, put, get-put}
use collab_notes_ecs.Store.User.{
  User, LocalState, object_at, user_map, replace_user_map, get_user_by_name, begin_get_user,
  end_get_user,
}
use collab_notes_ecs.Store.User.Cache.{IsValid, user_map-replace_user_map}

get_elem?-extend {ℓ} :
    {A : Type ℓ} (xs ys : List A) (i : ℕ) → i < length xs → get_elem? (xs ++ ys) i ≡ get_elem? xs i
get_elem?-extend [] ys i h = ground arith
get_elem?-extend (x ∷ xs) ys zero h = refl
get_elem?-extend (x ∷ xs) ys (suc i) h = get_elem?-extend xs ys i (omega arith)

-- An object stays as it is when a reply makes a new one.
object_at-end_get_user :
    (kept : ℕ) (name : Text) (user : User) (s : LocalState)
    → kept < length s.objects
    → object_at (end_get_user kept name user s) kept ≡ object_at s kept
unfolding object_at end_get_user replace_user_map
object_at-end_get_user kept name user s h = rw (get_elem?-extend s.objects _ kept h)

-- A reply is found under its name, and every other name has what the object had that the call kept.
pub get_user_by_name-end_get_user :
    (kept : ℕ) (name k : Text) (user : User) (s : LocalState)
    → get_user_by_name k (end_get_user kept name user s)
      ≡ (if name == k then some user else get (object_at s kept) k)
unfolding get_user_by_name end_get_user
get_user_by_name-end_get_user kept name k user s =
    rw (user_map-replace_user_map (put (object_at s kept) name user) s)
      (get-put (object_at s kept) name k user)

-- Two calls for different users that both begin, in a state that refers to a map of the heap, before
-- either is answered, and that are answered in this order: after both replies the
-- second user is found, and the first is not, if it was not known before.
pub first_reply_lost :
    (a b : Text) (user_a user_b : User) (s : LocalState)
    → IsValid s
    → a ≢ b
    → get_user_by_name a s ≡ none
    → let after =
        end_get_user (begin_get_user s) b user_b (end_get_user (begin_get_user s) a user_a s) in
      (get_user_by_name b after ≡ some user_b) × (get_user_by_name a after ≡ none)
unfolding get_user_by_name user_map
first_reply_lost a b user_a user_b s valid different unknown =
    let kept = begin_get_user s in
    let between = end_get_user kept a user_a s in
    (
      get_user_by_name-end_get_user kept b b user_b between ∙ rw ==_refl,
      get_user_by_name-end_get_user kept b a user_b between
          ∙ rw (==_of_ne b a (λ e. different (sym e)), object_at-end_get_user kept a user_a s valid)
              unknown,
    )
