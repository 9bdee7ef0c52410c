-- ===== src/Pages/Order.antt =====
-- `listSort` of the pages under app/web/src/pages: the order of the memos that are shown.
use collab_notes_ecs.Base.{
  ℕ, Bool, true, false, Option, List, [], ◌∷◌, ◌≡◌, ◌↔◌, ◌≤◌, refl, ◌∙◌, arith, eqb, select,
}
use collab_notes_ecs.Api.{Memo, State, normal, archived}
use collab_notes_ecs.Pages.{same_state, in_order, insert, sort, list_sort}

-- The memos of one time.
abbrev pub at_time : {A : Type 0} → (A → ℕ) → ℕ → List A → List A
at_time time t = select (λ x. eqb (time x) t)

-- An earlier time comes first when the order ascends, a later one when it descends.
abbrev pub InOrder : Bool → ℕ → ℕ → Type 0
InOrder true a b = a ≤ b
InOrder false a b = b ≤ a

in_order-InOrder : (asc : Bool) (a b : ℕ) → in_order asc a b ≡ true → InOrder asc a b
in_order-InOrder true a b h = ground arith
in_order-InOrder false a b h = ground arith

not_in_order-InOrder : (asc : Bool) (a b : ℕ) → in_order asc a b ≡ false → InOrder asc b a
not_in_order-InOrder true a b h = ground arith
not_in_order-InOrder false a b h = ground arith

module _ {A : Type 0} (time : A → ℕ) (asc : Bool) where
  -- Each is in order with the next.
  abbrev pub IsOrdered : List A → Type 0
  IsOrdered [] = Unit
  IsOrdered (m ∷ []) = Unit
  IsOrdered (m ∷ n ∷ xs) = InOrder asc (time m) (time n) × IsOrdered (n ∷ xs)

  abbrev pub before : A → A → Bool
  before a b = in_order asc (time a) (time b)

  earlier_first : (m n : A) → before m n ≡ true → InOrder asc (time m) (time n)
  earlier_first m n h = in_order-InOrder asc (time m) (time n) h

  other_way : (m n : A) → before m n ≡ false → InOrder asc (time n) (time m)
  other_way m n h = not_in_order-InOrder asc (time m) (time n) h

  insert-IsOrdered : (m : A) (xs : List A) → IsOrdered xs → IsOrdered (insert before m xs)
  unfolding insert
  insert-IsOrdered m [] h = tt
  insert-IsOrdered m (n ∷ []) h = ground (arith, earlier_first m n, other_way m n)
  insert-IsOrdered m (n ∷ k ∷ xs) h =
      ground (
        arith,
        earlier_first m n,
        earlier_first m k,
        other_way m n,
        insert-IsOrdered m (k ∷ xs) h.1,
      )

  pub sort-IsOrdered : (xs : List A) → IsOrdered (sort before xs)
  unfolding sort
  sort-IsOrdered [] = tt
  sort-IsOrdered (m ∷ xs) = insert-IsOrdered m (sort before xs) (sort-IsOrdered xs)

  at_time-insert :
      (t : ℕ) (m : A) (xs : List A) → at_time time t (insert before m xs) ≡ at_time time t (m ∷ xs)
  unfolding insert
  at_time-insert t m [] = refl
  at_time-insert t m (n ∷ xs) = ground (arith, at_time-insert t m xs)

  pub at_time-sort : (t : ℕ) (xs : List A) → at_time time t (sort before xs) ≡ at_time time t xs
  unfolding sort
  at_time-sort t [] = refl
  at_time-sort t (m ∷ xs) = at_time-insert t m (sort before xs) ∙ ground (arith, at_time-sort t xs)

eq_of_same_state : (a b : State) → same_state a b ≡ true → a ≡ b
eq_of_same_state State.unspecified State.unspecified h = refl
eq_of_same_state State.unspecified normal h = cc
eq_of_same_state State.unspecified archived h = cc
eq_of_same_state State.unspecified State.unrecognized h = cc
eq_of_same_state normal State.unspecified h = cc
eq_of_same_state normal normal h = refl
eq_of_same_state normal archived h = cc
eq_of_same_state normal State.unrecognized h = cc
eq_of_same_state archived State.unspecified h = cc
eq_of_same_state archived normal h = cc
eq_of_same_state archived archived h = refl
eq_of_same_state archived State.unrecognized h = cc
eq_of_same_state State.unrecognized State.unspecified h = cc
eq_of_same_state State.unrecognized normal h = cc
eq_of_same_state State.unrecognized archived h = cc
eq_of_same_state State.unrecognized State.unrecognized h = refl

same_state_refl : (a : State) → same_state a a ≡ true
same_state_refl State.unspecified = refl
same_state_refl normal = refl
same_state_refl archived = refl
same_state_refl State.unrecognized = refl

same_state_iff : (a b : State) → (same_state a b ≡ true) ↔ (a ≡ b)
same_state_iff a b = (eq_of_same_state a b, λ e. rw e (same_state_refl b))

-- A page shows the memos of its state by their display times, each at most as late as the next when the
-- order ascends and at least as late when it descends; for each time, it shows exactly the memos of its
-- state that have it, in the order of the store; two states count as the same only if they are equal.
pub list_sort-IsOrdered :
    (unix : Option ℕ → ℕ) (state : State) (asc : Bool) (memos : List Memo)
    → IsOrdered (λ (m : Memo). unix m.display_time) asc (list_sort unix state asc memos)
      × ((t : ℕ)
          → at_time (λ (m : Memo). unix m.display_time) t (list_sort unix state asc memos)
            ≡ at_time
                (λ (m : Memo). unix m.display_time)
                t
                (select (λ (m : Memo). same_state m.state state) memos))
      × ((m : Memo) → (same_state m.state state ≡ true) ↔ (m.state ≡ state))
unfolding list_sort
list_sort-IsOrdered unix state asc memos =
    (sort-IsOrdered _ asc _, λ t. at_time-sort _ asc t _, λ m. same_state_iff m.state state)
