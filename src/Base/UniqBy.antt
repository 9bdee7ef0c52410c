-- ===== src/Base/UniqBy.antt =====
-- lodash's `uniqBy(xs, key)`, which is not part of the repository: a parameter with what its
-- documentation says. Of the elements with one key the first is kept, and the order stays.
use mathlib.Core.Path.{◌≡◌, refl}
use mathlib.Core.Bool.{Bool, true, false, not}
use mathlib.Core.List.{List, [], ◌∷◌, ◌++◌}
use mathlib.Core.Option.{Option, none}
use native.Mathlib.Omega.{arith}
use collab_notes_ecs.Base.Tests.{if◌then◌else◌}
use collab_notes_ecs.Base.Lists.{select, find, any, All, All-select}
use collab_notes_ecs.Base.Strings.{Text, ◌==◌, ==_iff, ==_comm}

pub record UniqBy {ℓ} (A : Type ℓ) : Type ℓ where
  pub uniq_by : (A → Text) → List A → List A
  pub uniq_by-nil : (key : A → Text) → uniq_by key [] ≡ []
  pub uniq_by-cons :
      (key : A → Text) (x : A) (xs : List A)
      → uniq_by key (x ∷ xs) ≡ x ∷ select (λ y. not (key y == key x)) (uniq_by key xs)

module _ {ℓ} {A : Type ℓ} (key : A → Text) where
  -- The element of that key, and whether there is one.
  abbrev pub has_key : Text → List A → Bool
  has_key k xs = any (λ x. key x == k) xs

  abbrev pub with_key : Text → List A → Option A
  with_key k xs = find (λ x. key x == k) xs

  abbrev pub drop_key : Text → List A → List A
  drop_key k = select (λ y. not (key y == k))

  -- No two elements have one key.
  abbrev pub IsUnique : List A → Type 0
  IsUnique [] = Unit
  IsUnique (x ∷ xs) = (has_key (key x) xs ≡ false) × IsUnique xs

  has_key-drop_key :
      (j k : Text) (xs : List A) → has_key j xs ≡ false → has_key j (drop_key k xs) ≡ false
  has_key-drop_key j k [] h = refl
  has_key-drop_key j k (x ∷ xs) h = ground (arith, has_key-drop_key j k xs)

  has_key-drop_key_self : (k : Text) (xs : List A) → has_key k (drop_key k xs) ≡ false
  has_key-drop_key_self k [] = refl
  has_key-drop_key_self k (x ∷ xs) = ground (arith, has_key-drop_key_self k xs)

  drop_key-IsUnique : (k : Text) (xs : List A) → IsUnique xs → IsUnique (drop_key k xs)
  drop_key-IsUnique k [] h = tt
  drop_key-IsUnique k (x ∷ xs) h =
      ground (arith, drop_key-IsUnique k xs h.1, has_key-drop_key (key x) k xs h.0)

  pub drop_key_absent : (k : Text) (xs : List A) → has_key k xs ≡ false → drop_key k xs ≡ xs
  drop_key_absent k [] h = refl
  drop_key_absent k (x ∷ xs) h = ground (arith, drop_key_absent k xs)

  pub with_key-drop_key :
      (j k : Text) (xs : List A)
      → with_key j (drop_key k xs) ≡ (if k == j then none else with_key j xs)
  with_key-drop_key j k [] = ground arith
  with_key-drop_key j k (x ∷ xs) =
      ground (arith, with_key-drop_key j k xs, ==_iff k j, ==_iff (key x) k, ==_iff (key x) j)

  has_key-drop_key_if :
      (j k : Text) (xs : List A)
      → has_key j (drop_key k xs) ≡ (if k == j then false else has_key j xs)
  has_key-drop_key_if j k [] = ground arith
  has_key-drop_key_if j k (x ∷ xs) =
      ground (arith, has_key-drop_key_if j k xs, ==_iff k j, ==_iff (key x) k, ==_iff (key x) j)

  pub drop_key-concat :
      (k : Text) (xs : List A) (x : A)
      → drop_key k (xs ++ x ∷ []) ≡ (if key x == k then drop_key k xs else drop_key k xs ++ x ∷ [])
  drop_key-concat k [] x = ground arith
  drop_key-concat k (y ∷ xs) x = ground (arith, drop_key-concat k xs x)

  pub has_key-concat :
      (k : Text) (xs : List A) (x : A)
      → has_key k (xs ++ x ∷ []) ≡ (if key x == k then true else has_key k xs)
  has_key-concat k [] x = ground arith
  has_key-concat k (y ∷ xs) x = ground (arith, has_key-concat k xs x)

  module _ (u : UniqBy A) where
    open u use {uniq_by, uniq_by-nil, uniq_by-cons}

    pub uniq_by-IsUnique : (xs : List A) → IsUnique (uniq_by key xs)
    uniq_by-IsUnique [] = rw uniq_by-nil tt
    uniq_by-IsUnique (x ∷ xs) = rw uniq_by-cons (
      has_key-drop_key_self (key x) (uniq_by key xs),
      drop_key-IsUnique (key x) (uniq_by key xs) (uniq_by-IsUnique xs),
    )

    pub with_key-uniq_by : (k : Text) (xs : List A) → with_key k (uniq_by key xs) ≡ with_key k xs
    with_key-uniq_by k [] = rw uniq_by-nil
    with_key-uniq_by k (x ∷ xs) =
        rw uniq_by-cons
          (ground (arith, with_key-drop_key k (key x) (uniq_by key xs), with_key-uniq_by k xs))

    pub uniq_by_of_IsUnique : (xs : List A) → IsUnique xs → uniq_by key xs ≡ xs
    uniq_by_of_IsUnique [] h = uniq_by-nil key
    uniq_by_of_IsUnique (x ∷ xs) h =
        rw uniq_by-cons (rw (uniq_by_of_IsUnique xs h.1) (rw (drop_key_absent (key x) xs h.0)))

    -- An element that is added at the end stays if its key is new.
    pub uniq_by-concat :
        (xs : List A) (x : A)
        → uniq_by key (xs ++ x ∷ [])
          ≡ (if has_key (key x) xs then uniq_by key xs else uniq_by key xs ++ x ∷ [])
    uniq_by-concat [] x = rw (uniq_by-cons, uniq_by-nil)
    uniq_by-concat (y ∷ xs) x = rw uniq_by-cons (
        rw (uniq_by-concat xs x) (
          rw (uniq_by-cons key y xs)
            (ground (arith, drop_key-concat (key y) (uniq_by key xs) x, ==_comm (key x) (key y)))))

    pub has_key-uniq_by : (k : Text) (xs : List A) → has_key k (uniq_by key xs) ≡ has_key k xs
    has_key-uniq_by k [] = rw uniq_by-nil
    has_key-uniq_by k (x ∷ xs) =
        rw uniq_by-cons
          (ground (arith, has_key-drop_key_if k (key x) (uniq_by key xs), has_key-uniq_by k xs))

    pub All-uniq_by {κ} : (P : A → Type κ) (xs : List A) → All P xs → All P (uniq_by key xs)
    All-uniq_by P [] h = rw uniq_by-nil tt
    All-uniq_by P (x ∷ xs) h =
        rw uniq_by-cons (h.0, All-select P _ (uniq_by key xs) (All-uniq_by P xs h.1))

-- A function that behaves so.
keep_first {ℓ} : {A : Type ℓ} → (A → Text) → List A → List A
keep_first key [] = []
keep_first key (x ∷ xs) = x ∷ select (λ y. not (key y == key x)) (keep_first key xs)

unfoldable pub keeps_first {ℓ} : {A : Type ℓ} → UniqBy A
unfolding keep_first
keeps_first = record {
  uniq_by = keep_first;
  uniq_by-nil = λ key. refl;
  uniq_by-cons = λ key x xs. refl;
}
