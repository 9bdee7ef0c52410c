-- ===== src/Masonry/Minimum.antt =====
-- The shortest column: `Math.min` and `indexOf` on the column heights.
use collab_notes_ecs.Base.{
  ℕ, suc, ◌<◌, ◌≤◌, none, some, List, [], ◌∷◌, ◌≡◌, refl, arith, eqb, false, length, get_elem?, All,
  Option-cases, inl, inr, Bool-cases,
}
use collab_notes_ecs.Masonry.{minimum, index_of, with_head}

pub minimum_total : (xs : List ℕ) → 0 < length xs → (m : ℕ) × (minimum xs ≡ some m)
unfolding minimum
minimum_total [] h = elim h [ ]
minimum_total (x ∷ xs) h = (with_head x (minimum xs), refl)

least_weaken : (xs : List ℕ) (a b : ℕ) → a ≤ b → All (λ x. b ≤ x) xs → All (λ x. a ≤ x) xs
least_weaken [] a b h k = tt
least_weaken (x ∷ xs) a b h k = (omega arith, least_weaken xs a b h k.1)

least_of_none : (xs : List ℕ) (m : ℕ) → minimum xs ≡ none → All (λ a. m ≤ a) xs
unfolding minimum
least_of_none [] m h = tt
least_of_none (x ∷ xs) m h = cc

pub minimum_least : (xs : List ℕ) (m : ℕ) → minimum xs ≡ some m → All (λ a. m ≤ a) xs
unfolding minimum
minimum_least [] m h = tt
minimum_least (x ∷ xs) m h = elim (Option-cases (minimum xs)) [
  | inl missing ↦ (ground arith, least_of_none xs m missing)
  | inr (k, found) ↦ (ground arith, least_weaken xs m k (ground arith) (minimum_least xs k found))
]

pub minimum_greatest : (xs : List ℕ) (b m : ℕ) → All (λ a. b ≤ a) xs → minimum xs ≡ some m → b ≤ m
unfolding minimum
minimum_greatest [] b m h e = cc
minimum_greatest (x ∷ xs) b m h e = elim (Option-cases (minimum xs)) [
  | inl missing ↦ ground arith
  | inr (k, found) ↦ ground (arith, minimum_greatest xs b k h.1 found)
]

minimum_later :
    (x : ℕ) (xs : List ℕ) (m : ℕ)
    → minimum (x ∷ xs) ≡ some m
    → eqb x m ≡ false
    → minimum xs ≡ some m
unfolding minimum
minimum_later x xs m h ne = elim (Option-cases (minimum xs)) [
  | inl missing ↦ ground arith
  | inr (k, found) ↦ ground arith
]

-- The shortest column is found, and has that height.
pub index_of-minimum :
    (xs : List ℕ) (m : ℕ)
    → minimum xs ≡ some m
    → (i : ℕ) × (index_of m xs ≡ some i) × (i < length xs) × (get_elem? xs i ≡ some m)
unfolding minimum index_of
index_of-minimum [] m h = cc
index_of-minimum (x ∷ xs) m h = elim (Bool-cases (eqb x m)) [
  | inl first ↦ (0, rw first, omega arith, ground arith)
  | inr later ↦
      let (i, found, within, value) = index_of-minimum xs m (minimum_later x xs m h later) in
      (suc i, rw (later, found), omega arith, value)
]
