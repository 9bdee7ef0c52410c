-- ===== src/Masonry/Layout/Start.antt =====
-- The empty columns that the loop of distributeMemosToColumns starts from.
use collab_notes_ecs.Base.{
  ℕ, zero, suc, ◌<◌, ◌≤◌, List, [], ◌∷◌, ◌≡◌, refl, arith, length, All, replicate, ap,
}
use collab_notes_ecs.Masonry.{empty_columns}
use collab_notes_ecs.Masonry.Layout.{count_all, IsIncreasing, AddsUp, zeros, bases}

pub length-distribution :
    (f : ℕ → ℕ) (bs : List ℕ) (xss : List (List ℕ)) (ts : List ℕ)
    → AddsUp f bs xss ts
    → (length xss ≡ length bs) × (length ts ≡ length bs)
length-distribution f [] [] [] h = (refl, refl)
length-distribution f (b ∷ bs) (xs ∷ xss) (t ∷ ts) h =
    let (p, q) = length-distribution f bs xss ts h.1 in (ap suc p, ap suc q)
length-distribution f _ _ _ h = absurd h

pub length-zeros : (n : ℕ) → length (zeros n) ≡ n
length-zeros zero = refl
length-zeros (suc n) = ap suc (length-zeros n)

pub length-bases : (columns prefix : ℕ) → length (bases columns prefix) ≡ columns
length-bases zero prefix = refl
length-bases (suc n) prefix = ap suc (length-zeros n)

pub replicate-zeros : (n : ℕ) → replicate n 0 ≡ zeros n
replicate-zeros zero = refl
replicate-zeros (suc n) = ap (λ (l : List ℕ). 0 ∷ l) (replicate-zeros n)

pub column_heights-empty_columns :
    (columns prefix : ℕ)
    → 0 < columns
    → (empty_columns columns prefix).column_heights ≡ bases columns prefix
unfolding empty_columns
column_heights-empty_columns zero prefix h = elim h [ ]
column_heights-empty_columns (suc n) prefix h = ground (arith, replicate-zeros n)

pub AddsUp-zeros : (f : ℕ → ℕ) (n : ℕ) → AddsUp f (zeros n) (replicate n []) (zeros n)
AddsUp-zeros f zero = tt
AddsUp-zeros f (suc n) = (omega arith, AddsUp-zeros f n)

pub AddsUp-bases :
    (f : ℕ → ℕ) (columns prefix : ℕ)
    → AddsUp f (bases columns prefix) (replicate columns []) (bases columns prefix)
AddsUp-bases f zero prefix = tt
AddsUp-bases f (suc n) prefix = (omega arith, AddsUp-zeros f n)

pub count_all-replicate : (a n : ℕ) → count_all a (replicate n []) ≡ 0
count_all-replicate a zero = refl
count_all-replicate a (suc n) = omega (arith, count_all-replicate a n)

pub ordered-replicate :
    (n : ℕ) → All (λ xs. IsIncreasing 0 xs × All (λ x. x < 0) xs) (replicate n [])
ordered-replicate zero = tt
ordered-replicate (suc n) = ((tt, tt), ordered-replicate n)

pub most-zeros : (b n : ℕ) → All (λ a. a ≤ b) (zeros n)
most-zeros b zero = tt
most-zeros b (suc n) = (omega arith, most-zeros b n)

pub most-bases : (columns prefix b : ℕ) → prefix ≤ b → All (λ a. a ≤ b) (bases columns prefix)
most-bases zero prefix b h = tt
most-bases (suc n) prefix b h = (h, most-zeros b n)
