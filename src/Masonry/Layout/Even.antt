-- ===== src/Masonry/Layout/Even.antt =====
-- The greedy choice keeps the columns even.
use collab_notes_ecs.Base.{
  ℕ, zero, suc, ◌+◌, ◌≤◌, some, List, [], ◌∷◌, ◌≡◌, arith, get_elem?, set, All,
}
use collab_notes_ecs.Masonry.{Columns, minimum}
use collab_notes_ecs.Masonry.Minimum.{minimum_least, minimum_greatest}
use collab_notes_ecs.Masonry.Loop.{Placed}

-- No column is more than `tallest` above the shortest.
abbrev pub IsEven : ℕ → List ℕ → Type 0
IsEven tallest hs = (m : ℕ) → minimum hs ≡ some m → All (λ a. a ≤ m + tallest) hs

least-set : (m v i : ℕ) (hs : List ℕ) → m ≤ v → All (λ a. m ≤ a) hs → All (λ a. m ≤ a) (set hs i v)
least-set m v i [] le h = tt
least-set m v zero (x ∷ hs) le h = (le, h.1)
least-set m v (suc i) (x ∷ hs) le h = (h.0, least-set m v i hs le h.1)

most-set : (b v i : ℕ) (hs : List ℕ) → v ≤ b → All (λ a. a ≤ b) hs → All (λ a. a ≤ b) (set hs i v)
most-set b v i [] le h = tt
most-set b v zero (x ∷ hs) le h = (le, h.1)
most-set b v (suc i) (x ∷ hs) le h = (h.0, most-set b v i hs le h.1)

pub most_weaken : (b b' : ℕ) (hs : List ℕ) → b ≤ b' → All (λ a. a ≤ b) hs → All (λ a. a ≤ b') hs
most_weaken b b' [] le h = tt
most_weaken b b' (x ∷ hs) le h = (omega arith, most_weaken b b' hs le h.1)

pub IsEven-keep :
    (tallest index height : ℕ) (c c' : Columns)
    → height ≤ tallest
    → Placed index height c c'
    → IsEven tallest c.column_heights
    → IsEven tallest c'.column_heights
IsEven-keep tallest index height c c' le how even =
    let hs = c.column_heights in
    let m = how.m in
    let above = least-set m (m + height) how.i hs (omega arith) (minimum_least hs m how.shortest) in
    let below = most-set (m + tallest) (m + height) how.i hs (omega arith) (even m how.shortest) in
    rw how.totals (λ m' least.
      most_weaken (m + tallest) (m' + tallest) (set hs how.i (m + height))
        (omega (arith, minimum_greatest (set hs how.i (m + height)) m m' above least)) below)

All-get_elem? : (b i a : ℕ) (hs : List ℕ) → All (λ x. x ≤ b) hs → get_elem? hs i ≡ some a → a ≤ b
All-get_elem? b i a [] h e = cc
All-get_elem? b zero a (x ∷ hs) h e = ground arith
All-get_elem? b (suc i) a (x ∷ hs) h e = All-get_elem? b i a hs h.1 e

least-get_elem? : (b i a : ℕ) (hs : List ℕ) → All (λ x. b ≤ x) hs → get_elem? hs i ≡ some a → b ≤ a
least-get_elem? b i a [] h e = cc
least-get_elem? b zero a (x ∷ hs) h e = ground arith
least-get_elem? b (suc i) a (x ∷ hs) h e = least-get_elem? b i a hs h.1 e

pub IsEven-get_elem? :
    (tallest i j a b m : ℕ) (hs : List ℕ)
    → IsEven tallest hs
    → minimum hs ≡ some m
    → get_elem? hs i ≡ some a
    → get_elem? hs j ≡ some b
    → a ≤ b + tallest
IsEven-get_elem? tallest i j a b m hs even least p q = omega (
  arith,
  All-get_elem? (m + tallest) i a hs (even m least) p,
  least-get_elem? m j b hs (minimum_least hs m least) q,
)
