-- ===== src/Masonry/Layout/Keep.antt =====
-- One round of the greedy loop keeps each part of the layout.
use collab_notes_ecs.Base.{
  ℕ, zero, suc, ◌+◌, ◌<◌, ◌≤◌, some, List, [], ◌∷◌, ◌++◌, ◌≡◌, arith, get_elem?, set, All,
  if◌then◌else◌, eqb, ltb, ◌∙◌,
}
use collab_notes_ecs.Masonry.{Columns}
use collab_notes_ecs.Masonry.Loop.{Placed}
use collab_notes_ecs.Masonry.Layout.{count, count_all, IsIncreasing, stack_height, AddsUp}

-- A memo that is put at the end of a column
count-push :
    (column : List ℕ) (index a : ℕ)
    → count a (column ++ index ∷ []) ≡ count a column + (if eqb index a then 1 else 0)
count-push [] index a = omega arith
count-push (first ∷ column) index a = omega (arith, count-push column index a)

count_all-set :
    (a index i : ℕ) (xss : List (List ℕ)) (column : List ℕ)
    → get_elem? xss i ≡ some column
    → count_all a (set xss i (column ++ index ∷ []))
      ≡ count_all a xss + (if eqb index a then 1 else 0)
count_all-set a index i [] column h = cc
count_all-set a index zero (xs ∷ xss) column h =
    let same : xs ≡ column = ground arith in rw same (omega (arith, count-push column index a))
count_all-set a index (suc i) (xs ∷ xss) column h =
    omega (arith, count_all-set a index i xss column h)

-- The memos before `index` are placed once, and no other.
abbrev pub IsCounted : ℕ → Columns → Type 0
IsCounted index c = (a : ℕ) → count_all a c.distribution ≡ (if ltb a index then 1 else 0)

pub IsCounted-keep :
    (index height : ℕ) (c c' : Columns)
    → Placed index height c c'
    → IsCounted index c
    → IsCounted (suc index) c'
IsCounted-keep index height c c' how p a =
    rw how.lists
      (count_all-set a index how.i c.distribution how.column how.held ∙ ground (arith, p a))

abbrev IsOrdered : ℕ → List ℕ → Type 0
IsOrdered index xs = IsIncreasing 0 xs × All (λ x. x < index) xs

abbrev pub IsOrderedAll : ℕ → Columns → Type 0
IsOrderedAll index c = All (IsOrdered index) c.distribution

IsIncreasing-concat :
    (from index : ℕ) (xs : List ℕ)
    → from ≤ index
    → IsIncreasing from xs
    → All (λ x. x < index) xs
    → IsIncreasing from (xs ++ index ∷ [])
IsIncreasing-concat from index [] le h b = (le, tt)
IsIncreasing-concat from index (x ∷ xs) le h b =
    (h.0, IsIncreasing-concat (suc x) index xs b.0 h.1 b.1)

below_concat :
    (index : ℕ) (xs : List ℕ)
    → All (λ x. x < index) xs
    → All (λ x. x < suc index) (xs ++ index ∷ [])
below_concat index [] h = (omega arith, tt)
below_concat index (x ∷ xs) h = (omega arith, below_concat index xs h.1)

below_weaken : (index : ℕ) (xs : List ℕ) → All (λ x. x < index) xs → All (λ x. x < suc index) xs
below_weaken index [] h = tt
below_weaken index (x ∷ xs) h = (omega arith, below_weaken index xs h.1)

IsOrdered-weaken :
    (index : ℕ) (xss : List (List ℕ)) → All (IsOrdered index) xss → All (IsOrdered (suc index)) xss
IsOrdered-weaken index [] h = tt
IsOrdered-weaken index (xs ∷ xss) h =
    ((h.0.0, below_weaken index xs h.0.1), IsOrdered-weaken index xss h.1)

IsOrdered-set :
    (index i : ℕ) (xss : List (List ℕ)) (column : List ℕ)
    → get_elem? xss i ≡ some column
    → All (IsOrdered index) xss
    → All (IsOrdered (suc index)) (set xss i (column ++ index ∷ []))
IsOrdered-set index i [] column e h = tt
IsOrdered-set index zero (xs ∷ xss) column e h =
    let same : column ≡ xs = ground arith in
    rw same (
      (IsIncreasing-concat 0 index xs (omega arith) h.0.0 h.0.1, below_concat index xs h.0.1),
      IsOrdered-weaken index xss h.1,
    )
IsOrdered-set index (suc i) (xs ∷ xss) column e h =
    ((h.0.0, below_weaken index xs h.0.1), IsOrdered-set index i xss column e h.1)

pub IsOrderedAll-keep :
    (index height : ℕ) (c c' : Columns)
    → Placed index height c c'
    → IsOrderedAll index c
    → IsOrderedAll (suc index) c'
IsOrderedAll-keep index height c c' how p =
    rw how.lists (IsOrdered-set index how.i c.distribution how.column how.held p)

pub IsIncreasing-of_ordered :
    (index : ℕ) (xss : List (List ℕ)) → All (IsOrdered index) xss → All (IsIncreasing 0) xss
IsIncreasing-of_ordered index [] h = tt
IsIncreasing-of_ordered index (xs ∷ xss) h = (h.0.0, IsIncreasing-of_ordered index xss h.1)

stack_height-append :
    (f : ℕ → ℕ) (xs ys : List ℕ) → stack_height f (xs ++ ys) ≡ stack_height f xs + stack_height f ys
stack_height-append f [] ys = omega arith
stack_height-append f (x ∷ xs) ys = omega (arith, stack_height-append f xs ys)

AddsUp-set :
    (f : ℕ → ℕ) (index i m : ℕ) (bs : List ℕ) (xss : List (List ℕ)) (ts column : List ℕ)
    → get_elem? xss i ≡ some column
    → get_elem? ts i ≡ some m
    → AddsUp f bs xss ts
    → AddsUp f bs (set xss i (column ++ index ∷ [])) (set ts i (m + f index))
AddsUp-set f index i m [] [] [] column e d h = h
AddsUp-set f index zero m (b ∷ bs) (xs ∷ xss) (t ∷ ts) column e d h =
    let same : column ≡ xs = ground arith in
    let was : m ≡ t = ground arith in
    rw (same, was) (omega (arith, stack_height-append f xs (index ∷ []), h.0), h.1)
AddsUp-set f index (suc i) m (b ∷ bs) (xs ∷ xss) (t ∷ ts) column e d h =
    (h.0, AddsUp-set f index i m bs xss ts column e d h.1)
AddsUp-set f index i m _ _ _ column e d h = absurd h

pub AddsUp-keep :
    (f : ℕ → ℕ) (bs : List ℕ) (index : ℕ) (c c' : Columns)
    → Placed index (f index) c c'
    → AddsUp f bs c.distribution c.column_heights
    → AddsUp f bs c'.distribution c'.column_heights
AddsUp-keep f bs index c c' how p =
    rw (how.lists, how.totals)
      (AddsUp-set f index how.i how.m bs c.distribution c.column_heights how.column how.held how.was
        p)
