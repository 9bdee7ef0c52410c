-- ===== src/Masonry/Layout.antt =====
-- What a distribution of memos to columns is: every memo in one column and once, each column in the
-- order of the list, and heights that add up.
pub mod Keep
pub mod Single
pub mod Even
pub mod Start
pub mod Result
use collab_notes_ecs.Base.{
  ℕ, zero, suc, ◌+◌, ◌<◌, ◌≤◌, Option, none, some, List, [], ◌∷◌, ◌≡◌, All, if◌then◌else◌, eqb, ltb,
  length, get_elem?,
}
use collab_notes_ecs.Base.Dict.{Dict}
use collab_notes_ecs.Api.{Memo}
use collab_notes_ecs.Masonry.{Columns, height_of}

-- How often a memo's number stands in a column, and in all columns.
abbrev pub count : ℕ → List ℕ → ℕ
count a [] = 0
count a (x ∷ xs) = (if eqb x a then 1 else 0) + count a xs

abbrev pub count_all : ℕ → List (List ℕ) → ℕ
count_all a [] = 0
count_all a (xs ∷ xss) = count a xs + count_all a xss

-- Strictly increasing numbers, the first at least `from`.
abbrev pub IsIncreasing : ℕ → List ℕ → Type 0
IsIncreasing from [] = Unit
IsIncreasing from (x ∷ xs) = (from ≤ x) × IsIncreasing (suc x) xs

abbrev height_or : Dict ℕ → Option Memo → ℕ
height_or heights none = 0
height_or heights (some memo) = height_of heights memo

-- The height of the memo with that number.
abbrev pub nth_height : Dict ℕ → List Memo → ℕ → ℕ
nth_height heights memos i = height_or heights (get_elem? memos i)

-- The height of a column of memos.
abbrev pub stack_height : (ℕ → ℕ) → List ℕ → ℕ
stack_height height [] = 0
stack_height height (x ∷ xs) = height x + stack_height height xs

-- Each total is the base of its column and the heights of the column's memos.
abbrev pub AddsUp : (ℕ → ℕ) → List ℕ → List (List ℕ) → List ℕ → Type 0
AddsUp height [] [] [] = Unit
AddsUp height (b ∷ bs) (xs ∷ xss) (t ∷ ts) =
    (t ≡ b + stack_height height xs) × AddsUp height bs xss ts
AddsUp height _ _ _ = ⊥

abbrev pub zeros : ℕ → List ℕ
zeros zero = []
zeros (suc n) = 0 ∷ zeros n

-- The prefix element stands in the first column.
abbrev pub bases : ℕ → ℕ → List ℕ
bases zero prefix = []
bases (suc columns) prefix = prefix ∷ zeros columns

pub record IsLayout (memos : List Memo) (columns : ℕ) (heights : Dict ℕ) (prefix : ℕ) (c : Columns)
    : Type 0 where
  pub width : length c.distribution ≡ columns
  pub once : (a : ℕ) → count_all a c.distribution ≡ (if ltb a (length memos) then 1 else 0)
  pub ordered : All (IsIncreasing 0) c.distribution
  pub adds_up :
      AddsUp (nth_height heights memos) (bases columns prefix) c.distribution c.column_heights
