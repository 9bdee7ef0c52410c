-- ===== src/Masonry/Layout/Single.antt =====
-- The list mode of distributeMemosToColumns: one column.
use collab_notes_ecs.Base.{
  ℕ, suc, ◌+◌, ◌≤◌, List, [], ◌∷◌, ◌≡◌, refl, arith, length, if◌then◌else◌, ltb, leb, ◌&&◌,
}
use collab_notes_ecs.Base.Dict.{Dict}
use collab_notes_ecs.Api.{Memo}
use collab_notes_ecs.Masonry.{height_of, indices_from, sum_heights}
use collab_notes_ecs.Masonry.Layout.{count, IsIncreasing, nth_height, stack_height, IsLayout}

count-indices_from :
    (a i : ℕ) (memos : List Memo)
    → count a (indices_from i memos) ≡ (if leb i a && ltb a (i + length memos) then 1 else 0)
count-indices_from a i [] = ground arith
count-indices_from a i (memo ∷ memos) = ground (arith, count-indices_from a (suc i) memos)

IsIncreasing-indices_from :
    (from i : ℕ) (memos : List Memo) → from ≤ i → IsIncreasing from (indices_from i memos)
IsIncreasing-indices_from from i [] h = tt
IsIncreasing-indices_from from i (memo ∷ memos) h =
    (h, IsIncreasing-indices_from (suc i) (suc i) memos (omega arith))

sum_heights-stack_height :
    (heights : Dict ℕ) (f : ℕ → ℕ) (s i : ℕ) (memos : List Memo)
    → ((j : ℕ) → f (i + j) ≡ nth_height heights memos j)
    → sum_heights heights s memos ≡ s + stack_height f (indices_from i memos)
sum_heights-stack_height heights f s i [] h = omega arith
sum_heights-stack_height heights f s i (memo ∷ memos) h =
    let e : i + 0 ≡ i = omega arith in
    let now : f i ≡ height_of heights memo = rw e at (h 0) in
    let later : (j : ℕ) → f (suc i + j) ≡ nth_height heights memos j =
      λ j. let e : suc i + j ≡ i + suc j = omega arith in rw e (h (suc j)) in
    omega (
      arith,
      now,
      sum_heights-stack_height heights f (s + height_of heights memo) (suc i) memos later,
    )

pub single-IsLayout :
    (memos : List Memo) (heights : Dict ℕ) (prefix : ℕ)
    → IsLayout memos 1 heights prefix (record {
      distribution = indices_from 0 memos ∷ [];
      column_heights = sum_heights heights prefix memos ∷ [];
    })
single-IsLayout memos heights prefix = record {
  width = refl;
  once = λ a. ground (arith, count-indices_from a 0 memos);
  ordered = (IsIncreasing-indices_from 0 0 memos (omega arith), tt);
  adds_up = (
    sum_heights-stack_height heights (nth_height heights memos) prefix 0 memos
        (λ j. let e : 0 + j ≡ j = omega arith in rw e),
    tt,
  );
}
