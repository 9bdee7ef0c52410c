-- ===== src/Masonry/Layout/Result.antt =====
-- The theorems about distributeMemosToColumns.
use collab_notes_ecs.Base.{
  ℕ, zero, suc, ◌+◌, ◌<◌, ◌≤◌, some, List, [], ◌∷◌, ◌≡◌, refl, arith, length, get_elem?, eqb,
  eqb_iff, some_inj, Bool-cases, inl, inr, ◌∙◌, sym, ap,
}
use collab_notes_ecs.Base.Dict.{Dict}
use collab_notes_ecs.Api.{Memo}
use collab_notes_ecs.Masonry.{
  Columns, place_all, height_of, empty_columns, distribute_memos_to_columns, sum_heights,
  indices_from,
}
use collab_notes_ecs.Masonry.Minimum.{minimum_total}
use collab_notes_ecs.Masonry.Loop.{IsShaped, Placed, place_all_inv}
use collab_notes_ecs.Masonry.Layout.{nth_height, AddsUp, bases, IsLayout}
use collab_notes_ecs.Masonry.Layout.Keep.{
  IsCounted, IsCounted-keep, IsOrderedAll, IsOrderedAll-keep, IsIncreasing-of_ordered, AddsUp-keep,
}
use collab_notes_ecs.Masonry.Layout.Single.{single-IsLayout}
use collab_notes_ecs.Masonry.Layout.Even.{IsEven, IsEven-keep, IsEven-get_elem?}
use collab_notes_ecs.Masonry.Layout.Start.{
  length-distribution, length-bases, column_heights-empty_columns, AddsUp-bases,
  count_all-replicate, ordered-replicate, most-bases,
}

-- No memo is taller than that.
abbrev pub Tallest : Dict ℕ → ℕ → List Memo → Type 0
Tallest heights tallest memos = (i : ℕ) → nth_height heights memos i ≤ tallest

only_height : (x i a : ℕ) → get_elem? (x ∷ []) i ≡ some a → a ≡ x
only_height x zero a h = ground arith
only_height x (suc i) a h = cc

module _ (memos : List Memo) (columns : ℕ) (heights : Dict ℕ) (prefix : ℕ) where
  abbrev Invariant : ℕ → Columns → Type 0
  Invariant index c =
      IsCounted index c
      × IsOrderedAll index c
      × AddsUp (nth_height heights memos) (bases columns prefix) c.distribution c.column_heights
      × ((tallest : ℕ)
          → prefix ≤ tallest
          → Tallest heights tallest memos
          → IsEven tallest c.column_heights)

  Invariant-keep :
      (index : ℕ) (memo : Memo) (c c' : Columns)
      → get_elem? memos index ≡ some memo
      → Placed index (height_of heights memo) c c'
      → Invariant index c
      → Invariant (suc index) c'
  Invariant-keep index memo c c' now how p =
      let same : nth_height heights memos index ≡ height_of heights memo = rw now in
      let how' : Placed index (nth_height heights memos index) c c' = rw same how in
      (
        IsCounted-keep index _ c c' how p.0,
        IsOrderedAll-keep index _ c c' how p.1,
        AddsUp-keep (nth_height heights memos) (bases columns prefix) index c c' how' p.2,
        λ tallest first tall.
            IsEven-keep tallest index _ c c' (tall index) how' (p.3 tallest first tall),
      )

  Invariant-empty : 0 < columns → Invariant 0 (empty_columns columns prefix)
  unfolding empty_columns
  Invariant-empty some_column =
      let heights_are = column_heights-empty_columns columns prefix some_column in
      (
        λ a. ground (arith, count_all-replicate a columns),
        ordered-replicate columns,
        rw heights_are (AddsUp-bases (nth_height heights memos) columns prefix),
        λ tallest first tall m least.
            rw heights_are (most-bases columns prefix (m + tallest) (omega arith)),
      )

  IsShaped-empty : 0 < columns → IsShaped (empty_columns columns prefix)
  IsShaped-empty some_column =
      let p = length-distribution _ _ _ _ (Invariant-empty some_column).2 in
      record {
        same = p.0 ∙ sym p.1;
        some_column = rw (p.1, length-bases columns prefix) some_column;
      }

  IsLayout-Invariant :
      (c : Columns) → Invariant (length memos) c → IsLayout memos columns heights prefix c
  IsLayout-Invariant c p =
      let lengths = length-distribution _ _ _ _ p.2 in
      record {
        width = lengths.0 ∙ length-bases columns prefix;
        once = p.0;
        ordered = IsIncreasing-of_ordered (length memos) c.distribution p.1;
        adds_up = p.2;
      }

  greedy_result :
      0 < columns
      → (c : Columns) × (place_all heights 0 memos (empty_columns columns prefix) ≡ some c)
        × IsShaped c
        × Invariant (length memos) c
  greedy_result some_column =
      let (c, done, shaped, p) =
        place_all_inv heights memos Invariant Invariant-keep 0 memos (empty_columns columns prefix)
          (λ j. let e : 0 + j ≡ j = omega arith in rw e) (IsShaped-empty some_column)
          (Invariant-empty some_column) in
      let e : 0 + length memos ≡ length memos = omega arith in (c, done, shaped, rw e at p)

  -- With at least one column the distribution does not fail: it has that many columns, every memo
  -- of the list stands in them exactly once, each column keeps the order of the list, and each height
  -- is the sum of the heights of the column's memos, and of the prefix element in the first one.
  pub distribute-IsLayout :
      0 < columns
      → (c : Columns) × (distribute_memos_to_columns memos columns heights prefix ≡ some c)
        × IsLayout memos columns heights prefix c
  unfolding distribute_memos_to_columns
  distribute-IsLayout some_column = elim (Bool-cases (eqb columns 1)) [
    | inl one ↦
        let same : columns ≡ 1 = (eqb_iff columns 1).0 one in
        (
          record {
            distribution = indices_from 0 memos ∷ [];
            column_heights = sum_heights heights prefix memos ∷ [];
          },
          rw one refl,
          rw same (single-IsLayout memos heights prefix),
        )
    | inr many ↦
        let (c, done, shaped, p) = greedy_result some_column in
        (c, rw many done, IsLayout-Invariant c p)
  ]

  -- The heights of two columns differ by no more than `tallest`, where neither the prefix element nor
  -- any memo is taller than that.
  pub distribute_even :
      (tallest i j a b : ℕ) (c : Columns)
      → 0 < columns
      → prefix ≤ tallest
      → Tallest heights tallest memos
      → distribute_memos_to_columns memos columns heights prefix ≡ some c
      → get_elem? c.column_heights i ≡ some a
      → get_elem? c.column_heights j ≡ some b
      → a ≤ b + tallest
  unfolding distribute_memos_to_columns
  distribute_even tallest i j a b c some_column first tall e p q =
      elim (Bool-cases (eqb columns 1)) [
        | inl one ↦
            let total = sum_heights heights prefix memos in
            let is : c.column_heights ≡ total ∷ [] =
              ap (λ (d : Columns). d.column_heights) (sym (some_inj (rw one at e))) in
            omega (arith, only_height total i a (rw is at p), only_height total j b (rw is at q))
        | inr many ↦
            let (c', done, shaped, inv) = greedy_result some_column in
            let same : c' ≡ c = some_inj (sym done ∙ (rw many at e)) in
            let (m, least) = minimum_total c'.column_heights shaped.some_column in
            IsEven-get_elem? tallest i j a b m c'.column_heights (inv.3 tallest first tall) least
              (rw same p) (rw same q)
      ]
