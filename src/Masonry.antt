-- ===== src/Masonry.antt =====
-- app/web/src/components/MasonryView/MasonryView.tsx: memos are laid out in columns, each in the column
-- that is shortest so far. Heights are `offsetHeight`s, which are whole numbers. What throws in the
-- source (an index out of range of an array of arrays) is `none`.
pub mod Minimum
pub mod Loop
pub mod Layout
pub mod View
pub mod Tests
use collab_notes_ecs.Base.{
  ℕ, zero, suc, ◌+◌, ◌*◌, ◌/◌, ◌<◌, Text, Bool, true, false, Option, none, some, List, [], ◌∷◌,
  ◌++◌, ◌≡◌, arith, eqb, ltb, leb, length, get_elem?, set, replicate, if◌then◌else◌, get_or, min,
}
use collab_notes_ecs.Base.Dict.{Dict, get, put}
use collab_notes_ecs.Api.{Memo}

-- `itemHeights.get(memo.name) || 0`
abbrev pub height_of : Dict ℕ → Memo → ℕ
height_of heights memo = get_or (get heights memo.name) 0

abbrev pub with_head : ℕ → Option ℕ → ℕ
with_head x none = x
with_head x (some m) = min x m

-- `Math.min(...xs)`; of no numbers it is Infinity
unfoldable pub minimum : List ℕ → Option ℕ
minimum [] = none
minimum (x ∷ xs) = some (with_head x (minimum xs))

abbrev pub after : Option ℕ → Option ℕ
after none = none
after (some i) = some (suc i)

-- `xs.indexOf(v)`, with `none` for -1
unfoldable pub index_of : ℕ → List ℕ → Option ℕ
index_of v [] = none
index_of v (x ∷ xs) = if eqb x v then some 0 else after (index_of v xs)

pub record Columns : Type 0 where
  pub distribution : List (List ℕ)
  pub column_heights : List ℕ

infixl 5 ◌>>=◌
abbrev pub ◌>>=◌ {ℓ κ} : {A : Type ℓ} {B : Type κ} → Option A → (A → Option B) → Option B
none >>= k = none
some a >>= k = k a

-- the body of `memos.forEach`
unfoldable pub place : ℕ → ℕ → Columns → Option Columns
place index height c = do
  shortest ← minimum c.column_heights
  i ← index_of shortest c.column_heights
  column ← get_elem? c.distribution i
  total ← get_elem? c.column_heights i
  some (record {
    distribution = set c.distribution i (column ++ index ∷ []);
    column_heights = set c.column_heights i (total + height);
  })

-- `memos.forEach`, from the memo of that index on
unfoldable pub place_all : Dict ℕ → ℕ → List Memo → Columns → Option Columns
place_all heights index [] c = some c
place_all heights index (memo ∷ memos) c =
    place index (height_of heights memo) c >>= λ c'. place_all heights (suc index) memos c'

-- `columnHeights[0] = h`; on an empty array this adds an element
abbrev pub write_first : List ℕ → ℕ → List ℕ
write_first [] h = h ∷ []
write_first (x ∷ xs) h = h ∷ xs

unfoldable pub empty_columns : ℕ → ℕ → Columns
empty_columns columns prefix =
    let zeros = replicate columns 0 in
    record {
      distribution = replicate columns [];
      column_heights = if ltb 0 prefix then write_first zeros prefix else zeros;
    }

abbrev pub indices_from : ℕ → List Memo → List ℕ
indices_from i [] = []
indices_from i (memo ∷ memos) = i ∷ indices_from (suc i) memos

-- `memos.reduce((sum, memo) => sum + height, sum)`
abbrev pub sum_heights : Dict ℕ → ℕ → List Memo → ℕ
sum_heights heights sum [] = sum
sum_heights heights sum (memo ∷ memos) = sum_heights heights (sum + height_of heights memo) memos

unfoldable pub distribute_memos_to_columns : List Memo → ℕ → Dict ℕ → ℕ → Option Columns
distribute_memos_to_columns memos columns heights prefix =
    if eqb columns 1
    then some (record {
      distribution = indices_from 0 memos ∷ [];
      column_heights = sum_heights heights prefix memos ∷ [];
    })
    else place_all heights 0 memos (empty_columns columns prefix)
