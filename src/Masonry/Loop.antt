-- ===== src/Masonry/Loop.antt =====
-- One round of the greedy distribution, and the loop: it never throws when there is a column.
use collab_notes_ecs.Base.{
  ℕ, zero, suc, ◌+◌, ◌<◌, some, List, [], ◌∷◌, ◌++◌, ◌≡◌, refl, arith, length, get_elem?, set,
  length-set, ◌∙◌, sym,
}
use collab_notes_ecs.Base.Dict.{Dict}
use collab_notes_ecs.Api.{Memo}
use collab_notes_ecs.Masonry.{Columns, minimum, place, place_all, height_of}
use collab_notes_ecs.Masonry.Minimum.{minimum_total, index_of-minimum}

-- As many columns as heights, and at least one.
pub record IsShaped (c : Columns) : Type 0 where
  pub same : length c.distribution ≡ length c.column_heights
  pub some_column : 0 < length c.column_heights

pub get_elem?_total {ℓ} :
    {A : Type ℓ} (xs : List A) (i : ℕ) → i < length xs → (a : A) × (get_elem? xs i ≡ some a)
get_elem?_total [] i h = elim h [ ]
get_elem?_total (x ∷ xs) zero h = (x, refl)
get_elem?_total (x ∷ xs) (suc i) h = get_elem?_total xs i (omega arith)

-- What one round did: column `i`, the shortest, had height `m`, and took the memo.
pub record Placed (index height : ℕ) (c c' : Columns) : Type 0 where
  pub i : ℕ
  pub m : ℕ
  pub column : List ℕ
  pub shortest : minimum c.column_heights ≡ some m
  pub was : get_elem? c.column_heights i ≡ some m
  pub held : get_elem? c.distribution i ≡ some column
  pub lists : c'.distribution ≡ set c.distribution i (column ++ index ∷ [])
  pub totals : c'.column_heights ≡ set c.column_heights i (m + height)

pub place_total :
    (index height : ℕ) (c : Columns)
    → IsShaped c
    → (c' : Columns) × (place index height c ≡ some c') × Placed index height c c' × IsShaped c'
unfolding place
place_total index height c h =
    let (m, least) = minimum_total c.column_heights h.some_column in
    let (i, found, within, was) = index_of-minimum c.column_heights m least in
    let (column, held) = get_elem?_total c.distribution i (omega (arith, h.same)) in
    (
      record {
        distribution = set c.distribution i (column ++ index ∷ []);
        column_heights = set c.column_heights i (m + height);
      },
      rw (least, found, held, was) refl,
      record {
        i = i;
        m = m;
        column = column;
        shortest = least;
        was = was;
        held = held;
        lists = refl;
        totals = refl;
      },
      record {
        same = length-set c.distribution i _ ∙ h.same ∙ sym (length-set c.column_heights i _);
        some_column = rw (length-set c.column_heights i (m + height)) h.some_column;
      },
    )

-- A loop invariant `P`, indexed by the number of the next memo, over the whole list `all`.
module _ {κ} (heights : Dict ℕ) (all : List Memo) (P : ℕ → Columns → Type κ) where
  pub place_all_inv :
      ((index : ℕ) (memo : Memo) (c c' : Columns)
        → get_elem? all index ≡ some memo
        → Placed index (height_of heights memo) c c'
        → P index c
        → P (suc index) c')
      → (index : ℕ) (memos : List Memo) (c : Columns)
      → ((j : ℕ) → get_elem? memos j ≡ get_elem? all (index + j))
      → IsShaped c
      → P index c
      → (c' : Columns) × (place_all heights index memos c ≡ some c')
        × IsShaped c'
        × P (index + length memos) c'
  unfolding place_all
  place_all_inv keep index [] c tail h p =
      let e : index + 0 ≡ index = omega arith in (c, refl, h, rw e p)
  place_all_inv keep index (memo ∷ memos) c tail h p =
      let (c', placed, how, shaped) = place_total index (height_of heights memo) c h in
      let now : get_elem? all index ≡ some memo =
        let e : index + 0 ≡ index = omega arith in rw e at (sym (tail 0)) in
      let later : (j : ℕ) → get_elem? memos j ≡ get_elem? all (suc index + j) =
        λ j. let e : suc index + j ≡ index + suc j = omega arith in rw e (tail (suc j)) in
      let (c'', done, shaped', p') =
        place_all_inv keep (suc index) memos c' later shaped (keep index memo c c' now how p) in
      let e : index + suc (length memos) ≡ suc index + length memos = omega arith in
      (c'', rw placed done, shaped', rw e p')
