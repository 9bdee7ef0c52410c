-- ===== src/Masonry/View.antt =====
-- The state of the MasonryView component: its handlers and the effect that runs when the columns,
-- the memo list or the heights have changed. What a ref measures is an argument: `none` for a
-- container that is not mounted.
use collab_notes_ecs.Base.{
  Bool-cases, inl, inr, ℕ, ◌⊎◌, ◌+◌, ◌*◌, ◌/◌, ◌<◌, ◌≤◌, Text, Bool, true, Option, none, some, List,
  [], ◌∷◌, ◌≡◌, refl, arith, length, if◌then◌else◌, eqb, leb, ltb, All,
}
use collab_notes_ecs.Base.Dict.{Dict, put}
use collab_notes_ecs.Api.{Memo}
use collab_notes_ecs.Masonry.{distribute_memos_to_columns, ◌>>=◌}
use collab_notes_ecs.Masonry.Layout.{count_all, IsIncreasing}
use collab_notes_ecs.Masonry.Layout.Result.{distribute-IsLayout}

abbrev pub minimum_memo_viewport_width : ℕ
minimum_memo_viewport_width = 512

-- `Math.round(w / 512)` is the whole part of `w / 512 + 1 / 2`; dividing by 512 is exact.
unfoldable pub calculate_columns : Option ℕ → Bool → ℕ
calculate_columns none list_mode = 1
calculate_columns (some width) list_mode =
    if list_mode
    then 1
    else if leb (2 * minimum_memo_viewport_width) width
    then (width + minimum_memo_viewport_width / 2) / minimum_memo_viewport_width
    else 1

-- In a container of any width there is at least one column; there is only one or each is at least 426
-- wide; and the list mode is on or the columns are fewer than leave room for one more of 512.
calculate_columns_bounds :
    (width : ℕ) (list_mode : Bool)
    → let n = calculate_columns (some width) list_mode in
      (0 < n) × ((n ≡ 1) ⊎ (n * 426 ≤ width)) × ((list_mode ≡ true) ⊎ (width < (n + 1) * 512))
unfolding calculate_columns
calculate_columns_bounds width list_mode = ground arith

pub calculate_columns_pos :
    (container : Option ℕ) (list_mode : Bool) → 0 < calculate_columns container list_mode
unfolding calculate_columns
calculate_columns_pos none list_mode = omega arith
calculate_columns_pos (some width) list_mode = ground arith

pub record Props : Type 0 where
  pub memo_list : List Memo
  pub list_mode : Bool

pub record State : Type 0 where
  pub columns : ℕ
  pub item_heights : Dict ℕ
  pub distribution : List (List ℕ)

abbrev pub initial_state : State
initial_state = record { columns = 1; item_heights = []; distribution = [] ∷ [] }

-- The first argument here and below is the height of the prefix element, 0 if there is none.
unfoldable pub redistribute_memos : ℕ → Props → State → Option State
redistribute_memos prefix props s = do
  c ← distribute_memos_to_columns props.memo_list s.columns s.item_heights prefix
  some (record s { distribution = c.distribution })

unfoldable pub handle_height_change : ℕ → Props → Text → ℕ → State → Option State
handle_height_change prefix props memo_name height s = do
  let new_item_heights = put s.item_heights memo_name height
  c ← distribute_memos_to_columns props.memo_list s.columns new_item_heights prefix
  some (record s { item_heights = new_item_heights; distribution = c.distribution })

unfoldable pub handle_resize : Props → Option ℕ → State → State
handle_resize props none s = s
handle_resize props (some width) s =
    let new_columns = calculate_columns (some width) props.list_mode in
    if eqb new_columns s.columns then s else record s { columns = new_columns }

-- The effect of `redistributeMemos` after a resize: it runs if the columns are others than before.
unfoldable pub redistribute_if_resized : ℕ → Props → ℕ → State → Option State
redistribute_if_resized prefix props columns s =
    if eqb s.columns columns then some s else redistribute_memos prefix props s

-- The component with the props of its last render.
pub record View : Type 0 where
  pub props : Props
  pub state : State

abbrev shown_with : Props → Option State → Option View
shown_with props none = none
shown_with props (some s) = some (record { props = props; state = s })

-- The effects of the first render: both run, and the second once more if the first set the columns.
unfoldable pub mount : ℕ → Option ℕ → Props → Option View
mount prefix container props =
    shown_with props (redistribute_memos prefix props (handle_resize props container initial_state))

-- What happens to the component, with what is measured then.
pub data Event : Type 0 where
  resized : Option ℕ → ℕ → Event
  height_changed : Text → ℕ → ℕ → Event
  new_memo_list : List Memo → ℕ → Event
  new_list_mode : Bool → Option ℕ → ℕ → Event

-- A handler or a new render, and then the effects whose dependencies have changed.
unfoldable pub step : Event → View → Option View
step (resized container prefix) v = shown_with v.props (
    redistribute_if_resized prefix v.props v.state.columns
      (handle_resize v.props container v.state))
step (height_changed name height prefix) v =
    shown_with v.props (
      handle_height_change prefix v.props name height v.state >>= redistribute_memos prefix v.props)
step (new_memo_list memos prefix) v =
    let props = record (v.props) { memo_list = memos } in
    shown_with props (redistribute_memos prefix props v.state)
step (new_list_mode list_mode container prefix) v =
    let props = record (v.props) { list_mode = list_mode } in
    shown_with props
      (redistribute_if_resized prefix props v.state.columns (handle_resize props container v.state))

unfoldable pub run : List Event → View → Option View
run [] v = some v
run (e ∷ es) v = step e v >>= run es

-- Every memo of the list is in one column and once, and each column is in the order of the list.
pub record IsShown (memos : List Memo) (s : State) : Type 0 where
  pub some_column : 0 < s.columns
  pub width : length s.distribution ≡ s.columns
  pub once : (a : ℕ) → count_all a s.distribution ≡ (if ltb a (length memos) then 1 else 0)
  pub ordered : All (IsIncreasing 0) s.distribution

-- A result that does not throw and shows the memos of its props.
abbrev pub Shows : Option View → Type 0
Shows r = (v : View) × (r ≡ some v) × IsShown v.props.memo_list v.state

module _ (prefix : ℕ) (props : Props) where
  redistribute_memos-IsShown :
      (s : State)
      → 0 < s.columns
      → (s' : State) × (redistribute_memos prefix props s ≡ some s') × IsShown props.memo_list s'
  unfolding redistribute_memos
  redistribute_memos-IsShown s h =
      let (c, done, l) = distribute-IsLayout props.memo_list s.columns s.item_heights prefix h in
      (
        record s { distribution = c.distribution },
        rw done refl,
        record { some_column = h; width = l.width; once = l.once; ordered = l.ordered },
      )

  shown_with-redistribute_memos :
      (s : State) → 0 < s.columns → Shows (shown_with props (redistribute_memos prefix props s))
  shown_with-redistribute_memos s h =
      let (s', done, shown) = redistribute_memos-IsShown s h in
      (record { props = props; state = s' }, rw done refl, shown)

  handle_resize-columns :
      (container : Option ℕ) (s : State)
      → 0 < s.columns
      → 0 < (handle_resize props container s).columns
  unfolding handle_resize
  handle_resize-columns none s h = h
  handle_resize-columns (some width) s h =
      ground (arith, calculate_columns_pos (some width) props.list_mode)

  handle_resize_same :
      (container : Option ℕ) (s : State)
      → eqb (handle_resize props container s).columns s.columns ≡ true
      → handle_resize props container s ≡ s
  unfolding handle_resize
  handle_resize_same none s h = refl
  handle_resize_same (some width) s h =
      elim (Bool-cases (eqb (calculate_columns (some width) props.list_mode) s.columns)) [
        | inl same ↦ rw same refl
        | inr other ↦
            let h' : eqb (calculate_columns (some width) props.list_mode) s.columns ≡ true =
              rw other at h in
            ground arith
      ]

  -- A resize of a component that shows its memos
  shown_with-handle_resize :
      (container : Option ℕ) (s : State)
      → IsShown props.memo_list s
      → Shows (
          shown_with props
            (redistribute_if_resized prefix props s.columns (handle_resize props container s)))
  unfolding redistribute_if_resized
  shown_with-handle_resize container s shown =
      elim (Bool-cases (eqb (handle_resize props container s).columns s.columns)) [
        | inl same ↦ rw same (
          record { props = props; state = handle_resize props container s },
          refl,
          rw (handle_resize_same container s same) shown,
        )
        | inr other ↦ rw other (
            shown_with-redistribute_memos (handle_resize props container s)
              (handle_resize-columns container s shown.some_column))
      ]

  shown_with-handle_height_change :
      (name : Text) (height : ℕ) (s : State)
      → 0 < s.columns
      → Shows (
          shown_with props
            (handle_height_change prefix props name height s >>= redistribute_memos prefix props))
  unfolding handle_height_change
  shown_with-handle_height_change name height s h =
      let heights = put s.item_heights name height in
      let (c, done, l) = distribute-IsLayout props.memo_list s.columns heights prefix h in
      rw done (
        shown_with-redistribute_memos
          (record s { item_heights = heights; distribution = c.distribution }) h)

step-IsShown : (e : Event) (v : View) → IsShown v.props.memo_list v.state → Shows (step e v)
unfolding step
step-IsShown (resized container prefix) v shown =
    shown_with-handle_resize prefix v.props container v.state shown
step-IsShown (height_changed name height prefix) v shown =
    shown_with-handle_height_change prefix v.props name height v.state shown.some_column
step-IsShown (new_memo_list memos prefix) v shown =
    shown_with-redistribute_memos prefix (record (v.props) { memo_list = memos }) v.state
      shown.some_column
step-IsShown (new_list_mode list_mode container prefix) v shown =
    shown_with-handle_resize prefix (record (v.props) { list_mode = list_mode }) container v.state
      shown

run_shown : (es : List Event) (v : View) → IsShown v.props.memo_list v.state → Shows (run es v)
unfolding run
run_shown [] v shown = (v, refl, shown)
run_shown (e ∷ es) v shown =
    let (v', done, shown') = step-IsShown e v shown in rw done (run_shown es v' shown')

-- Whatever resizes, height changes, new memo lists and new modes the component goes through after its
-- first render, it does not throw, and it shows every memo of its current list exactly once, in list
-- order within each column, with as many columns as it has lists of memos.
pub run-IsShown :
    (prefix : ℕ) (container : Option ℕ) (props : Props) (es : List Event)
    → Shows (mount prefix container props >>= run es)
unfolding mount
run-IsShown prefix container props es =
    let start = handle_resize props container initial_state in
    let (v, done, shown) =
      shown_with-redistribute_memos prefix props start
        (handle_resize-columns prefix props container initial_state (omega arith)) in
    rw done (run_shown es v shown)
