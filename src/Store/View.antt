-- ===== src/Store/View.antt =====
-- app/web/src/store/view.ts: the view's settings, which the browser's `localStorage` keeps. `JSON` is the
-- language's: a parameter. What `JSON.parse` gives that is no object has no properties of its own, except
-- that `null` makes `Object.hasOwn` throw, as a malformed text makes `JSON.parse`.
pub mod Reload
pub mod Tests
use collab_notes_ecs.Base.{
  ℕ, Text, txt, truthy, ◌==◌, Bool, true, false, not, Option, none, some, List, [], ◌∷◌, ◌≡◌, eqb,
  if◌then◌else◌, get_or,
}
use collab_notes_ecs.Base.Dict.{Dict, get}

pub data Layout : Type 0 where
  list masonry : Layout

pub record LocalState : Type 0 where
  pub order_by_time_asc : Bool
  pub layout : Layout

abbrev pub initial : LocalState
initial = record { order_by_time_asc = false; layout = list }

-- A value that a text of JSON can hold, as far as the code tells them apart.
pub data Json : Type 0 where
  null : Json
  boolean : Bool → Json
  zero_number : Json
  other_number : Json
  text : Text → Json
  object_or_array : Json

abbrev pub layout_text : Layout → Text
layout_text list = txt "LIST"
layout_text masonry = txt "MASONRY"

-- The properties that `JSON.stringify` writes of the state.
abbrev pub properties : LocalState → Dict Json
properties s =
    (txt "orderByTimeAsc", boolean s.order_by_time_asc)
    ∷ (txt "layout", text (layout_text s.layout))
    ∷ []

-- `JSON.stringify` of the state and the properties of what `JSON.parse` gives, `none` where the code throws.
-- A text that is written is not empty, and reads as what was written.
pub record JsonCodec : Type 0 where
  pub stringify : LocalState → Text
  pub parse : Text → Option (Dict Json)
  pub truthy-stringify : (s : LocalState) → truthy (stringify s) ≡ true
  pub parse-stringify : (s : LocalState) → parse (stringify s) ≡ some (properties s)

-- The store, and the item of `localStorage` under `memos-view-setting`.
pub record View : Type 0 where
  pub state : LocalState
  pub item : Option Text

pub record Partial : Type 0 where
  pub order_by_time_asc : Option Bool
  pub layout : Option Layout

unfoldable pub assign : Partial → LocalState → LocalState
assign p s = record {
  order_by_time_asc = get_or p.order_by_time_asc s.order_by_time_asc;
  layout = get_or p.layout s.layout;
}

-- `Boolean(value)`
abbrev pub as_boolean : Json → Bool
as_boolean null = false
as_boolean (boolean b) = b
as_boolean zero_number = false
as_boolean other_number = true
as_boolean (text t) = truthy t
as_boolean object_or_array = true

-- the layout that a value names, if `["LIST", "MASONRY"]` includes it
abbrev pub named_layout : Json → Option Layout
named_layout (text t) =
    if t == layout_text list
    then some list
    else if t == layout_text masonry
    then some masonry
    else none
named_layout value = none

module _ (json : JsonCodec) where
  unfoldable pub set_partial : Partial → View → View
  set_partial p v =
      let state = assign p v.state in record { state = state; item = some (json.stringify state) }

  unfoldable pub restore_order : Option Json → View → View
  restore_order none v = v
  restore_order (some value) v =
      set_partial (record { order_by_time_asc = some (as_boolean value); layout = none }) v

  unfoldable pub restore_named : Option Layout → View → View
  restore_named none v = v
  restore_named (some layout) v =
      set_partial (record { order_by_time_asc = none; layout = some layout }) v

  unfoldable pub restore_layout : Option Json → View → View
  restore_layout none v = v
  restore_layout (some value) v = restore_named (named_layout value) v

  unfoldable pub restore : Option (Dict Json) → View → View
  restore none v = v
  restore (some cache) v =
      restore_layout (get cache (txt "layout")) (restore_order (get cache (txt "orderByTimeAsc")) v)

  -- the initial state from `localStorage`
  unfoldable pub load : Option Text → View
  load none = record { state = initial; item = none }
  load (some local_cache) =
      let v : View = record { state = initial; item = some local_cache } in
      let restored = restore (json.parse local_cache) v in
      if truthy local_cache then restored else v
