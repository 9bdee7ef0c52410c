-- ===== src/Store/View/Reload.antt =====
-- app/web/src/store/view.ts: the settings outlive a reload.
use collab_notes_ecs.Base.{◌==◌, Bool, some, ◌≡◌, refl}
use collab_notes_ecs.Base.Dict.{get}
use collab_notes_ecs.Store.View.{
  Layout, list, masonry, LocalState, initial, properties, JsonCodec, View, Partial, assign,
  set_partial, restore_order, restore_named, restore_layout, restore, load,
}

-- Reading what was written of a state gives the state, and writes it again.
restore-properties :
    (json : JsonCodec) (asc : Bool) (layout : Layout) (v : View)
    → let s : LocalState = record { order_by_time_asc = asc; layout = layout } in
      restore json (some (properties s)) v ≡ record { state = s; item = some (json.stringify s) }
unfolding restore restore_order restore_layout restore_named set_partial assign get ◌==◌
restore-properties json asc list v = refl
restore-properties json asc masonry v = refl

-- Whatever is set, from whatever state, a reload of the page finds the same settings, and leaves what is
-- stored as it is.
pub load-set_partial :
    (json : JsonCodec) (p : Partial) (v : View)
    → load json (set_partial json p v).item ≡ set_partial json p v
unfolding load set_partial
load-set_partial json p v =
    let s = assign p v.state in
    rw (json.truthy-stringify s, json.parse-stringify s)
      (restore-properties json s.order_by_time_asc s.layout
        (record { state = initial; item = some (json.stringify s) }))
