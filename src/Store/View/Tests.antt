-- ===== src/Store/View/Tests.antt =====
-- A reload with a codec that keeps one character for each setting.
use collab_notes_ecs.Base.{
  Text, truthy, Bool, true, false, Option, none, some, [], ◌∷◌, ◌≡◌, refl, if◌then◌else◌, eqb,
}
use collab_notes_ecs.Base.Dict.{Dict}
use collab_notes_ecs.Store.View.{
  Layout, list, masonry, LocalState, initial, Json, properties, JsonCodec, View, Partial,
  set_partial, load,
}
use collab_notes_ecs.Store.View.Reload.{load-set_partial}

abbrev write_bool : Bool → Text
write_bool true = b'1' ∷ []
write_bool false = b'0' ∷ []

abbrev write_state : LocalState → Text
write_state s = elim s.layout [
  | list ↦ b'L' ∷ write_bool s.order_by_time_asc
  | masonry ↦ b'M' ∷ write_bool s.order_by_time_asc
]

abbrev read_layout : Text → Layout
read_layout [] = list
read_layout (c ∷ t) = if eqb c b'M' then masonry else list

abbrev read_bool : Text → Bool
read_bool [] = false
read_bool (c ∷ t) = eqb c b'1'

abbrev rest_of : Text → Text
rest_of [] = []
rest_of (c ∷ t) = t

abbrev read_state : Text → Option (Dict Json)
read_state t =
    some (properties (record { order_by_time_asc = read_bool (rest_of t); layout = read_layout t }))

write-truthy :
    (asc : Bool) (layout : Layout)
    → truthy (write_state (record { order_by_time_asc = asc; layout = layout })) ≡ true
write-truthy asc list = refl
write-truthy asc masonry = refl

read-write :
    (asc : Bool) (layout : Layout)
    → read_state (write_state (record { order_by_time_asc = asc; layout = layout }))
      ≡ some (properties (record { order_by_time_asc = asc; layout = layout }))
read-write true list = refl
read-write false list = refl
read-write true masonry = refl
read-write false masonry = refl

abbrev short : JsonCodec
short = record {
  stringify = write_state;
  parse = read_state;
  truthy-stringify = λ s. write-truthy s.order_by_time_asc s.layout;
  parse-stringify = λ s. read-write s.order_by_time_asc s.layout;
}

abbrev newest_last : Partial
newest_last = record { order_by_time_asc = some true; layout = none }

abbrev first_visit : View
first_visit = record { state = initial; item = none }

load-set_partial_example :
    load short (set_partial short newest_last first_visit).item
    ≡ set_partial short newest_last first_visit
load-set_partial_example = load-set_partial short newest_last first_visit
