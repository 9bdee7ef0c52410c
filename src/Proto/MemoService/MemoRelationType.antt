-- ===== src/Proto/MemoService/MemoRelationType.antt =====
-- The enum `MemoRelation_Type` of app/web/src/types/proto/api/v1/memo_service.ts.
use collab_notes_ecs.Proto.Codec.{
  txt, ◌≡◌, refl, Bool, true, false, if◌then◌else◌, arith, ℤ, pos, negsuc, IsInt32, Wire, Kind,
  Json, json_number, is_case, enum,
}

pub data MemoRelationType : Type 0 where
  type_unspecified reference comment unrecognized : MemoRelationType

-- A number or a name that no case knows is `UNRECOGNIZED`.
unfoldable pub from_json : Json → MemoRelationType
from_json object =
    if is_case object (pos 0) (txt "TYPE_UNSPECIFIED")
    then type_unspecified
    else if is_case object (pos 1) (txt "REFERENCE")
    then reference
    else if is_case object (pos 2) (txt "COMMENT")
    then comment
    else unrecognized

unfoldable pub to_number : MemoRelationType → ℤ
to_number type_unspecified = pos 0
to_number reference = pos 1
to_number comment = pos 2
to_number unrecognized = negsuc 0

pub to_number-IsInt32 : (e : MemoRelationType) → IsInt32 (to_number e)
unfolding to_number
to_number-IsInt32 type_unspecified = omega arith
to_number-IsInt32 reference = omega arith
to_number-IsInt32 comment = omega arith
to_number-IsInt32 unrecognized = omega arith

pub from_json-to_number : (e : MemoRelationType) → from_json (json_number (to_number e)) ≡ e
unfolding from_json to_number is_case
from_json-to_number type_unspecified = refl
from_json-to_number reference = refl
from_json-to_number comment = refl
from_json-to_number unrecognized = refl

-- the default, which `encode` leaves out
abbrev pub is_type_unspecified : MemoRelationType → Bool
is_type_unspecified type_unspecified = true
is_type_unspecified reference = false
is_type_unspecified comment = false
is_type_unspecified unrecognized = false

pub eq_of_is_type_unspecified :
    (e : MemoRelationType) → is_type_unspecified e ≡ true → type_unspecified ≡ e
eq_of_is_type_unspecified type_unspecified h = refl
eq_of_is_type_unspecified reference h = cc
eq_of_is_type_unspecified comment h = cc
eq_of_is_type_unspecified unrecognized h = cc

unfoldable pub memo_relation_type : Wire → Kind MemoRelationType
memo_relation_type wire = enum wire to_number from_json from_json-to_number

pub memo_relation_type-Valid :
    (wire : Wire) (e : MemoRelationType) → (memo_relation_type wire).Valid e
unfolding memo_relation_type
memo_relation_type-Valid wire e = to_number-IsInt32 e
