-- ===== src/Proto/InboxService/InboxType.antt =====
-- The enum `Inbox_Type` of app/web/src/types/proto/api/v1/inbox_service.ts.
use collab_notes_ecs.Proto.Codec.{
  txt, ◌≡◌, refl, Bool, true, false, if◌then◌else◌, arith, ℤ, pos, negsuc, IsInt32, Wire, Kind,
  Json, json_number, is_case, enum,
}

pub data InboxType : Type 0 where
  type_unspecified memo_comment version_update unrecognized : InboxType

-- A number or a name that no case knows is `UNRECOGNIZED`.
unfoldable pub from_json : Json → InboxType
from_json object =
    if is_case object (pos 0) (txt "TYPE_UNSPECIFIED")
    then type_unspecified
    else if is_case object (pos 1) (txt "MEMO_COMMENT")
    then memo_comment
    else if is_case object (pos 2) (txt "VERSION_UPDATE")
    then version_update
    else unrecognized

unfoldable pub to_number : InboxType → ℤ
to_number type_unspecified = pos 0
to_number memo_comment = pos 1
to_number version_update = pos 2
to_number unrecognized = negsuc 0

pub to_number-IsInt32 : (e : InboxType) → IsInt32 (to_number e)
unfolding to_number
to_number-IsInt32 type_unspecified = omega arith
to_number-IsInt32 memo_comment = omega arith
to_number-IsInt32 version_update = omega arith
to_number-IsInt32 unrecognized = omega arith

pub from_json-to_number : (e : InboxType) → from_json (json_number (to_number e)) ≡ e
unfolding from_json to_number is_case
from_json-to_number type_unspecified = refl
from_json-to_number memo_comment = refl
from_json-to_number version_update = refl
from_json-to_number unrecognized = refl

-- the default, which `encode` leaves out
abbrev pub is_type_unspecified : InboxType → Bool
is_type_unspecified type_unspecified = true
is_type_unspecified memo_comment = false
is_type_unspecified version_update = false
is_type_unspecified unrecognized = false

pub eq_of_is_type_unspecified :
    (e : InboxType) → is_type_unspecified e ≡ true → type_unspecified ≡ e
eq_of_is_type_unspecified type_unspecified h = refl
eq_of_is_type_unspecified memo_comment h = cc
eq_of_is_type_unspecified version_update h = cc
eq_of_is_type_unspecified unrecognized h = cc

unfoldable pub inbox_type : Wire → Kind InboxType
inbox_type wire = enum wire to_number from_json from_json-to_number

pub inbox_type-Valid : (wire : Wire) (e : InboxType) → (inbox_type wire).Valid e
unfolding inbox_type
inbox_type-Valid wire e = to_number-IsInt32 e
