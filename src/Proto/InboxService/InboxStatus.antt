-- ===== src/Proto/InboxService/InboxStatus.antt =====
-- The enum `Inbox_Status` of app/web/src/types/proto/api/v1/inbox_service.ts.
use collab_notes_ecs.Proto.Codec.{
  txt, ◌≡◌, refl, Bool, true, false, if◌then◌else◌, arith, ℤ, pos, negsuc, IsInt32, Wire, Kind,
  Json, json_number, is_case, enum,
}

pub data InboxStatus : Type 0 where
  status_unspecified unread archived unrecognized : InboxStatus

-- A number or a name that no case knows is `UNRECOGNIZED`.
unfoldable pub from_json : Json → InboxStatus
from_json object =
    if is_case object (pos 0) (txt "STATUS_UNSPECIFIED")
    then status_unspecified
    else if is_case object (pos 1) (txt "UNREAD")
    then unread
    else if is_case object (pos 2) (txt "ARCHIVED")
    then archived
    else unrecognized

unfoldable pub to_number : InboxStatus → ℤ
to_number status_unspecified = pos 0
to_number unread = pos 1
to_number archived = pos 2
to_number unrecognized = negsuc 0

pub to_number-IsInt32 : (e : InboxStatus) → IsInt32 (to_number e)
unfolding to_number
to_number-IsInt32 status_unspecified = omega arith
to_number-IsInt32 unread = omega arith
to_number-IsInt32 archived = omega arith
to_number-IsInt32 unrecognized = omega arith

pub from_json-to_number : (e : InboxStatus) → from_json (json_number (to_number e)) ≡ e
unfolding from_json to_number is_case
from_json-to_number status_unspecified = refl
from_json-to_number unread = refl
from_json-to_number archived = refl
from_json-to_number unrecognized = refl

-- the default, which `encode` leaves out
abbrev pub is_status_unspecified : InboxStatus → Bool
is_status_unspecified status_unspecified = true
is_status_unspecified unread = false
is_status_unspecified archived = false
is_status_unspecified unrecognized = false

pub eq_of_is_status_unspecified :
    (e : InboxStatus) → is_status_unspecified e ≡ true → status_unspecified ≡ e
eq_of_is_status_unspecified status_unspecified h = refl
eq_of_is_status_unspecified unread h = cc
eq_of_is_status_unspecified archived h = cc
eq_of_is_status_unspecified unrecognized h = cc

unfoldable pub inbox_status : Wire → Kind InboxStatus
inbox_status wire = enum wire to_number from_json from_json-to_number

pub inbox_status-Valid : (wire : Wire) (e : InboxStatus) → (inbox_status wire).Valid e
unfolding inbox_status
inbox_status-Valid wire e = to_number-IsInt32 e
