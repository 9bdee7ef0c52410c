-- ===== src/Proto/UserService/UserRole.antt =====
-- The enum `User_Role` of app/web/src/types/proto/api/v1/user_service.ts.
use collab_notes_ecs.Proto.Codec.{
  txt, ◌≡◌, refl, Bool, true, false, if◌then◌else◌, arith, ℤ, pos, negsuc, IsInt32, Wire, Kind,
  Json, json_number, is_case, enum,
}

pub data UserRole : Type 0 where
  role_unspecified host admin user unrecognized : UserRole

-- A number or a name that no case knows is `UNRECOGNIZED`.
unfoldable pub from_json : Json → UserRole
from_json object =
    if is_case object (pos 0) (txt "ROLE_UNSPECIFIED")
    then role_unspecified
    else if is_case object (pos 1) (txt "HOST")
    then host
    else if is_case object (pos 2) (txt "ADMIN")
    then admin
    else if is_case object (pos 3) (txt "USER")
    then user
    else unrecognized

unfoldable pub to_number : UserRole → ℤ
to_number role_unspecified = pos 0
to_number host = pos 1
to_number admin = pos 2
to_number user = pos 3
to_number unrecognized = negsuc 0

pub to_number-IsInt32 : (e : UserRole) → IsInt32 (to_number e)
unfolding to_number
to_number-IsInt32 role_unspecified = omega arith
to_number-IsInt32 host = omega arith
to_number-IsInt32 admin = omega arith
to_number-IsInt32 user = omega arith
to_number-IsInt32 unrecognized = omega arith

pub from_json-to_number : (e : UserRole) → from_json (json_number (to_number e)) ≡ e
unfolding from_json to_number is_case
from_json-to_number role_unspecified = refl
from_json-to_number host = refl
from_json-to_number admin = refl
from_json-to_number user = refl
from_json-to_number unrecognized = refl

-- the default, which `encode` leaves out
abbrev pub is_role_unspecified : UserRole → Bool
is_role_unspecified role_unspecified = true
is_role_unspecified host = false
is_role_unspecified admin = false
is_role_unspecified user = false
is_role_unspecified unrecognized = false

pub eq_of_is_role_unspecified : (e : UserRole) → is_role_unspecified e ≡ true → role_unspecified ≡ e
eq_of_is_role_unspecified role_unspecified h = refl
eq_of_is_role_unspecified host h = cc
eq_of_is_role_unspecified admin h = cc
eq_of_is_role_unspecified user h = cc
eq_of_is_role_unspecified unrecognized h = cc

unfoldable pub user_role : Wire → Kind UserRole
user_role wire = enum wire to_number from_json from_json-to_number

pub user_role-Valid : (wire : Wire) (e : UserRole) → (user_role wire).Valid e
unfolding user_role
user_role-Valid wire e = to_number-IsInt32 e
