-- ===== src/Proto/MemoService/Visibility.antt =====
-- The enum `Visibility` of app/web/src/types/proto/api/v1/memo_service.ts.
use collab_notes_ecs.Proto.Codec.{
  txt, ◌≡◌, refl, Bool, true, false, if◌then◌else◌, arith, ℤ, pos, negsuc, IsInt32, Wire, Kind,
  Json, json_number, is_case, enum,
}

pub data Visibility : Type 0 where
  visibility_unspecified private protected public unrecognized : Visibility

-- A number or a name that no case knows is `UNRECOGNIZED`.
unfoldable pub from_json : Json → Visibility
from_json object =
    if is_case object (pos 0) (txt "VISIBILITY_UNSPECIFIED")
    then visibility_unspecified
    else if is_case object (pos 1) (txt "PRIVATE")
    then private
    else if is_case object (pos 2) (txt "PROTECTED")
    then protected
    else if is_case object (pos 3) (txt "PUBLIC")
    then public
    else unrecognized

unfoldable pub to_number : Visibility → ℤ
to_number visibility_unspecified = pos 0
to_number private = pos 1
to_number protected = pos 2
to_number public = pos 3
to_number unrecognized = negsuc 0

pub to_number-IsInt32 : (e : Visibility) → IsInt32 (to_number e)
unfolding to_number
to_number-IsInt32 visibility_unspecified = omega arith
to_number-IsInt32 private = omega arith
to_number-IsInt32 protected = omega arith
to_number-IsInt32 public = omega arith
to_number-IsInt32 unrecognized = omega arith

pub from_json-to_number : (e : Visibility) → from_json (json_number (to_number e)) ≡ e
unfolding from_json to_number is_case
from_json-to_number visibility_unspecified = refl
from_json-to_number private = refl
from_json-to_number protected = refl
from_json-to_number public = refl
from_json-to_number unrecognized = refl

-- the default, which `encode` leaves out
abbrev pub is_visibility_unspecified : Visibility → Bool
is_visibility_unspecified visibility_unspecified = true
is_visibility_unspecified private = false
is_visibility_unspecified protected = false
is_visibility_unspecified public = false
is_visibility_unspecified unrecognized = false

pub eq_of_is_visibility_unspecified :
    (e : Visibility) → is_visibility_unspecified e ≡ true → visibility_unspecified ≡ e
eq_of_is_visibility_unspecified visibility_unspecified h = refl
eq_of_is_visibility_unspecified private h = cc
eq_of_is_visibility_unspecified protected h = cc
eq_of_is_visibility_unspecified public h = cc
eq_of_is_visibility_unspecified unrecognized h = cc

unfoldable pub visibility : Wire → Kind Visibility
visibility wire = enum wire to_number from_json from_json-to_number

pub visibility-Valid : (wire : Wire) (e : Visibility) → (visibility wire).Valid e
unfolding visibility
visibility-Valid wire e = to_number-IsInt32 e
