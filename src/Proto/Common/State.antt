-- ===== src/Proto/Common/State.antt =====
-- The enum `State` of app/web/src/types/proto/api/v1/common.ts.
use collab_notes_ecs.Proto.Codec.{
  txt, ◌≡◌, refl, Bool, true, false, if◌then◌else◌, arith, ℤ, pos, negsuc, IsInt32, Wire, Kind,
  Json, json_number, is_case, enum,
}

pub data State : Type 0 where
  state_unspecified normal archived unrecognized : State

-- A number or a name that no case knows is `UNRECOGNIZED`.
unfoldable pub from_json : Json → State
from_json object =
    if is_case object (pos 0) (txt "STATE_UNSPECIFIED")
    then state_unspecified
    else if is_case object (pos 1) (txt "NORMAL")
    then normal
    else if is_case object (pos 2) (txt "ARCHIVED")
    then archived
    else unrecognized

unfoldable pub to_number : State → ℤ
to_number state_unspecified = pos 0
to_number normal = pos 1
to_number archived = pos 2
to_number unrecognized = negsuc 0

pub to_number-IsInt32 : (e : State) → IsInt32 (to_number e)
unfolding to_number
to_number-IsInt32 state_unspecified = omega arith
to_number-IsInt32 normal = omega arith
to_number-IsInt32 archived = omega arith
to_number-IsInt32 unrecognized = omega arith

pub from_json-to_number : (e : State) → from_json (json_number (to_number e)) ≡ e
unfolding from_json to_number is_case
from_json-to_number state_unspecified = refl
from_json-to_number normal = refl
from_json-to_number archived = refl
from_json-to_number unrecognized = refl

-- the default, which `encode` leaves out
abbrev pub is_state_unspecified : State → Bool
is_state_unspecified state_unspecified = true
is_state_unspecified normal = false
is_state_unspecified archived = false
is_state_unspecified unrecognized = false

pub eq_of_is_state_unspecified : (e : State) → is_state_unspecified e ≡ true → state_unspecified ≡ e
eq_of_is_state_unspecified state_unspecified h = refl
eq_of_is_state_unspecified normal h = cc
eq_of_is_state_unspecified archived h = cc
eq_of_is_state_unspecified unrecognized h = cc

unfoldable pub state : Wire → Kind State
state wire = enum wire to_number from_json from_json-to_number

pub state-Valid : (wire : Wire) (e : State) → (state wire).Valid e
unfolding state
state-Valid wire e = to_number-IsInt32 e
