-- ===== src/Proto/IdpService/IdentityProviderType.antt =====
-- The enum `IdentityProvider_Type` of app/web/src/types/proto/api/v1/idp_service.ts.
use collab_notes_ecs.Proto.Codec.{
  txt, ◌≡◌, refl, Bool, true, false, if◌then◌else◌, arith, ℤ, pos, negsuc, IsInt32, Wire, Kind,
  Json, json_number, is_case, enum,
}

pub data IdentityProviderType : Type 0 where
  type_unspecified oauth2 unrecognized : IdentityProviderType

-- A number or a name that no case knows is `UNRECOGNIZED`.
unfoldable pub from_json : Json → IdentityProviderType
from_json object =
    if is_case object (pos 0) (txt "TYPE_UNSPECIFIED")
    then type_unspecified
    else if is_case object (pos 1) (txt "OAUTH2")
    then oauth2
    else unrecognized

unfoldable pub to_number : IdentityProviderType → ℤ
to_number type_unspecified = pos 0
to_number oauth2 = pos 1
to_number unrecognized = negsuc 0

pub to_number-IsInt32 : (e : IdentityProviderType) → IsInt32 (to_number e)
unfolding to_number
to_number-IsInt32 type_unspecified = omega arith
to_number-IsInt32 oauth2 = omega arith
to_number-IsInt32 unrecognized = omega arith

pub from_json-to_number : (e : IdentityProviderType) → from_json (json_number (to_number e)) ≡ e
unfolding from_json to_number is_case
from_json-to_number type_unspecified = refl
from_json-to_number oauth2 = refl
from_json-to_number unrecognized = refl

-- the default, which `encode` leaves out
abbrev pub is_type_unspecified : IdentityProviderType → Bool
is_type_unspecified type_unspecified = true
is_type_unspecified oauth2 = false
is_type_unspecified unrecognized = false

pub eq_of_is_type_unspecified :
    (e : IdentityProviderType) → is_type_unspecified e ≡ true → type_unspecified ≡ e
eq_of_is_type_unspecified type_unspecified h = refl
eq_of_is_type_unspecified oauth2 h = cc
eq_of_is_type_unspecified unrecognized h = cc

unfoldable pub identity_provider_type : Wire → Kind IdentityProviderType
identity_provider_type wire = enum wire to_number from_json from_json-to_number

pub identity_provider_type-Valid :
    (wire : Wire) (e : IdentityProviderType) → (identity_provider_type wire).Valid e
unfolding identity_provider_type
identity_provider_type-Valid wire e = to_number-IsInt32 e
