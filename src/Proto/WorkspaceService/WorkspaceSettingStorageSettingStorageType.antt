-- ===== src/Proto/WorkspaceService/WorkspaceSettingStorageSettingStorageType.antt =====
-- The enum `WorkspaceSetting_StorageSetting_StorageType` of app/web/src/types/proto/api/v1/workspace_service.ts.
use collab_notes_ecs.Proto.Codec.{
  txt, ◌≡◌, refl, Bool, true, false, if◌then◌else◌, arith, ℤ, pos, negsuc, IsInt32, Wire, Kind,
  Json, json_number, is_case, enum,
}

pub data WorkspaceSettingStorageSettingStorageType : Type 0 where
  storage_type_unspecified database local s3 unrecognized :
      WorkspaceSettingStorageSettingStorageType

-- A number or a name that no case knows is `UNRECOGNIZED`.
unfoldable pub from_json : Json → WorkspaceSettingStorageSettingStorageType
from_json object =
    if is_case object (pos 0) (txt "STORAGE_TYPE_UNSPECIFIED")
    then storage_type_unspecified
    else if is_case object (pos 1) (txt "DATABASE")
    then database
    else if is_case object (pos 2) (txt "LOCAL")
    then local
    else if is_case object (pos 3) (txt "S3")
    then s3
    else unrecognized

unfoldable pub to_number : WorkspaceSettingStorageSettingStorageType → ℤ
to_number storage_type_unspecified = pos 0
to_number database = pos 1
to_number local = pos 2
to_number s3 = pos 3
to_number unrecognized = negsuc 0

pub to_number-IsInt32 : (e : WorkspaceSettingStorageSettingStorageType) → IsInt32 (to_number e)
unfolding to_number
to_number-IsInt32 storage_type_unspecified = omega arith
to_number-IsInt32 database = omega arith
to_number-IsInt32 local = omega arith
to_number-IsInt32 s3 = omega arith
to_number-IsInt32 unrecognized = omega arith

pub from_json-to_number :
    (e : WorkspaceSettingStorageSettingStorageType) → from_json (json_number (to_number e)) ≡ e
unfolding from_json to_number is_case
from_json-to_number storage_type_unspecified = refl
from_json-to_number database = refl
from_json-to_number local = refl
from_json-to_number s3 = refl
from_json-to_number unrecognized = refl

-- the default, which `encode` leaves out
abbrev pub is_storage_type_unspecified : WorkspaceSettingStorageSettingStorageType → Bool
is_storage_type_unspecified storage_type_unspecified = true
is_storage_type_unspecified database = false
is_storage_type_unspecified local = false
is_storage_type_unspecified s3 = false
is_storage_type_unspecified unrecognized = false

pub eq_of_is_storage_type_unspecified :
    (e : WorkspaceSettingStorageSettingStorageType)
    → is_storage_type_unspecified e ≡ true
    → storage_type_unspecified ≡ e
eq_of_is_storage_type_unspecified storage_type_unspecified h = refl
eq_of_is_storage_type_unspecified database h = cc
eq_of_is_storage_type_unspecified local h = cc
eq_of_is_storage_type_unspecified s3 h = cc
eq_of_is_storage_type_unspecified unrecognized h = cc

unfoldable pub workspace_setting_storage_setting_storage_type :
    Wire → Kind WorkspaceSettingStorageSettingStorageType
workspace_setting_storage_setting_storage_type wire =
    enum wire to_number from_json from_json-to_number

pub workspace_setting_storage_setting_storage_type-Valid :
    (wire : Wire) (e : WorkspaceSettingStorageSettingStorageType)
    → (workspace_setting_storage_setting_storage_type wire).Valid e
unfolding workspace_setting_storage_setting_storage_type
workspace_setting_storage_setting_storage_type-Valid wire e = to_number-IsInt32 e
