-- ===== src/Proto/WorkspaceService/WorkspaceSettingStorageSetting.antt =====
-- The message `WorkspaceSetting_StorageSetting` of app/web/src/types/proto/api/v1/workspace_service.ts.
use collab_notes_ecs.Proto.Codec.{
  Bytes, IsSafe, Kind, Option, OptionAll, Read, Runs, Text, Wire, [], enum_field, eqb, eqz, field,
  if◌then◌else◌, int64, message, none, number_field, on, optional, optional-Runs, pos, refl, some,
  text_field, unknown, unless, ℕ, ℤ, ◌++◌, ◌==◌, ◌>>◌,
}
use collab_notes_ecs.Proto.WorkspaceService.WorkspaceSettingStorageSettingStorageType.{
  WorkspaceSettingStorageSettingStorageType, eq_of_is_storage_type_unspecified,
  is_storage_type_unspecified, workspace_setting_storage_setting_storage_type,
  workspace_setting_storage_setting_storage_type-Valid,
}
use collab_notes_ecs.Proto.WorkspaceService.WorkspaceSettingStorageSettingS3Config.{
  WorkspaceSettingStorageSettingS3Config, workspace_setting_storage_setting_s3_config,
}

pub record WorkspaceSettingStorageSetting : Type 0 where
  pub storage_type : WorkspaceSettingStorageSettingStorageType
  pub filepath_template : Text
  pub upload_size_limit_mb : ℤ
  pub s3_config : Option WorkspaceSettingStorageSettingS3Config

abbrev pub base : WorkspaceSettingStorageSetting
base = record {
  storage_type = WorkspaceSettingStorageSettingStorageType.storage_type_unspecified;
  filepath_template = [];
  upload_size_limit_mb = pos 0;
  s3_config = none;
}

module _ (wire : Wire) where
  unfoldable pub encode : WorkspaceSettingStorageSetting → Bytes
  encode m =
      unless wire (is_storage_type_unspecified m.storage_type)
        (field wire 8 (workspace_setting_storage_setting_storage_type wire) m.storage_type)
      ++ unless wire (m.filepath_template == []) (field wire 18 wire.string m.filepath_template)
      ++ unless wire (eqz m.upload_size_limit_mb (pos 0))
          (field wire 24 (int64 wire) m.upload_size_limit_mb)
      ++ optional wire 34 (workspace_setting_storage_setting_s3_config wire) m.s3_config

  unfoldable pub switch :
      ℕ → WorkspaceSettingStorageSetting → Bytes → Read WorkspaceSettingStorageSetting
  switch tag m bytes =
      if eqb tag 8
      then on ((workspace_setting_storage_setting_storage_type wire).get bytes)
          (λ v. record m { storage_type = v })
      else if eqb tag 18
      then on (wire.string.get bytes) (λ v. record m { filepath_template = v })
      else if eqb tag 24
      then on ((int64 wire).get bytes) (λ v. record m { upload_size_limit_mb = v })
      else if eqb tag 34
      then on ((workspace_setting_storage_setting_s3_config wire).get bytes)
          (λ v. record m { s3_config = some v })
      else unknown

  abbrev pub Valid : WorkspaceSettingStorageSetting → Type 0
  Valid m =
      wire.string.Valid m.filepath_template
      × IsSafe m.upload_size_limit_mb
      × OptionAll (workspace_setting_storage_setting_s3_config wire).Valid m.s3_config

  pub encode-Runs :
      (m : WorkspaceSettingStorageSetting) → Valid m → Runs wire switch base (encode m) m
  unfolding encode switch
  encode-Runs m valid =
      let m3 : WorkspaceSettingStorageSetting = record base {
        storage_type = m.storage_type;
        filepath_template = m.filepath_template;
        upload_size_limit_mb = m.upload_size_limit_mb;
      } in
      enum_field wire switch 8 refl (workspace_setting_storage_setting_storage_type wire)
        is_storage_type_unspecified _ eq_of_is_storage_type_unspecified _ (λ bytes. refl) refl
        m.storage_type (workspace_setting_storage_setting_storage_type-Valid wire m.storage_type)
      >> text_field wire switch 18 refl _ (λ bytes. refl) refl m.filepath_template valid.0
      >> number_field wire switch 24 refl (int64 wire) _ (λ bytes. refl) refl m.upload_size_limit_mb
          valid.1
      >> optional-Runs wire switch 34 refl (workspace_setting_storage_setting_s3_config wire)
          (λ v. record m3 { s3_config = v }) (λ bytes. refl) refl m.s3_config valid.2

  unfoldable pub workspace_setting_storage_setting : Kind WorkspaceSettingStorageSetting
  workspace_setting_storage_setting = message wire switch base encode Valid encode-Runs
