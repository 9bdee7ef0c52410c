-- ===== src/Proto/WorkspaceService/WorkspaceSettingStorageSettingS3Config.antt =====
-- The message `WorkspaceSetting_StorageSetting_S3Config` of app/web/src/types/proto/api/v1/workspace_service.ts.
use collab_notes_ecs.Proto.Codec.{
  Bool, Bytes, Kind, Read, Runs, Text, Wire, [], bool_field, eqb, false, field, if◌then◌else◌,
  message, not, on, refl, text_field, unknown, unless, ℕ, ◌++◌, ◌==◌, ◌>>◌,
}

pub record WorkspaceSettingStorageSettingS3Config : Type 0 where
  pub access_key_id : Text
  pub access_key_secret : Text
  pub endpoint : Text
  pub region : Text
  pub bucket : Text
  pub use_path_style : Bool

abbrev pub base : WorkspaceSettingStorageSettingS3Config
base = record {
  access_key_id = [];
  access_key_secret = [];
  endpoint = [];
  region = [];
  bucket = [];
  use_path_style = false;
}

module _ (wire : Wire) where
  unfoldable pub encode : WorkspaceSettingStorageSettingS3Config → Bytes
  encode m =
      unless wire (m.access_key_id == []) (field wire 10 wire.string m.access_key_id)
      ++ unless wire (m.access_key_secret == []) (field wire 18 wire.string m.access_key_secret)
      ++ unless wire (m.endpoint == []) (field wire 26 wire.string m.endpoint)
      ++ unless wire (m.region == []) (field wire 34 wire.string m.region)
      ++ unless wire (m.bucket == []) (field wire 42 wire.string m.bucket)
      ++ unless wire (not m.use_path_style) (field wire 48 wire.bool m.use_path_style)

  unfoldable pub switch :
      ℕ
      → WorkspaceSettingStorageSettingS3Config
      → Bytes
      → Read WorkspaceSettingStorageSettingS3Config
  switch tag m bytes =
      if eqb tag 10
      then on (wire.string.get bytes) (λ v. record m { access_key_id = v })
      else if eqb tag 18
      then on (wire.string.get bytes) (λ v. record m { access_key_secret = v })
      else if eqb tag 26
      then on (wire.string.get bytes) (λ v. record m { endpoint = v })
      else if eqb tag 34
      then on (wire.string.get bytes) (λ v. record m { region = v })
      else if eqb tag 42
      then on (wire.string.get bytes) (λ v. record m { bucket = v })
      else if eqb tag 48
      then on (wire.bool.get bytes) (λ v. record m { use_path_style = v })
      else unknown

  abbrev pub Valid : WorkspaceSettingStorageSettingS3Config → Type 0
  Valid m =
      wire.string.Valid m.access_key_id
      × wire.string.Valid m.access_key_secret
      × wire.string.Valid m.endpoint
      × wire.string.Valid m.region
      × wire.string.Valid m.bucket

  pub encode-Runs :
      (m : WorkspaceSettingStorageSettingS3Config) → Valid m → Runs wire switch base (encode m) m
  unfolding encode switch
  encode-Runs m valid =
      text_field wire switch 10 refl _ (λ bytes. refl) refl m.access_key_id valid.0
      >> text_field wire switch 18 refl _ (λ bytes. refl) refl m.access_key_secret valid.1
      >> text_field wire switch 26 refl _ (λ bytes. refl) refl m.endpoint valid.2
      >> text_field wire switch 34 refl _ (λ bytes. refl) refl m.region valid.3
      >> text_field wire switch 42 refl _ (λ bytes. refl) refl m.bucket valid.4
      >> bool_field wire switch 48 refl _ (λ bytes. refl) refl m.use_path_style

  unfoldable pub workspace_setting_storage_setting_s3_config :
      Kind WorkspaceSettingStorageSettingS3Config
  workspace_setting_storage_setting_s3_config = message wire switch base encode Valid encode-Runs
