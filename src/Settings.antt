-- ===== src/Settings.antt =====
-- app/web/src/components/Settings/StorageSection.tsx: the form of the storage setting. A limit that is negative or
-- no number counts as zero here: neither can be saved.
pub mod Save
pub mod Tests
use collab_notes_ecs.Base.{
  ℕ, Text, truthy, Bool, true, false, not, ◌||◌, Option, none, some, [], if◌then◌else◌, eqb, get_or,
}

pub data StorageType : Type 0 where
  unspecified database local s3 unrecognized : StorageType

pub record S3Config : Type 0 where
  pub access_key_id : Text
  pub access_key_secret : Text
  pub endpoint : Text
  pub region : Text
  pub bucket : Text
  pub use_path_style : Bool

pub record StorageSetting : Type 0 where
  pub storage_type : StorageType
  pub filepath_template : Text
  pub upload_size_limit_mb : ℕ
  pub s3_config : Option S3Config

-- `Partial<S3Config>`
pub record S3Partial : Type 0 where
  pub access_key_id : Option Text
  pub access_key_secret : Option Text
  pub endpoint : Option Text
  pub region : Option Text
  pub bucket : Option Text
  pub use_path_style : Option Bool

abbrev pub empty_s3_config : S3Config
empty_s3_config = record {
  access_key_id = [];
  access_key_secret = [];
  endpoint = [];
  region = [];
  bucket = [];
  use_path_style = false;
}

-- `s3Config?.field.length === 0` for one of the fields, which nothing satisfies where there is no config
abbrev pub lacks_field : Option S3Config → Bool
lacks_field none = false
lacks_field (some c) =
    not (truthy c.access_key_id)
    || not (truthy c.access_key_secret)
    || not (truthy c.endpoint)
    || not (truthy c.region)
    || not (truthy c.bucket)

abbrev pub lacks : StorageType → StorageSetting → Bool
lacks local s = not (truthy s.filepath_template)
lacks s3 s = lacks_field s.s3_config
lacks other s = false

-- `allowSaveStorageSetting`; lodash's `isEqual` is an argument
unfoldable pub allow_save_storage_setting :
    (StorageSetting → StorageSetting → Bool) → StorageSetting → StorageSetting → Bool
allow_save_storage_setting is_equal origin s =
    if eqb s.upload_size_limit_mb 0
    then false
    else if lacks s.storage_type s
    then false
    else not (is_equal origin s)

unfoldable pub handle_max_upload_size_changed : ℕ → StorageSetting → StorageSetting
handle_max_upload_size_changed num s = record s { upload_size_limit_mb = num }

unfoldable pub handle_filepath_template_changed : Text → StorageSetting → StorageSetting
handle_filepath_template_changed value s = record s { filepath_template = value }

-- `{ ...s3Config, ...partial }`
abbrev pub merge_s3_config : S3Partial → S3Config → S3Config
merge_s3_config p c = record {
  access_key_id = get_or p.access_key_id c.access_key_id;
  access_key_secret = get_or p.access_key_secret c.access_key_secret;
  endpoint = get_or p.endpoint c.endpoint;
  region = get_or p.region c.region;
  bucket = get_or p.bucket c.bucket;
  use_path_style = get_or p.use_path_style c.use_path_style;
}

unfoldable pub handle_partial_s3_config_changed : S3Partial → StorageSetting → StorageSetting
handle_partial_s3_config_changed p s = record s {
  s3_config = some (merge_s3_config p (get_or s.s3_config empty_s3_config));
}

unfoldable pub handle_storage_type_changed : StorageType → StorageSetting → StorageSetting
handle_storage_type_changed storage_type s = record s { storage_type = storage_type }
