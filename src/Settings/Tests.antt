-- ===== src/Settings/Tests.antt =====
-- A workspace that keeps its files in the database, and turns to S3.
use collab_notes_ecs.Base.{txt, Bool, true, false, none, some, [], ◌≡◌, refl, arith}
use collab_notes_ecs.Settings.{
  StorageType, database, s3, StorageSetting, S3Partial, allow_save_storage_setting,
  handle_partial_s3_config_changed, handle_storage_type_changed,
}
use collab_notes_ecs.Settings.Save.{allow_save_without_config}

abbrev same_type : StorageType → StorageType → Bool
same_type database database = true
same_type s3 s3 = true
same_type a b = false

abbrev in_database : StorageSetting
in_database = record {
  storage_type = database;
  filepath_template = [];
  upload_size_limit_mb = 32;
  s3_config = none;
}

abbrev region_only : S3Partial
region_only = record {
  access_key_id = none;
  access_key_secret = none;
  endpoint = none;
  region = some (txt "eu");
  bucket = none;
  use_path_style = none;
}

abbrev differ_by_type : StorageSetting → StorageSetting → Bool
differ_by_type a b = same_type a.storage_type b.storage_type

now_different : differ_by_type in_database (handle_storage_type_changed s3 in_database) ≡ false
unfolding handle_storage_type_changed
now_different = refl

allow_save_without_config_example :
    (allow_save_storage_setting differ_by_type in_database
        (handle_storage_type_changed s3 in_database)
      ≡ true)
    × (allow_save_storage_setting differ_by_type in_database (
          handle_partial_s3_config_changed region_only (handle_storage_type_changed s3 in_database))
        ≡ false)
allow_save_without_config_example =
    allow_save_without_config differ_by_type in_database region_only now_different (omega arith)
      refl refl
