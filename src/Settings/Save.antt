-- ===== src/Settings/Save.antt =====
-- app/web/src/components/Settings/StorageSection.tsx: which settings can be saved.
use collab_notes_ecs.Base.{
  ◌<◌, Bool, true, false, not, ◌||◌, none, some, ◌≡◌, refl, ap, ◌∙◌, arith, [], eqb, get_or,
  Bool-cases, inl, inr,
}
use collab_notes_ecs.Settings.{
  s3, S3Config, empty_s3_config, merge_s3_config, StorageSetting, S3Partial, lacks, lacks_field,
  allow_save_storage_setting, handle_partial_s3_config_changed, handle_storage_type_changed,
}

or_true : (b : Bool) → (b || true) ≡ true
or_true true = refl
or_true false = refl

empty_bucket : (c : S3Config) → c.bucket ≡ [] → lacks_field (some c) ≡ true
empty_bucket c h = rw h (or_true _)

save_blocked :
    (is_equal : StorageSetting → StorageSetting → Bool) (origin s : StorageSetting)
    → lacks s.storage_type s ≡ true
    → allow_save_storage_setting is_equal origin s ≡ false
unfolding allow_save_storage_setting
save_blocked is_equal origin s h = elim (Bool-cases (eqb s.upload_size_limit_mb 0)) [
  | inl none_allowed ↦ rw none_allowed refl
  | inr limited ↦ rw (limited, h) refl
]

-- With a size limit that is not zero: a change to S3 of a storage that was never configured can be
-- saved as it is, when it differs from what is stored. Once a field is touched, and the bucket is not,
-- the save is blocked.
pub allow_save_without_config :
    (is_equal : StorageSetting → StorageSetting → Bool) (s : StorageSetting) (p : S3Partial)
    → is_equal s (handle_storage_type_changed s3 s) ≡ false
    → 0 < s.upload_size_limit_mb
    → s.s3_config ≡ none
    → p.bucket ≡ none
    → (allow_save_storage_setting is_equal s (handle_storage_type_changed s3 s) ≡ true)
      × (allow_save_storage_setting is_equal s
            (handle_partial_s3_config_changed p (handle_storage_type_changed s3 s))
          ≡ false)
unfolding allow_save_storage_setting handle_storage_type_changed handle_partial_s3_config_changed
allow_save_without_config is_equal s p differs some_size unset no_bucket =
    let limit : eqb s.upload_size_limit_mb 0 ≡ false = ground arith in
    let no_field : lacks_field s.s3_config ≡ false = ap lacks_field unset in
    (
      rw (limit, no_field) (ap not differs),
      save_blocked is_equal s
          (handle_partial_s3_config_changed p (handle_storage_type_changed s3 s))
          (empty_bucket (merge_s3_config p (get_or s.s3_config empty_s3_config)) (
            ap (λ o. get_or o (get_or s.s3_config empty_s3_config).bucket) no_bucket
            ∙ ap (λ c. (get_or c empty_s3_config).bucket) unset)),
    )
