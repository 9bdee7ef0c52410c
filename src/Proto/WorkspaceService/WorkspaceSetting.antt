-- ===== src/Proto/WorkspaceService/WorkspaceSetting.antt =====
-- The message `WorkspaceSetting` of app/web/src/types/proto/api/v1/workspace_service.ts.
use collab_notes_ecs.Proto.Codec.{
  Bytes, Kind, Option, OptionAll, Read, Runs, Text, Wire, [], decode_with, eqb, field,
  if◌then◌else◌, message, none, on, optional, optional-Runs, refl, some, text_field, unknown,
  unless, ℕ, ◌++◌, ◌==◌, ◌>>◌,
}
use collab_notes_ecs.Proto.WorkspaceService.WorkspaceSettingGeneralSetting.{
  WorkspaceSettingGeneralSetting, workspace_setting_general_setting,
}
use collab_notes_ecs.Proto.WorkspaceService.WorkspaceSettingStorageSetting.{
  WorkspaceSettingStorageSetting, workspace_setting_storage_setting,
}
use collab_notes_ecs.Proto.WorkspaceService.WorkspaceSettingMemoRelatedSetting.{
  WorkspaceSettingMemoRelatedSetting, workspace_setting_memo_related_setting,
}

pub record WorkspaceSetting : Type 0 where
  pub name : Text
  pub general_setting : Option WorkspaceSettingGeneralSetting
  pub storage_setting : Option WorkspaceSettingStorageSetting
  pub memo_related_setting : Option WorkspaceSettingMemoRelatedSetting

abbrev pub base : WorkspaceSetting
base = record {
  name = [];
  general_setting = none;
  storage_setting = none;
  memo_related_setting = none;
}

module _ (wire : Wire) where
  unfoldable pub encode : WorkspaceSetting → Bytes
  encode m =
      unless wire (m.name == []) (field wire 10 wire.string m.name)
      ++ optional wire 18 (workspace_setting_general_setting wire) m.general_setting
      ++ optional wire 26 (workspace_setting_storage_setting wire) m.storage_setting
      ++ optional wire 34 (workspace_setting_memo_related_setting wire) m.memo_related_setting

  unfoldable pub switch : ℕ → WorkspaceSetting → Bytes → Read WorkspaceSetting
  switch tag m bytes =
      if eqb tag 10
      then on (wire.string.get bytes) (λ v. record m { name = v })
      else if eqb tag 18
      then on ((workspace_setting_general_setting wire).get bytes)
          (λ v. record m { general_setting = some v })
      else if eqb tag 26
      then on ((workspace_setting_storage_setting wire).get bytes)
          (λ v. record m { storage_setting = some v })
      else if eqb tag 34
      then on ((workspace_setting_memo_related_setting wire).get bytes)
          (λ v. record m { memo_related_setting = some v })
      else unknown

  abbrev pub Valid : WorkspaceSetting → Type 0
  Valid m =
      wire.string.Valid m.name
      × OptionAll (workspace_setting_general_setting wire).Valid m.general_setting
      × OptionAll (workspace_setting_storage_setting wire).Valid m.storage_setting
      × OptionAll (workspace_setting_memo_related_setting wire).Valid m.memo_related_setting

  pub encode-Runs : (m : WorkspaceSetting) → Valid m → Runs wire switch base (encode m) m
  unfolding encode switch
  encode-Runs m valid =
      let m1 : WorkspaceSetting = record base { name = m.name } in
      let m2 : WorkspaceSetting = record m1 { general_setting = m.general_setting } in
      let m3 : WorkspaceSetting = record m2 { storage_setting = m.storage_setting } in
      text_field wire switch 10 refl _ (λ bytes. refl) refl m.name valid.0
      >> optional-Runs wire switch 18 refl (workspace_setting_general_setting wire)
          (λ v. record m1 { general_setting = v }) (λ bytes. refl) refl m.general_setting valid.1
      >> optional-Runs wire switch 26 refl (workspace_setting_storage_setting wire)
          (λ v. record m2 { storage_setting = v }) (λ bytes. refl) refl m.storage_setting valid.2
      >> optional-Runs wire switch 34 refl (workspace_setting_memo_related_setting wire)
          (λ v. record m3 { memo_related_setting = v }) (λ bytes. refl) refl m.memo_related_setting
          valid.3

  unfoldable pub workspace_setting : Kind WorkspaceSetting
  workspace_setting = message wire switch base encode Valid encode-Runs

  unfoldable pub decode : Bytes → Option WorkspaceSetting
  decode = decode_with wire switch base
