-- ===== src/Proto/WorkspaceService/WorkspaceSettingGeneralSetting.antt =====
-- The message `WorkspaceSetting_GeneralSetting` of app/web/src/types/proto/api/v1/workspace_service.ts.
use collab_notes_ecs.Proto.Codec.{
  Bool, Bytes, IsInt32, Kind, Option, OptionAll, Read, Runs, Text, Wire, [], bool_field, eqb, eqz,
  false, field, if◌then◌else◌, int32, message, none, not, number_field, on, optional, optional-Runs,
  pos, refl, some, text_field, unknown, unless, ℕ, ℤ, ◌++◌, ◌==◌, ◌>>◌,
}
use collab_notes_ecs.Proto.WorkspaceService.WorkspaceSettingGeneralSettingCustomProfile.{
  WorkspaceSettingGeneralSettingCustomProfile, workspace_setting_general_setting_custom_profile,
}

pub record WorkspaceSettingGeneralSetting : Type 0 where
  pub theme : Text
  pub disallow_user_registration : Bool
  pub disallow_password_auth : Bool
  pub additional_script : Text
  pub additional_style : Text
  pub custom_profile : Option WorkspaceSettingGeneralSettingCustomProfile
  pub week_start_day_offset : ℤ
  pub disallow_change_username : Bool
  pub disallow_change_nickname : Bool

abbrev pub base : WorkspaceSettingGeneralSetting
base = record {
  theme = [];
  disallow_user_registration = false;
  disallow_password_auth = false;
  additional_script = [];
  additional_style = [];
  custom_profile = none;
  week_start_day_offset = pos 0;
  disallow_change_username = false;
  disallow_change_nickname = false;
}

module _ (wire : Wire) where
  unfoldable pub encode : WorkspaceSettingGeneralSetting → Bytes
  encode m =
      unless wire (m.theme == []) (field wire 10 wire.string m.theme)
      ++ unless wire (not m.disallow_user_registration)
          (field wire 16 wire.bool m.disallow_user_registration)
      ++ unless wire (not m.disallow_password_auth)
          (field wire 24 wire.bool m.disallow_password_auth)
      ++ unless wire (m.additional_script == []) (field wire 34 wire.string m.additional_script)
      ++ unless wire (m.additional_style == []) (field wire 42 wire.string m.additional_style)
      ++ optional wire 50 (workspace_setting_general_setting_custom_profile wire) m.custom_profile
      ++ unless wire (eqz m.week_start_day_offset (pos 0))
          (field wire 56 (int32 wire) m.week_start_day_offset)
      ++ unless wire (not m.disallow_change_username)
          (field wire 64 wire.bool m.disallow_change_username)
      ++ unless wire (not m.disallow_change_nickname)
          (field wire 72 wire.bool m.disallow_change_nickname)

  unfoldable pub switch :
      ℕ → WorkspaceSettingGeneralSetting → Bytes → Read WorkspaceSettingGeneralSetting
  switch tag m bytes =
      if eqb tag 10
      then on (wire.string.get bytes) (λ v. record m { theme = v })
      else if eqb tag 16
      then on (wire.bool.get bytes) (λ v. record m { disallow_user_registration = v })
      else if eqb tag 24
      then on (wire.bool.get bytes) (λ v. record m { disallow_password_auth = v })
      else if eqb tag 34
      then on (wire.string.get bytes) (λ v. record m { additional_script = v })
      else if eqb tag 42
      then on (wire.string.get bytes) (λ v. record m { additional_style = v })
      else if eqb tag 50
      then on ((workspace_setting_general_setting_custom_profile wire).get bytes)
          (λ v. record m { custom_profile = some v })
      else if eqb tag 56
      then on ((int32 wire).get bytes) (λ v. record m { week_start_day_offset = v })
      else if eqb tag 64
      then on (wire.bool.get bytes) (λ v. record m { disallow_change_username = v })
      else if eqb tag 72
      then on (wire.bool.get bytes) (λ v. record m { disallow_change_nickname = v })
      else unknown

  abbrev pub Valid : WorkspaceSettingGeneralSetting → Type 0
  Valid m =
      wire.string.Valid m.theme
      × wire.string.Valid m.additional_script
      × wire.string.Valid m.additional_style
      × OptionAll (workspace_setting_general_setting_custom_profile wire).Valid m.custom_profile
      × IsInt32 m.week_start_day_offset

  pub encode-Runs :
      (m : WorkspaceSettingGeneralSetting) → Valid m → Runs wire switch base (encode m) m
  unfolding encode switch
  encode-Runs m valid =
      let m5 : WorkspaceSettingGeneralSetting = record base {
        theme = m.theme;
        disallow_user_registration = m.disallow_user_registration;
        disallow_password_auth = m.disallow_password_auth;
        additional_script = m.additional_script;
        additional_style = m.additional_style;
      } in
      text_field wire switch 10 refl _ (λ bytes. refl) refl m.theme valid.0
      >> bool_field wire switch 16 refl _ (λ bytes. refl) refl m.disallow_user_registration
      >> bool_field wire switch 24 refl _ (λ bytes. refl) refl m.disallow_password_auth
      >> text_field wire switch 34 refl _ (λ bytes. refl) refl m.additional_script valid.1
      >> text_field wire switch 42 refl _ (λ bytes. refl) refl m.additional_style valid.2
      >> optional-Runs wire switch 50 refl (workspace_setting_general_setting_custom_profile wire)
          (λ v. record m5 { custom_profile = v }) (λ bytes. refl) refl m.custom_profile valid.3
      >> number_field wire switch 56 refl (int32 wire) _ (λ bytes. refl) refl
          m.week_start_day_offset valid.4
      >> bool_field wire switch 64 refl _ (λ bytes. refl) refl m.disallow_change_username
      >> bool_field wire switch 72 refl _ (λ bytes. refl) refl m.disallow_change_nickname

  unfoldable pub workspace_setting_general_setting : Kind WorkspaceSettingGeneralSetting
  workspace_setting_general_setting = message wire switch base encode Valid encode-Runs
