-- ===== src/Proto/WorkspaceService/WorkspaceSettingGeneralSettingCustomProfile.antt =====
-- The message `WorkspaceSetting_GeneralSetting_CustomProfile` of app/web/src/types/proto/api/v1/workspace_service.ts.
use collab_notes_ecs.Proto.Codec.{
  Bytes, Kind, Read, Runs, Text, Wire, [], eqb, field, if◌then◌else◌, message, on, refl, text_field,
  unknown, unless, ℕ, ◌++◌, ◌==◌, ◌>>◌,
}

pub record WorkspaceSettingGeneralSettingCustomProfile : Type 0 where
  pub title : Text
  pub description : Text
  pub logo_url : Text
  pub locale : Text

abbrev pub base : WorkspaceSettingGeneralSettingCustomProfile
base = record { title = []; description = []; logo_url = []; locale = [] }

module _ (wire : Wire) where
  unfoldable pub encode : WorkspaceSettingGeneralSettingCustomProfile → Bytes
  encode m =
      unless wire (m.title == []) (field wire 10 wire.string m.title)
      ++ unless wire (m.description == []) (field wire 18 wire.string m.description)
      ++ unless wire (m.logo_url == []) (field wire 26 wire.string m.logo_url)
      ++ unless wire (m.locale == []) (field wire 34 wire.string m.locale)

  unfoldable pub switch :
      ℕ
      → WorkspaceSettingGeneralSettingCustomProfile
      → Bytes
      → Read WorkspaceSettingGeneralSettingCustomProfile
  switch tag m bytes =
      if eqb tag 10
      then on (wire.string.get bytes) (λ v. record m { title = v })
      else if eqb tag 18
      then on (wire.string.get bytes) (λ v. record m { description = v })
      else if eqb tag 26
      then on (wire.string.get bytes) (λ v. record m { logo_url = v })
      else if eqb tag 34
      then on (wire.string.get bytes) (λ v. record m { locale = v })
      else unknown

  abbrev pub Valid : WorkspaceSettingGeneralSettingCustomProfile → Type 0
  Valid m =
      wire.string.Valid m.title
      × wire.string.Valid m.description
      × wire.string.Valid m.logo_url
      × wire.string.Valid m.locale

  pub encode-Runs :
      (m : WorkspaceSettingGeneralSettingCustomProfile)
      → Valid m
      → Runs wire switch base (encode m) m
  unfolding encode switch
  encode-Runs m valid =
      text_field wire switch 10 refl _ (λ bytes. refl) refl m.title valid.0
      >> text_field wire switch 18 refl _ (λ bytes. refl) refl m.description valid.1
      >> text_field wire switch 26 refl _ (λ bytes. refl) refl m.logo_url valid.2
      >> text_field wire switch 34 refl _ (λ bytes. refl) refl m.locale valid.3

  unfoldable pub workspace_setting_general_setting_custom_profile :
      Kind WorkspaceSettingGeneralSettingCustomProfile
  workspace_setting_general_setting_custom_profile =
      message wire switch base encode Valid encode-Runs
