-- ===== src/Proto/UserService/UserSettingGeneralSetting.antt =====
-- The message `UserSetting_GeneralSetting` of app/web/src/types/proto/api/v1/user_service.ts.
use collab_notes_ecs.Proto.Codec.{
  Bytes, Kind, Read, Runs, Text, Wire, [], eqb, field, if◌then◌else◌, message, on, refl, text_field,
  unknown, unless, ℕ, ◌++◌, ◌==◌, ◌>>◌,
}

pub record UserSettingGeneralSetting : Type 0 where
  pub locale : Text
  pub memo_visibility : Text
  pub theme : Text

abbrev pub base : UserSettingGeneralSetting
base = record { locale = []; memo_visibility = []; theme = [] }

module _ (wire : Wire) where
  unfoldable pub encode : UserSettingGeneralSetting → Bytes
  encode m =
      unless wire (m.locale == []) (field wire 10 wire.string m.locale)
      ++ unless wire (m.memo_visibility == []) (field wire 26 wire.string m.memo_visibility)
      ++ unless wire (m.theme == []) (field wire 34 wire.string m.theme)

  unfoldable pub switch : ℕ → UserSettingGeneralSetting → Bytes → Read UserSettingGeneralSetting
  switch tag m bytes =
      if eqb tag 10
      then on (wire.string.get bytes) (λ v. record m { locale = v })
      else if eqb tag 26
      then on (wire.string.get bytes) (λ v. record m { memo_visibility = v })
      else if eqb tag 34
      then on (wire.string.get bytes) (λ v. record m { theme = v })
      else unknown

  abbrev pub Valid : UserSettingGeneralSetting → Type 0
  Valid m =
      wire.string.Valid m.locale × wire.string.Valid m.memo_visibility × wire.string.Valid m.theme

  pub encode-Runs : (m : UserSettingGeneralSetting) → Valid m → Runs wire switch base (encode m) m
  unfolding encode switch
  encode-Runs m valid =
      text_field wire switch 10 refl _ (λ bytes. refl) refl m.locale valid.0
      >> text_field wire switch 26 refl _ (λ bytes. refl) refl m.memo_visibility valid.1
      >> text_field wire switch 34 refl _ (λ bytes. refl) refl m.theme valid.2

  unfoldable pub user_setting_general_setting : Kind UserSettingGeneralSetting
  user_setting_general_setting = message wire switch base encode Valid encode-Runs
