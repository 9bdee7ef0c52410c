-- ===== src/Proto/UserService/UserSetting.antt =====
-- The message `UserSetting` of app/web/src/types/proto/api/v1/user_service.ts.
use collab_notes_ecs.Proto.Codec.{
  Bytes, Kind, Option, OptionAll, Read, Runs, Text, Wire, [], eqb, field, if◌then◌else◌, message,
  none, on, optional, optional-Runs, refl, some, text_field, unknown, unless, ℕ, ◌++◌, ◌==◌, ◌>>◌,
}
use collab_notes_ecs.Proto.UserService.UserSettingGeneralSetting.{
  UserSettingGeneralSetting, user_setting_general_setting,
}
use collab_notes_ecs.Proto.UserService.UserSettingSessionsSetting.{
  UserSettingSessionsSetting, user_setting_sessions_setting,
}
use collab_notes_ecs.Proto.UserService.UserSettingAccessTokensSetting.{
  UserSettingAccessTokensSetting, user_setting_access_tokens_setting,
}
use collab_notes_ecs.Proto.UserService.UserSettingWebhooksSetting.{
  UserSettingWebhooksSetting, user_setting_webhooks_setting,
}

pub record UserSetting : Type 0 where
  pub name : Text
  pub general_setting : Option UserSettingGeneralSetting
  pub sessions_setting : Option UserSettingSessionsSetting
  pub access_tokens_setting : Option UserSettingAccessTokensSetting
  pub webhooks_setting : Option UserSettingWebhooksSetting

abbrev pub base : UserSetting
base = record {
  name = [];
  general_setting = none;
  sessions_setting = none;
  access_tokens_setting = none;
  webhooks_setting = none;
}

module _ (wire : Wire) where
  unfoldable pub encode : UserSetting → Bytes
  encode m =
      unless wire (m.name == []) (field wire 10 wire.string m.name)
      ++ optional wire 18 (user_setting_general_setting wire) m.general_setting
      ++ optional wire 26 (user_setting_sessions_setting wire) m.sessions_setting
      ++ optional wire 34 (user_setting_access_tokens_setting wire) m.access_tokens_setting
      ++ optional wire 42 (user_setting_webhooks_setting wire) m.webhooks_setting

  unfoldable pub switch : ℕ → UserSetting → Bytes → Read UserSetting
  switch tag m bytes =
      if eqb tag 10
      then on (wire.string.get bytes) (λ v. record m { name = v })
      else if eqb tag 18
      then on ((user_setting_general_setting wire).get bytes)
          (λ v. record m { general_setting = some v })
      else if eqb tag 26
      then on ((user_setting_sessions_setting wire).get bytes)
          (λ v. record m { sessions_setting = some v })
      else if eqb tag 34
      then on ((user_setting_access_tokens_setting wire).get bytes)
          (λ v. record m { access_tokens_setting = some v })
      else if eqb tag 42
      then on ((user_setting_webhooks_setting wire).get bytes)
          (λ v. record m { webhooks_setting = some v })
      else unknown

  abbrev pub Valid : UserSetting → Type 0
  Valid m =
      wire.string.Valid m.name
      × OptionAll (user_setting_general_setting wire).Valid m.general_setting
      × OptionAll (user_setting_sessions_setting wire).Valid m.sessions_setting
      × OptionAll (user_setting_access_tokens_setting wire).Valid m.access_tokens_setting
      × OptionAll (user_setting_webhooks_setting wire).Valid m.webhooks_setting

  pub encode-Runs : (m : UserSetting) → Valid m → Runs wire switch base (encode m) m
  unfolding encode switch
  encode-Runs m valid =
      let m1 : UserSetting = record base { name = m.name } in
      let m2 : UserSetting = record m1 { general_setting = m.general_setting } in
      let m3 : UserSetting = record m2 { sessions_setting = m.sessions_setting } in
      let m4 : UserSetting = record m3 { access_tokens_setting = m.access_tokens_setting } in
      text_field wire switch 10 refl _ (λ bytes. refl) refl m.name valid.0
      >> optional-Runs wire switch 18 refl (user_setting_general_setting wire)
          (λ v. record m1 { general_setting = v }) (λ bytes. refl) refl m.general_setting valid.1
      >> optional-Runs wire switch 26 refl (user_setting_sessions_setting wire)
          (λ v. record m2 { sessions_setting = v }) (λ bytes. refl) refl m.sessions_setting valid.2
      >> optional-Runs wire switch 34 refl (user_setting_access_tokens_setting wire)
          (λ v. record m3 { access_tokens_setting = v }) (λ bytes. refl) refl
          m.access_tokens_setting valid.3
      >> optional-Runs wire switch 42 refl (user_setting_webhooks_setting wire)
          (λ v. record m4 { webhooks_setting = v }) (λ bytes. refl) refl m.webhooks_setting valid.4

  unfoldable pub user_setting : Kind UserSetting
  user_setting = message wire switch base encode Valid encode-Runs
