-- ===== src/Proto/UserService/UserSettingWebhooksSetting.antt =====
-- The message `UserSetting_WebhooksSetting` of app/web/src/types/proto/api/v1/user_service.ts.
use collab_notes_ecs.Proto.Codec.{
  All, Bytes, Kind, List, Read, Runs, Wire, [], eqb, if◌then◌else◌, message, on, refl, repeated,
  repeated-Runs, unknown, ℕ, ◌++◌, ◌∷◌,
}
use collab_notes_ecs.Proto.UserService.UserWebhook.{UserWebhook, user_webhook}

pub record UserSettingWebhooksSetting : Type 0 where
  pub webhooks : List UserWebhook

abbrev pub base : UserSettingWebhooksSetting
base = record { webhooks = [] }

module _ (wire : Wire) where
  unfoldable pub encode : UserSettingWebhooksSetting → Bytes
  encode m = repeated wire 10 (user_webhook wire) m.webhooks

  unfoldable pub switch : ℕ → UserSettingWebhooksSetting → Bytes → Read UserSettingWebhooksSetting
  switch tag m bytes =
      if eqb tag 10
      then on ((user_webhook wire).get bytes) (λ v. record m { webhooks = m.webhooks ++ (v ∷ []) })
      else unknown

  abbrev pub Valid : UserSettingWebhooksSetting → Type 0
  Valid m = All (user_webhook wire).Valid m.webhooks

  pub encode-Runs : (m : UserSettingWebhooksSetting) → Valid m → Runs wire switch base (encode m) m
  unfolding encode switch
  encode-Runs m valid =
      repeated-Runs wire switch 10 refl (user_webhook wire) (λ v. record base { webhooks = v })
        (λ vs bytes. refl) refl m.webhooks valid

  unfoldable pub user_setting_webhooks_setting : Kind UserSettingWebhooksSetting
  user_setting_webhooks_setting = message wire switch base encode Valid encode-Runs
