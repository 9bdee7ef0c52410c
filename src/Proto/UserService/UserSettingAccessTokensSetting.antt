-- ===== src/Proto/UserService/UserSettingAccessTokensSetting.antt =====
-- The message `UserSetting_AccessTokensSetting` of app/web/src/types/proto/api/v1/user_service.ts.
use collab_notes_ecs.Proto.Codec.{
  All, Bytes, Kind, List, Read, Runs, Wire, [], eqb, if◌then◌else◌, message, on, refl, repeated,
  repeated-Runs, unknown, ℕ, ◌++◌, ◌∷◌,
}
use collab_notes_ecs.Proto.UserService.UserAccessToken.{UserAccessToken, user_access_token}

pub record UserSettingAccessTokensSetting : Type 0 where
  pub access_tokens : List UserAccessToken

abbrev pub base : UserSettingAccessTokensSetting
base = record { access_tokens = [] }

module _ (wire : Wire) where
  unfoldable pub encode : UserSettingAccessTokensSetting → Bytes
  encode m = repeated wire 10 (user_access_token wire) m.access_tokens

  unfoldable pub switch :
      ℕ → UserSettingAccessTokensSetting → Bytes → Read UserSettingAccessTokensSetting
  switch tag m bytes =
      if eqb tag 10
      then on ((user_access_token wire).get bytes)
          (λ v. record m { access_tokens = m.access_tokens ++ (v ∷ []) })
      else unknown

  abbrev pub Valid : UserSettingAccessTokensSetting → Type 0
  Valid m = All (user_access_token wire).Valid m.access_tokens

  pub encode-Runs :
      (m : UserSettingAccessTokensSetting) → Valid m → Runs wire switch base (encode m) m
  unfolding encode switch
  encode-Runs m valid =
      repeated-Runs wire switch 10 refl (user_access_token wire)
        (λ v. record base { access_tokens = v }) (λ vs bytes. refl) refl m.access_tokens valid

  unfoldable pub user_setting_access_tokens_setting : Kind UserSettingAccessTokensSetting
  user_setting_access_tokens_setting = message wire switch base encode Valid encode-Runs
