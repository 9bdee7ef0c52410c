-- ===== src/Proto/UserService/UserSettingSessionsSetting.antt =====
-- The message `UserSetting_SessionsSetting` of app/web/src/types/proto/api/v1/user_service.ts.
use collab_notes_ecs.Proto.Codec.{
  All, Bytes, Kind, List, Read, Runs, Wire, [], eqb, if◌then◌else◌, message, on, refl, repeated,
  repeated-Runs, unknown, ℕ, ◌++◌, ◌∷◌,
}
use collab_notes_ecs.Proto.UserService.UserSession.{UserSession, user_session}

pub record UserSettingSessionsSetting : Type 0 where
  pub sessions : List UserSession

abbrev pub base : UserSettingSessionsSetting
base = record { sessions = [] }

module _ (wire : Wire) where
  unfoldable pub encode : UserSettingSessionsSetting → Bytes
  encode m = repeated wire 10 (user_session wire) m.sessions

  unfoldable pub switch : ℕ → UserSettingSessionsSetting → Bytes → Read UserSettingSessionsSetting
  switch tag m bytes =
      if eqb tag 10
      then on ((user_session wire).get bytes) (λ v. record m { sessions = m.sessions ++ (v ∷ []) })
      else unknown

  abbrev pub Valid : UserSettingSessionsSetting → Type 0
  Valid m = All (user_session wire).Valid m.sessions

  pub encode-Runs : (m : UserSettingSessionsSetting) → Valid m → Runs wire switch base (encode m) m
  unfolding encode switch
  encode-Runs m valid =
      repeated-Runs wire switch 10 refl (user_session wire) (λ v. record base { sessions = v })
        (λ vs bytes. refl) refl m.sessions valid

  unfoldable pub user_setting_sessions_setting : Kind UserSettingSessionsSetting
  user_setting_sessions_setting = message wire switch base encode Valid encode-Runs
