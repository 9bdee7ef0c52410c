-- ===== src/Proto/UserService/UserSessionClientInfo.antt =====
-- The message `UserSession_ClientInfo` of app/web/src/types/proto/api/v1/user_service.ts.
use collab_notes_ecs.Proto.Codec.{
  Bytes, Kind, Read, Runs, Text, Wire, [], eqb, field, if◌then◌else◌, message, on, refl, text_field,
  unknown, unless, ℕ, ◌++◌, ◌==◌, ◌>>◌,
}

pub record UserSessionClientInfo : Type 0 where
  pub user_agent : Text
  pub ip_address : Text
  pub device_type : Text
  pub os : Text
  pub browser : Text

abbrev pub base : UserSessionClientInfo
base = record { user_agent = []; ip_address = []; device_type = []; os = []; browser = [] }

module _ (wire : Wire) where
  unfoldable pub encode : UserSessionClientInfo → Bytes
  encode m =
      unless wire (m.user_agent == []) (field wire 10 wire.string m.user_agent)
      ++ unless wire (m.ip_address == []) (field wire 18 wire.string m.ip_address)
      ++ unless wire (m.device_type == []) (field wire 26 wire.string m.device_type)
      ++ unless wire (m.os == []) (field wire 34 wire.string m.os)
      ++ unless wire (m.browser == []) (field wire 42 wire.string m.browser)

  unfoldable pub switch : ℕ → UserSessionClientInfo → Bytes → Read UserSessionClientInfo
  switch tag m bytes =
      if eqb tag 10
      then on (wire.string.get bytes) (λ v. record m { user_agent = v })
      else if eqb tag 18
      then on (wire.string.get bytes) (λ v. record m { ip_address = v })
      else if eqb tag 26
      then on (wire.string.get bytes) (λ v. record m { device_type = v })
      else if eqb tag 34
      then on (wire.string.get bytes) (λ v. record m { os = v })
      else if eqb tag 42
      then on (wire.string.get bytes) (λ v. record m { browser = v })
      else unknown

  abbrev pub Valid : UserSessionClientInfo → Type 0
  Valid m =
      wire.string.Valid m.user_agent
      × wire.string.Valid m.ip_address
      × wire.string.Valid m.device_type
      × wire.string.Valid m.os
      × wire.string.Valid m.browser

  pub encode-Runs : (m : UserSessionClientInfo) → Valid m → Runs wire switch base (encode m) m
  unfolding encode switch
  encode-Runs m valid =
      text_field wire switch 10 refl _ (λ bytes. refl) refl m.user_agent valid.0
      >> text_field wire switch 18 refl _ (λ bytes. refl) refl m.ip_address valid.1
      >> text_field wire switch 26 refl _ (λ bytes. refl) refl m.device_type valid.2
      >> text_field wire switch 34 refl _ (λ bytes. refl) refl m.os valid.3
      >> text_field wire switch 42 refl _ (λ bytes. refl) refl m.browser valid.4

  unfoldable pub user_session_client_info : Kind UserSessionClientInfo
  user_session_client_info = message wire switch base encode Valid encode-Runs
