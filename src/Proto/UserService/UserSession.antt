-- ===== src/Proto/UserService/UserSession.antt =====
-- The message `UserSession` of app/web/src/types/proto/api/v1/user_service.ts.
use collab_notes_ecs.Proto.Codec.{
  Bytes, Kind, Option, OptionAll, Read, Runs, Text, Wire, [], eqb, field, if◌then◌else◌, message,
  none, on, optional, optional-Runs, refl, some, text_field, unknown, unless, ℕ, ◌++◌, ◌==◌, ◌>>◌,
}
use collab_notes_ecs.Proto.Google.Dates.{Date, date}
use collab_notes_ecs.Proto.UserService.UserSessionClientInfo.{
  UserSessionClientInfo, user_session_client_info,
}

pub record UserSession : Type 0 where
  pub name : Text
  pub session_id : Text
  pub create_time : Option Date
  pub last_accessed_time : Option Date
  pub client_info : Option UserSessionClientInfo

abbrev pub base : UserSession
base = record {
  name = [];
  session_id = [];
  create_time = none;
  last_accessed_time = none;
  client_info = none;
}

module _ (wire : Wire) where
  unfoldable pub encode : UserSession → Bytes
  encode m =
      unless wire (m.name == []) (field wire 10 wire.string m.name)
      ++ unless wire (m.session_id == []) (field wire 18 wire.string m.session_id)
      ++ optional wire 26 (date wire) m.create_time
      ++ optional wire 34 (date wire) m.last_accessed_time
      ++ optional wire 42 (user_session_client_info wire) m.client_info

  unfoldable pub switch : ℕ → UserSession → Bytes → Read UserSession
  switch tag m bytes =
      if eqb tag 10
      then on (wire.string.get bytes) (λ v. record m { name = v })
      else if eqb tag 18
      then on (wire.string.get bytes) (λ v. record m { session_id = v })
      else if eqb tag 26
      then on ((date wire).get bytes) (λ v. record m { create_time = some v })
      else if eqb tag 34
      then on ((date wire).get bytes) (λ v. record m { last_accessed_time = some v })
      else if eqb tag 42
      then on ((user_session_client_info wire).get bytes) (λ v. record m { client_info = some v })
      else unknown

  abbrev pub Valid : UserSession → Type 0
  Valid m =
      wire.string.Valid m.name
      × wire.string.Valid m.session_id
      × OptionAll (date wire).Valid m.create_time
      × OptionAll (date wire).Valid m.last_accessed_time
      × OptionAll (user_session_client_info wire).Valid m.client_info

  pub encode-Runs : (m : UserSession) → Valid m → Runs wire switch base (encode m) m
  unfolding encode switch
  encode-Runs m valid =
      let m2 : UserSession = record base { name = m.name; session_id = m.session_id } in
      let m3 : UserSession = record m2 { create_time = m.create_time } in
      let m4 : UserSession = record m3 { last_accessed_time = m.last_accessed_time } in
      text_field wire switch 10 refl _ (λ bytes. refl) refl m.name valid.0
      >> text_field wire switch 18 refl _ (λ bytes. refl) refl m.session_id valid.1
      >> optional-Runs wire switch 26 refl (date wire) (λ v. record m2 { create_time = v })
          (λ bytes. refl) refl m.create_time valid.2
      >> optional-Runs wire switch 34 refl (date wire) (λ v. record m3 { last_accessed_time = v })
          (λ bytes. refl) refl m.last_accessed_time valid.3
      >> optional-Runs wire switch 42 refl (user_session_client_info wire)
          (λ v. record m4 { client_info = v }) (λ bytes. refl) refl m.client_info valid.4

  unfoldable pub user_session : Kind UserSession
  user_session = message wire switch base encode Valid encode-Runs
