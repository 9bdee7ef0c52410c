-- ===== src/Proto/UserService/UserAccessToken.antt =====
-- The message `UserAccessToken` of app/web/src/types/proto/api/v1/user_service.ts.
use collab_notes_ecs.Proto.Codec.{
  Bytes, Kind, Option, OptionAll, Read, Runs, Text, Wire, [], eqb, field, if◌then◌else◌, message,
  none, on, optional, optional-Runs, refl, some, text_field, unknown, unless, ℕ, ◌++◌, ◌==◌, ◌>>◌,
}
use collab_notes_ecs.Proto.Google.Dates.{Date, date}

pub record UserAccessToken : Type 0 where
  pub name : Text
  pub access_token : Text
  pub description : Text
  pub issued_at : Option Date
  pub expires_at : Option Date

abbrev pub base : UserAccessToken
base = record {
  name = [];
  access_token = [];
  description = [];
  issued_at = none;
  expires_at = none;
}

module _ (wire : Wire) where
  unfoldable pub encode : UserAccessToken → Bytes
  encode m =
      unless wire (m.name == []) (field wire 10 wire.string m.name)
      ++ unless wire (m.access_token == []) (field wire 18 wire.string m.access_token)
      ++ unless wire (m.description == []) (field wire 26 wire.string m.description)
      ++ optional wire 34 (date wire) m.issued_at
      ++ optional wire 42 (date wire) m.expires_at

  unfoldable pub switch : ℕ → UserAccessToken → Bytes → Read UserAccessToken
  switch tag m bytes =
      if eqb tag 10
      then on (wire.string.get bytes) (λ v. record m { name = v })
      else if eqb tag 18
      then on (wire.string.get bytes) (λ v. record m { access_token = v })
      else if eqb tag 26
      then on (wire.string.get bytes) (λ v. record m { description = v })
      else if eqb tag 34
      then on ((date wire).get bytes) (λ v. record m { issued_at = some v })
      else if eqb tag 42
      then on ((date wire).get bytes) (λ v. record m { expires_at = some v })
      else unknown

  abbrev pub Valid : UserAccessToken → Type 0
  Valid m =
      wire.string.Valid m.name
      × wire.string.Valid m.access_token
      × wire.string.Valid m.description
      × OptionAll (date wire).Valid m.issued_at
      × OptionAll (date wire).Valid m.expires_at

  pub encode-Runs : (m : UserAccessToken) → Valid m → Runs wire switch base (encode m) m
  unfolding encode switch
  encode-Runs m valid =
      let m3 : UserAccessToken = record base {
        name = m.name;
        access_token = m.access_token;
        description = m.description;
      } in
      let m4 : UserAccessToken = record m3 { issued_at = m.issued_at } in
      text_field wire switch 10 refl _ (λ bytes. refl) refl m.name valid.0
      >> text_field wire switch 18 refl _ (λ bytes. refl) refl m.access_token valid.1
      >> text_field wire switch 26 refl _ (λ bytes. refl) refl m.description valid.2
      >> optional-Runs wire switch 34 refl (date wire) (λ v. record m3 { issued_at = v })
          (λ bytes. refl) refl m.issued_at valid.3
      >> optional-Runs wire switch 42 refl (date wire) (λ v. record m4 { expires_at = v })
          (λ bytes. refl) refl m.expires_at valid.4

  unfoldable pub user_access_token : Kind UserAccessToken
  user_access_token = message wire switch base encode Valid encode-Runs
