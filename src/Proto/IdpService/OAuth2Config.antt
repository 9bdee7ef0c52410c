-- ===== src/Proto/IdpService/OAuth2Config.antt =====
-- The message `OAuth2Config` of app/web/src/types/proto/api/v1/idp_service.ts.
use collab_notes_ecs.Proto.Codec.{
  All, Bytes, Kind, List, Option, OptionAll, Read, Runs, Text, Wire, [], eqb, field, if◌then◌else◌,
  message, none, on, optional, optional-Runs, refl, repeated, repeated-Runs, some, text_field,
  unknown, unless, ℕ, ◌++◌, ◌==◌, ◌>>◌, ◌∷◌,
}
use collab_notes_ecs.Proto.IdpService.FieldMapping.{FieldMapping, field_mapping}

pub record OAuth2Config : Type 0 where
  pub client_id : Text
  pub client_secret : Text
  pub auth_url : Text
  pub token_url : Text
  pub user_info_url : Text
  pub scopes : List Text
  pub field_mapping : Option FieldMapping

abbrev pub base : OAuth2Config
base = record {
  client_id = [];
  client_secret = [];
  auth_url = [];
  token_url = [];
  user_info_url = [];
  scopes = [];
  field_mapping = none;
}

module _ (wire : Wire) where
  unfoldable pub encode : OAuth2Config → Bytes
  encode m =
      unless wire (m.client_id == []) (field wire 10 wire.string m.client_id)
      ++ unless wire (m.client_secret == []) (field wire 18 wire.string m.client_secret)
      ++ unless wire (m.auth_url == []) (field wire 26 wire.string m.auth_url)
      ++ unless wire (m.token_url == []) (field wire 34 wire.string m.token_url)
      ++ unless wire (m.user_info_url == []) (field wire 42 wire.string m.user_info_url)
      ++ repeated wire 50 wire.string m.scopes
      ++ optional wire 58 (field_mapping wire) m.field_mapping

  unfoldable pub switch : ℕ → OAuth2Config → Bytes → Read OAuth2Config
  switch tag m bytes =
      if eqb tag 10
      then on (wire.string.get bytes) (λ v. record m { client_id = v })
      else if eqb tag 18
      then on (wire.string.get bytes) (λ v. record m { client_secret = v })
      else if eqb tag 26
      then on (wire.string.get bytes) (λ v. record m { auth_url = v })
      else if eqb tag 34
      then on (wire.string.get bytes) (λ v. record m { token_url = v })
      else if eqb tag 42
      then on (wire.string.get bytes) (λ v. record m { user_info_url = v })
      else if eqb tag 50
      then on (wire.string.get bytes) (λ v. record m { scopes = m.scopes ++ (v ∷ []) })
      else if eqb tag 58
      then on ((field_mapping wire).get bytes) (λ v. record m { field_mapping = some v })
      else unknown

  abbrev pub Valid : OAuth2Config → Type 0
  Valid m =
      wire.string.Valid m.client_id
      × wire.string.Valid m.client_secret
      × wire.string.Valid m.auth_url
      × wire.string.Valid m.token_url
      × wire.string.Valid m.user_info_url
      × All wire.string.Valid m.scopes
      × OptionAll (field_mapping wire).Valid m.field_mapping

  pub encode-Runs : (m : OAuth2Config) → Valid m → Runs wire switch base (encode m) m
  unfolding encode switch
  encode-Runs m valid =
      let m5 : OAuth2Config = record base {
        client_id = m.client_id;
        client_secret = m.client_secret;
        auth_url = m.auth_url;
        token_url = m.token_url;
        user_info_url = m.user_info_url;
      } in
      let m6 : OAuth2Config = record m5 { scopes = m.scopes } in
      text_field wire switch 10 refl _ (λ bytes. refl) refl m.client_id valid.0
      >> text_field wire switch 18 refl _ (λ bytes. refl) refl m.client_secret valid.1
      >> text_field wire switch 26 refl _ (λ bytes. refl) refl m.auth_url valid.2
      >> text_field wire switch 34 refl _ (λ bytes. refl) refl m.token_url valid.3
      >> text_field wire switch 42 refl _ (λ bytes. refl) refl m.user_info_url valid.4
      >> repeated-Runs wire switch 50 refl wire.string (λ v. record m5 { scopes = v })
          (λ vs bytes. refl) refl m.scopes valid.5
      >> optional-Runs wire switch 58 refl (field_mapping wire)
          (λ v. record m6 { field_mapping = v }) (λ bytes. refl) refl m.field_mapping valid.6

  unfoldable pub oauth2_config : Kind OAuth2Config
  oauth2_config = message wire switch base encode Valid encode-Runs
