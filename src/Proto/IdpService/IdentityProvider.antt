-- ===== src/Proto/IdpService/IdentityProvider.antt =====
-- The message `IdentityProvider` of app/web/src/types/proto/api/v1/idp_service.ts.
use collab_notes_ecs.Proto.Codec.{
  Bytes, Kind, Option, OptionAll, Read, Runs, Text, Wire, [], enum_field, eqb, field, if◌then◌else◌,
  message, none, on, optional, optional-Runs, refl, some, text_field, unknown, unless, ℕ, ◌++◌,
  ◌==◌, ◌>>◌,
}
use collab_notes_ecs.Proto.IdpService.IdentityProviderType.{
  IdentityProviderType, eq_of_is_type_unspecified, identity_provider_type,
  identity_provider_type-Valid, is_type_unspecified,
}
use collab_notes_ecs.Proto.IdpService.IdentityProviderConfig.{
  IdentityProviderConfig, identity_provider_config,
}

pub record IdentityProvider : Type 0 where
  pub name : Text
  pub type : IdentityProviderType
  pub title : Text
  pub identifier_filter : Text
  pub config : Option IdentityProviderConfig

abbrev pub base : IdentityProvider
base = record {
  name = [];
  type = IdentityProviderType.type_unspecified;
  title = [];
  identifier_filter = [];
  config = none;
}

module _ (wire : Wire) where
  unfoldable pub encode : IdentityProvider → Bytes
  encode m =
      unless wire (m.name == []) (field wire 10 wire.string m.name)
      ++ unless wire (is_type_unspecified m.type)
          (field wire 16 (identity_provider_type wire) m.type)
      ++ unless wire (m.title == []) (field wire 26 wire.string m.title)
      ++ unless wire (m.identifier_filter == []) (field wire 34 wire.string m.identifier_filter)
      ++ optional wire 42 (identity_provider_config wire) m.config

  unfoldable pub switch : ℕ → IdentityProvider → Bytes → Read IdentityProvider
  switch tag m bytes =
      if eqb tag 10
      then on (wire.string.get bytes) (λ v. record m { name = v })
      else if eqb tag 16
      then on ((identity_provider_type wire).get bytes) (λ v. record m { type = v })
      else if eqb tag 26
      then on (wire.string.get bytes) (λ v. record m { title = v })
      else if eqb tag 34
      then on (wire.string.get bytes) (λ v. record m { identifier_filter = v })
      else if eqb tag 42
      then on ((identity_provider_config wire).get bytes) (λ v. record m { config = some v })
      else unknown

  abbrev pub Valid : IdentityProvider → Type 0
  Valid m =
      wire.string.Valid m.name
      × wire.string.Valid m.title
      × wire.string.Valid m.identifier_filter
      × OptionAll (identity_provider_config wire).Valid m.config

  pub encode-Runs : (m : IdentityProvider) → Valid m → Runs wire switch base (encode m) m
  unfolding encode switch
  encode-Runs m valid =
      let m4 : IdentityProvider = record base {
        name = m.name;
        type = m.type;
        title = m.title;
        identifier_filter = m.identifier_filter;
      } in
      text_field wire switch 10 refl _ (λ bytes. refl) refl m.name valid.0
      >> enum_field wire switch 16 refl (identity_provider_type wire) is_type_unspecified _
          eq_of_is_type_unspecified _ (λ bytes. refl) refl m.type
          (identity_provider_type-Valid wire m.type)
      >> text_field wire switch 26 refl _ (λ bytes. refl) refl m.title valid.1
      >> text_field wire switch 34 refl _ (λ bytes. refl) refl m.identifier_filter valid.2
      >> optional-Runs wire switch 42 refl (identity_provider_config wire)
          (λ v. record m4 { config = v }) (λ bytes. refl) refl m.config valid.3

  unfoldable pub identity_provider : Kind IdentityProvider
  identity_provider = message wire switch base encode Valid encode-Runs
