-- ===== src/Proto/IdpService/IdentityProviderConfig.antt =====
-- The message `IdentityProviderConfig` of app/web/src/types/proto/api/v1/idp_service.ts.
use collab_notes_ecs.Proto.Codec.{
  Bytes, Kind, Option, OptionAll, Read, Runs, Wire, eqb, if◌then◌else◌, message, none, on, optional,
  optional-Runs, refl, some, unknown, ℕ,
}
use collab_notes_ecs.Proto.IdpService.OAuth2Config.{OAuth2Config, oauth2_config}

pub record IdentityProviderConfig : Type 0 where
  pub oauth2_config : Option OAuth2Config

abbrev pub base : IdentityProviderConfig
base = record { oauth2_config = none }

module _ (wire : Wire) where
  unfoldable pub encode : IdentityProviderConfig → Bytes
  encode m = optional wire 10 (oauth2_config wire) m.oauth2_config

  unfoldable pub switch : ℕ → IdentityProviderConfig → Bytes → Read IdentityProviderConfig
  switch tag m bytes =
      if eqb tag 10
      then on ((oauth2_config wire).get bytes) (λ v. record m { oauth2_config = some v })
      else unknown

  abbrev pub Valid : IdentityProviderConfig → Type 0
  Valid m = OptionAll (oauth2_config wire).Valid m.oauth2_config

  pub encode-Runs : (m : IdentityProviderConfig) → Valid m → Runs wire switch base (encode m) m
  unfolding encode switch
  encode-Runs m valid =
      optional-Runs wire switch 10 refl (oauth2_config wire)
        (λ v. record base { oauth2_config = v }) (λ bytes. refl) refl m.oauth2_config valid

  unfoldable pub identity_provider_config : Kind IdentityProviderConfig
  identity_provider_config = message wire switch base encode Valid encode-Runs
