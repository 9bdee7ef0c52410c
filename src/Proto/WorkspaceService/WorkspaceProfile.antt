-- ===== src/Proto/WorkspaceService/WorkspaceProfile.antt =====
-- The message `WorkspaceProfile` of app/web/src/types/proto/api/v1/workspace_service.ts.
use collab_notes_ecs.Proto.Codec.{
  Bytes, Kind, Read, Runs, Text, Wire, [], eqb, field, if◌then◌else◌, message, on, refl, text_field,
  unknown, unless, ℕ, ◌++◌, ◌==◌, ◌>>◌,
}

pub record WorkspaceProfile : Type 0 where
  pub owner : Text
  pub version : Text
  pub mode : Text
  pub instance_url : Text

abbrev pub base : WorkspaceProfile
base = record { owner = []; version = []; mode = []; instance_url = [] }

module _ (wire : Wire) where
  unfoldable pub encode : WorkspaceProfile → Bytes
  encode m =
      unless wire (m.owner == []) (field wire 10 wire.string m.owner)
      ++ unless wire (m.version == []) (field wire 18 wire.string m.version)
      ++ unless wire (m.mode == []) (field wire 26 wire.string m.mode)
      ++ unless wire (m.instance_url == []) (field wire 50 wire.string m.instance_url)

  unfoldable pub switch : ℕ → WorkspaceProfile → Bytes → Read WorkspaceProfile
  switch tag m bytes =
      if eqb tag 10
      then on (wire.string.get bytes) (λ v. record m { owner = v })
      else if eqb tag 18
      then on (wire.string.get bytes) (λ v. record m { version = v })
      else if eqb tag 26
      then on (wire.string.get bytes) (λ v. record m { mode = v })
      else if eqb tag 50
      then on (wire.string.get bytes) (λ v. record m { instance_url = v })
      else unknown

  abbrev pub Valid : WorkspaceProfile → Type 0
  Valid m =
      wire.string.Valid m.owner
      × wire.string.Valid m.version
      × wire.string.Valid m.mode
      × wire.string.Valid m.instance_url

  pub encode-Runs : (m : WorkspaceProfile) → Valid m → Runs wire switch base (encode m) m
  unfolding encode switch
  encode-Runs m valid =
      text_field wire switch 10 refl _ (λ bytes. refl) refl m.owner valid.0
      >> text_field wire switch 18 refl _ (λ bytes. refl) refl m.version valid.1
      >> text_field wire switch 26 refl _ (λ bytes. refl) refl m.mode valid.2
      >> text_field wire switch 50 refl _ (λ bytes. refl) refl m.instance_url valid.3

  unfoldable pub workspace_profile : Kind WorkspaceProfile
  workspace_profile = message wire switch base encode Valid encode-Runs
