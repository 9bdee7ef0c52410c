-- ===== src/Proto/IdpService/FieldMapping.antt =====
-- The message `FieldMapping` of app/web/src/types/proto/api/v1/idp_service.ts.
use collab_notes_ecs.Proto.Codec.{
  Bytes, Kind, Read, Runs, Text, Wire, [], eqb, field, if◌then◌else◌, message, on, refl, text_field,
  unknown, unless, ℕ, ◌++◌, ◌==◌, ◌>>◌,
}

pub record FieldMapping : Type 0 where
  pub identifier : Text
  pub display_name : Text
  pub email : Text
  pub avatar_url : Text

abbrev pub base : FieldMapping
base = record { identifier = []; display_name = []; email = []; avatar_url = [] }

module _ (wire : Wire) where
  unfoldable pub encode : FieldMapping → Bytes
  encode m =
      unless wire (m.identifier == []) (field wire 10 wire.string m.identifier)
      ++ unless wire (m.display_name == []) (field wire 18 wire.string m.display_name)
      ++ unless wire (m.email == []) (field wire 26 wire.string m.email)
      ++ unless wire (m.avatar_url == []) (field wire 34 wire.string m.avatar_url)

  unfoldable pub switch : ℕ → FieldMapping → Bytes → Read FieldMapping
  switch tag m bytes =
      if eqb tag 10
      then on (wire.string.get bytes) (λ v. record m { identifier = v })
      else if eqb tag 18
      then on (wire.string.get bytes) (λ v. record m { display_name = v })
      else if eqb tag 26
      then on (wire.string.get bytes) (λ v. record m { email = v })
      else if eqb tag 34
      then on (wire.string.get bytes) (λ v. record m { avatar_url = v })
      else unknown

  abbrev pub Valid : FieldMapping → Type 0
  Valid m =
      wire.string.Valid m.identifier
      × wire.string.Valid m.display_name
      × wire.string.Valid m.email
      × wire.string.Valid m.avatar_url

  pub encode-Runs : (m : FieldMapping) → Valid m → Runs wire switch base (encode m) m
  unfolding encode switch
  encode-Runs m valid =
      text_field wire switch 10 refl _ (λ bytes. refl) refl m.identifier valid.0
      >> text_field wire switch 18 refl _ (λ bytes. refl) refl m.display_name valid.1
      >> text_field wire switch 26 refl _ (λ bytes. refl) refl m.email valid.2
      >> text_field wire switch 34 refl _ (λ bytes. refl) refl m.avatar_url valid.3

  unfoldable pub field_mapping : Kind FieldMapping
  field_mapping = message wire switch base encode Valid encode-Runs
