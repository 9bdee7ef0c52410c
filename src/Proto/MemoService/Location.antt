-- ===== src/Proto/MemoService/Location.antt =====
-- The message `Location` of app/web/src/types/proto/api/v1/memo_service.ts.
use collab_notes_ecs.Proto.Codec.{
  Bytes, IsNotNegativeZero, Kind, Read, Runs, Text, Wire, [], double_field, eqb, field,
  if◌then◌else◌, is_zero, message, on, refl, text_field, unknown, unless, ℕ, ◌++◌, ◌==◌, ◌>>◌,
}

pub record Location : Type 0 where
  pub placeholder : Text
  pub latitude : ℕ
  pub longitude : ℕ

abbrev pub base : Location
base = record { placeholder = []; latitude = 0; longitude = 0 }

module _ (wire : Wire) where
  unfoldable pub encode : Location → Bytes
  encode m =
      unless wire (m.placeholder == []) (field wire 10 wire.string m.placeholder)
      ++ unless wire (is_zero m.latitude) (field wire 17 wire.double m.latitude)
      ++ unless wire (is_zero m.longitude) (field wire 25 wire.double m.longitude)

  unfoldable pub switch : ℕ → Location → Bytes → Read Location
  switch tag m bytes =
      if eqb tag 10
      then on (wire.string.get bytes) (λ v. record m { placeholder = v })
      else if eqb tag 17
      then on (wire.double.get bytes) (λ v. record m { latitude = v })
      else if eqb tag 25
      then on (wire.double.get bytes) (λ v. record m { longitude = v })
      else unknown

  abbrev pub Valid : Location → Type 0
  Valid m =
      wire.string.Valid m.placeholder
      × IsNotNegativeZero m.latitude
      × wire.double.Valid m.latitude
      × IsNotNegativeZero m.longitude
      × wire.double.Valid m.longitude

  pub encode-Runs : (m : Location) → Valid m → Runs wire switch base (encode m) m
  unfolding encode switch
  encode-Runs m valid =
      text_field wire switch 10 refl _ (λ bytes. refl) refl m.placeholder valid.0
      >> double_field wire switch 17 refl _ (λ bytes. refl) refl m.latitude valid.1 valid.2
      >> double_field wire switch 25 refl _ (λ bytes. refl) refl m.longitude valid.3 valid.4

  unfoldable pub location : Kind Location
  location = message wire switch base encode Valid encode-Runs
