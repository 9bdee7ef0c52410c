-- ===== src/Proto/Google/FieldMask.antt =====
-- The message `FieldMask` of app/web/src/types/proto/google/protobuf/field_mask.ts.
use collab_notes_ecs.Proto.Codec.{
  All, Bytes, Kind, List, Read, Runs, Text, Wire, [], eqb, if◌then◌else◌, message, on, refl,
  repeated, repeated-Runs, unknown, ℕ, ◌++◌, ◌∷◌,
}

pub record FieldMask : Type 0 where
  pub paths : List Text

abbrev pub base : FieldMask
base = record { paths = [] }

module _ (wire : Wire) where
  unfoldable pub encode : FieldMask → Bytes
  encode m = repeated wire 10 wire.string m.paths

  unfoldable pub switch : ℕ → FieldMask → Bytes → Read FieldMask
  switch tag m bytes =
      if eqb tag 10
      then on (wire.string.get bytes) (λ v. record m { paths = m.paths ++ (v ∷ []) })
      else unknown

  abbrev pub Valid : FieldMask → Type 0
  Valid m = All wire.string.Valid m.paths

  pub encode-Runs : (m : FieldMask) → Valid m → Runs wire switch base (encode m) m
  unfolding encode switch
  encode-Runs m valid =
      repeated-Runs wire switch 10 refl wire.string (λ v. record base { paths = v })
        (λ vs bytes. refl) refl m.paths valid

  unfoldable pub field_mask_message : Kind FieldMask
  field_mask_message = message wire switch base encode Valid encode-Runs
