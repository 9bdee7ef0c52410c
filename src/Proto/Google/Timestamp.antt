-- ===== src/Proto/Google/Timestamp.antt =====
-- The message `Timestamp` of app/web/src/types/proto/google/protobuf/timestamp.ts.
use collab_notes_ecs.Proto.Codec.{
  Bytes, IsInt32, IsSafe, Kind, Read, Runs, Wire, eqb, eqz, field, if◌then◌else◌, int32, int64,
  message, number_field, on, pos, refl, unknown, unless, ℕ, ℤ, ◌++◌, ◌>>◌,
}

pub record Timestamp : Type 0 where
  pub seconds : ℤ
  pub nanos : ℤ

abbrev pub base : Timestamp
base = record { seconds = pos 0; nanos = pos 0 }

module _ (wire : Wire) where
  unfoldable pub encode : Timestamp → Bytes
  encode m =
      unless wire (eqz m.seconds (pos 0)) (field wire 8 (int64 wire) m.seconds)
      ++ unless wire (eqz m.nanos (pos 0)) (field wire 16 (int32 wire) m.nanos)

  unfoldable pub switch : ℕ → Timestamp → Bytes → Read Timestamp
  switch tag m bytes =
      if eqb tag 8
      then on ((int64 wire).get bytes) (λ v. record m { seconds = v })
      else if eqb tag 16
      then on ((int32 wire).get bytes) (λ v. record m { nanos = v })
      else unknown

  abbrev pub Valid : Timestamp → Type 0
  Valid m = IsSafe m.seconds × IsInt32 m.nanos

  pub encode-Runs : (m : Timestamp) → Valid m → Runs wire switch base (encode m) m
  unfolding encode switch
  encode-Runs m valid =
      number_field wire switch 8 refl (int64 wire) _ (λ bytes. refl) refl m.seconds valid.0
      >> number_field wire switch 16 refl (int32 wire) _ (λ bytes. refl) refl m.nanos valid.1

  unfoldable pub timestamp : Kind Timestamp
  timestamp = message wire switch base encode Valid encode-Runs
