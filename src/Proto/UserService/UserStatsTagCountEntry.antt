-- ===== src/Proto/UserService/UserStatsTagCountEntry.antt =====
-- The message `UserStats_TagCountEntry` of app/web/src/types/proto/api/v1/user_service.ts.
use collab_notes_ecs.Proto.Codec.{
  Bytes, IsInt32, Kind, Read, Runs, Text, Wire, [], eqb, eqz, field, if◌then◌else◌, int32, message,
  number_field, on, pos, refl, text_field, unknown, unless, ℕ, ℤ, ◌++◌, ◌==◌, ◌>>◌,
}

pub record UserStatsTagCountEntry : Type 0 where
  pub key : Text
  pub value : ℤ

abbrev pub base : UserStatsTagCountEntry
base = record { key = []; value = pos 0 }

module _ (wire : Wire) where
  unfoldable pub encode : UserStatsTagCountEntry → Bytes
  encode m =
      unless wire (m.key == []) (field wire 10 wire.string m.key)
      ++ unless wire (eqz m.value (pos 0)) (field wire 16 (int32 wire) m.value)

  unfoldable pub switch : ℕ → UserStatsTagCountEntry → Bytes → Read UserStatsTagCountEntry
  switch tag m bytes =
      if eqb tag 10
      then on (wire.string.get bytes) (λ v. record m { key = v })
      else if eqb tag 16
      then on ((int32 wire).get bytes) (λ v. record m { value = v })
      else unknown

  abbrev pub Valid : UserStatsTagCountEntry → Type 0
  Valid m = wire.string.Valid m.key × IsInt32 m.value

  pub encode-Runs : (m : UserStatsTagCountEntry) → Valid m → Runs wire switch base (encode m) m
  unfolding encode switch
  encode-Runs m valid =
      text_field wire switch 10 refl _ (λ bytes. refl) refl m.key valid.0
      >> number_field wire switch 16 refl (int32 wire) _ (λ bytes. refl) refl m.value valid.1

  unfoldable pub user_stats_tag_count_entry : Kind UserStatsTagCountEntry
  user_stats_tag_count_entry = message wire switch base encode Valid encode-Runs
