-- ===== src/Proto/UserService/UserStats.antt =====
-- The message `UserStats` of app/web/src/types/proto/api/v1/user_service.ts, whose `tagCount` is an object.
use collab_notes_ecs.Proto.Codec.{
  All, Bytes, Kind, List, Option, OptionAll, Read, Runs, Text, Wire, [], eqb, eqz, field,
  if◌then◌else◌, int32, IsInt32, message, decode_with, none, number_field, on, optional,
  optional-Runs, pos, refl, repeated, repeated-Runs, some, text_field, unknown, unless, ℕ, ℤ, ◌++◌,
  ◌==◌, ◌>>◌, ◌∷◌,
}
use collab_notes_ecs.Base.{map}
use collab_notes_ecs.Base.Dict.{Dict, put}
use collab_notes_ecs.Proto.Maps.{IsFresh, entries-Runs}
use collab_notes_ecs.Proto.Google.Dates.{Date, date}
use collab_notes_ecs.Proto.UserService.UserStatsMemoTypeStats.{
  UserStatsMemoTypeStats, user_stats_memo_type_stats,
}
use collab_notes_ecs.Proto.UserService.UserStatsTagCountEntry.{
  UserStatsTagCountEntry, user_stats_tag_count_entry,
}

pub record UserStats : Type 0 where
  pub name : Text
  pub memo_display_timestamps : List Date
  pub memo_type_stats : Option UserStatsMemoTypeStats
  pub tag_count : Dict ℤ
  pub pinned_memos : List Text
  pub total_memo_count : ℤ

abbrev pub base : UserStats
base = record {
  name = [];
  memo_display_timestamps = [];
  memo_type_stats = none;
  tag_count = [];
  pinned_memos = [];
  total_memo_count = pos 0;
}

-- `{ key, value }` of an entry of `Object.entries`
abbrev pub to_entry : (Text × ℤ) → UserStatsTagCountEntry
to_entry e = record { key = e.0; value = e.1 }

module _ (wire : Wire) where
  unfoldable pub encode : UserStats → Bytes
  encode m =
      unless wire (m.name == []) (field wire 10 wire.string m.name)
      ++ repeated wire 18 (date wire) m.memo_display_timestamps
      ++ optional wire 26 (user_stats_memo_type_stats wire) m.memo_type_stats
      ++ repeated wire 34 (user_stats_tag_count_entry wire) (map to_entry m.tag_count)
      ++ repeated wire 42 wire.string m.pinned_memos
      ++ unless wire (eqz m.total_memo_count (pos 0))
          (field wire 48 (int32 wire) m.total_memo_count)

  -- The value of an entry is never undefined: it starts as zero.
  unfoldable pub switch : ℕ → UserStats → Bytes → Read UserStats
  switch tag m bytes =
      if eqb tag 10
      then on (wire.string.get bytes) (λ v. record m { name = v })
      else if eqb tag 18
      then on ((date wire).get bytes)
          (λ v. record m { memo_display_timestamps = m.memo_display_timestamps ++ (v ∷ []) })
      else if eqb tag 26
      then on ((user_stats_memo_type_stats wire).get bytes)
          (λ v. record m { memo_type_stats = some v })
      else if eqb tag 34
      then on ((user_stats_tag_count_entry wire).get bytes)
          (λ entry. record m { tag_count = put m.tag_count entry.key entry.value })
      else if eqb tag 42
      then on (wire.string.get bytes) (λ v. record m { pinned_memos = m.pinned_memos ++ (v ∷ []) })
      else if eqb tag 48
      then on ((int32 wire).get bytes) (λ v. record m { total_memo_count = v })
      else unknown

  abbrev pub Valid : UserStats → Type 0
  Valid m =
      wire.string.Valid m.name
      × All (date wire).Valid m.memo_display_timestamps
      × OptionAll (user_stats_memo_type_stats wire).Valid m.memo_type_stats
      × IsFresh [] m.tag_count
      × All (user_stats_tag_count_entry wire).Valid (map to_entry m.tag_count)
      × All wire.string.Valid m.pinned_memos
      × IsInt32 m.total_memo_count

  pub encode-Runs : (m : UserStats) → Valid m → Runs wire switch base (encode m) m
  unfolding encode switch
  encode-Runs m valid =
      let m1 : UserStats = record base { name = m.name } in
      let m2 : UserStats = record m1 { memo_display_timestamps = m.memo_display_timestamps } in
      let m3 : UserStats = record m2 { memo_type_stats = m.memo_type_stats } in
      let m4 : UserStats = record m3 { tag_count = m.tag_count } in
      text_field wire switch 10 refl _ (λ bytes. refl) refl m.name valid.0
      >> repeated-Runs wire switch 18 refl (date wire)
          (λ v. record m1 { memo_display_timestamps = v }) (λ vs bytes. refl) refl
          m.memo_display_timestamps valid.1
      >> optional-Runs wire switch 26 refl (user_stats_memo_type_stats wire)
          (λ v. record m2 { memo_type_stats = v }) (λ bytes. refl) refl m.memo_type_stats valid.2
      >> entries-Runs wire switch 34 refl (user_stats_tag_count_entry wire) to_entry
          (λ entry. entry.key) (λ entry. entry.value) (λ e. refl) (λ e. refl)
          (λ v. record m3 { tag_count = v }) (λ vs bytes. refl) [] m.tag_count valid.3 valid.4
      >> repeated-Runs wire switch 42 refl wire.string (λ v. record m4 { pinned_memos = v })
          (λ vs bytes. refl) refl m.pinned_memos valid.5
      >> number_field wire switch 48 refl (int32 wire) _ (λ bytes. refl) refl m.total_memo_count
          valid.6

  unfoldable pub user_stats : Kind UserStats
  user_stats = message wire switch base encode Valid encode-Runs

  unfoldable pub decode : Bytes → Option UserStats
  decode = decode_with wire switch base
