-- ===== src/Proto/UserService/UserStatsMemoTypeStats.antt =====
-- The message `UserStats_MemoTypeStats` of app/web/src/types/proto/api/v1/user_service.ts.
use collab_notes_ecs.Proto.Codec.{
  Bytes, IsInt32, Kind, Read, Runs, Wire, eqb, eqz, field, if◌then◌else◌, int32, message,
  number_field, on, pos, refl, unknown, unless, ℕ, ℤ, ◌++◌, ◌>>◌,
}

pub record UserStatsMemoTypeStats : Type 0 where
  pub link_count : ℤ
  pub code_count : ℤ
  pub todo_count : ℤ
  pub undo_count : ℤ

abbrev pub base : UserStatsMemoTypeStats
base = record { link_count = pos 0; code_count = pos 0; todo_count = pos 0; undo_count = pos 0 }

module _ (wire : Wire) where
  unfoldable pub encode : UserStatsMemoTypeStats → Bytes
  encode m =
      unless wire (eqz m.link_count (pos 0)) (field wire 8 (int32 wire) m.link_count)
      ++ unless wire (eqz m.code_count (pos 0)) (field wire 16 (int32 wire) m.code_count)
      ++ unless wire (eqz m.todo_count (pos 0)) (field wire 24 (int32 wire) m.todo_count)
      ++ unless wire (eqz m.undo_count (pos 0)) (field wire 32 (int32 wire) m.undo_count)

  unfoldable pub switch : ℕ → UserStatsMemoTypeStats → Bytes → Read UserStatsMemoTypeStats
  switch tag m bytes =
      if eqb tag 8
      then on ((int32 wire).get bytes) (λ v. record m { link_count = v })
      else if eqb tag 16
      then on ((int32 wire).get bytes) (λ v. record m { code_count = v })
      else if eqb tag 24
      then on ((int32 wire).get bytes) (λ v. record m { todo_count = v })
      else if eqb tag 32
      then on ((int32 wire).get bytes) (λ v. record m { undo_count = v })
      else unknown

  abbrev pub Valid : UserStatsMemoTypeStats → Type 0
  Valid m =
      IsInt32 m.link_count × IsInt32 m.code_count × IsInt32 m.todo_count × IsInt32 m.undo_count

  pub encode-Runs : (m : UserStatsMemoTypeStats) → Valid m → Runs wire switch base (encode m) m
  unfolding encode switch
  encode-Runs m valid =
      number_field wire switch 8 refl (int32 wire) _ (λ bytes. refl) refl m.link_count valid.0
      >> number_field wire switch 16 refl (int32 wire) _ (λ bytes. refl) refl m.code_count valid.1
      >> number_field wire switch 24 refl (int32 wire) _ (λ bytes. refl) refl m.todo_count valid.2
      >> number_field wire switch 32 refl (int32 wire) _ (λ bytes. refl) refl m.undo_count valid.3

  unfoldable pub user_stats_memo_type_stats : Kind UserStatsMemoTypeStats
  user_stats_memo_type_stats = message wire switch base encode Valid encode-Runs
