-- ===== src/Proto/MemoService/MemoRelationMemo.antt =====
-- The message `MemoRelation_Memo` of app/web/src/types/proto/api/v1/memo_service.ts.
use collab_notes_ecs.Proto.Codec.{
  Bytes, Kind, Read, Runs, Text, Wire, [], eqb, field, if◌then◌else◌, message, on, refl, text_field,
  unknown, unless, ℕ, ◌++◌, ◌==◌, ◌>>◌,
}

pub record MemoRelationMemo : Type 0 where
  pub name : Text
  pub snippet : Text

abbrev pub base : MemoRelationMemo
base = record { name = []; snippet = [] }

module _ (wire : Wire) where
  unfoldable pub encode : MemoRelationMemo → Bytes
  encode m =
      unless wire (m.name == []) (field wire 10 wire.string m.name)
      ++ unless wire (m.snippet == []) (field wire 18 wire.string m.snippet)

  unfoldable pub switch : ℕ → MemoRelationMemo → Bytes → Read MemoRelationMemo
  switch tag m bytes =
      if eqb tag 10
      then on (wire.string.get bytes) (λ v. record m { name = v })
      else if eqb tag 18
      then on (wire.string.get bytes) (λ v. record m { snippet = v })
      else unknown

  abbrev pub Valid : MemoRelationMemo → Type 0
  Valid m = wire.string.Valid m.name × wire.string.Valid m.snippet

  pub encode-Runs : (m : MemoRelationMemo) → Valid m → Runs wire switch base (encode m) m
  unfolding encode switch
  encode-Runs m valid =
      text_field wire switch 10 refl _ (λ bytes. refl) refl m.name valid.0
      >> text_field wire switch 18 refl _ (λ bytes. refl) refl m.snippet valid.1

  unfoldable pub memo_relation_memo : Kind MemoRelationMemo
  memo_relation_memo = message wire switch base encode Valid encode-Runs
