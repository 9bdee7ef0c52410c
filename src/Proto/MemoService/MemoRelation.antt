-- ===== src/Proto/MemoService/MemoRelation.antt =====
-- The message `MemoRelation` of app/web/src/types/proto/api/v1/memo_service.ts.
use collab_notes_ecs.Proto.Codec.{
  Bytes, Kind, Option, OptionAll, Read, Runs, Wire, enum_field, eqb, field, if◌then◌else◌, message,
  none, on, optional, optional-Runs, refl, some, unknown, unless, ℕ, ◌++◌, ◌>>◌,
}
use collab_notes_ecs.Proto.MemoService.MemoRelationMemo.{MemoRelationMemo, memo_relation_memo}
use collab_notes_ecs.Proto.MemoService.MemoRelationType.{
  MemoRelationType, eq_of_is_type_unspecified, is_type_unspecified, memo_relation_type,
  memo_relation_type-Valid,
}

pub record MemoRelation : Type 0 where
  pub memo : Option MemoRelationMemo
  pub related_memo : Option MemoRelationMemo
  pub type : MemoRelationType

abbrev pub base : MemoRelation
base = record { memo = none; related_memo = none; type = MemoRelationType.type_unspecified }

module _ (wire : Wire) where
  unfoldable pub encode : MemoRelation → Bytes
  encode m =
      optional wire 10 (memo_relation_memo wire) m.memo
      ++ optional wire 18 (memo_relation_memo wire) m.related_memo
      ++ unless wire (is_type_unspecified m.type) (field wire 24 (memo_relation_type wire) m.type)

  unfoldable pub switch : ℕ → MemoRelation → Bytes → Read MemoRelation
  switch tag m bytes =
      if eqb tag 10
      then on ((memo_relation_memo wire).get bytes) (λ v. record m { memo = some v })
      else if eqb tag 18
      then on ((memo_relation_memo wire).get bytes) (λ v. record m { related_memo = some v })
      else if eqb tag 24
      then on ((memo_relation_type wire).get bytes) (λ v. record m { type = v })
      else unknown

  abbrev pub Valid : MemoRelation → Type 0
  Valid m =
      OptionAll (memo_relation_memo wire).Valid m.memo
      × OptionAll (memo_relation_memo wire).Valid m.related_memo

  pub encode-Runs : (m : MemoRelation) → Valid m → Runs wire switch base (encode m) m
  unfolding encode switch
  encode-Runs m valid =
      let m1 : MemoRelation = record base { memo = m.memo } in
      optional-Runs wire switch 10 refl (memo_relation_memo wire) (λ v. record base { memo = v })
        (λ bytes. refl) refl m.memo valid.0
      >> optional-Runs wire switch 18 refl (memo_relation_memo wire)
          (λ v. record m1 { related_memo = v }) (λ bytes. refl) refl m.related_memo valid.1
      >> enum_field wire switch 24 refl (memo_relation_type wire) is_type_unspecified _
          eq_of_is_type_unspecified _ (λ bytes. refl) refl m.type
          (memo_relation_type-Valid wire m.type)

  unfoldable pub memo_relation : Kind MemoRelation
  memo_relation = message wire switch base encode Valid encode-Runs
