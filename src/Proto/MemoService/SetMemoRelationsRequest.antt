-- ===== src/Proto/MemoService/SetMemoRelationsRequest.antt =====
-- The message `SetMemoRelationsRequest` of app/web/src/types/proto/api/v1/memo_service.ts.
use collab_notes_ecs.Proto.Codec.{
  All, Bytes, Kind, List, Read, Runs, Text, Wire, [], eqb, field, if◌then◌else◌, message, on, refl,
  repeated, repeated-Runs, text_field, unknown, unless, ℕ, ◌++◌, ◌==◌, ◌>>◌, ◌∷◌,
}
use collab_notes_ecs.Proto.MemoService.MemoRelation.{MemoRelation, memo_relation}

pub record SetMemoRelationsRequest : Type 0 where
  pub name : Text
  pub relations : List MemoRelation

abbrev pub base : SetMemoRelationsRequest
base = record { name = []; relations = [] }

module _ (wire : Wire) where
  unfoldable pub encode : SetMemoRelationsRequest → Bytes
  encode m =
      unless wire (m.name == []) (field wire 10 wire.string m.name)
      ++ repeated wire 18 (memo_relation wire) m.relations

  unfoldable pub switch : ℕ → SetMemoRelationsRequest → Bytes → Read SetMemoRelationsRequest
  switch tag m bytes =
      if eqb tag 10
      then on (wire.string.get bytes) (λ v. record m { name = v })
      else if eqb tag 18
      then on ((memo_relation wire).get bytes)
          (λ v. record m { relations = m.relations ++ (v ∷ []) })
      else unknown

  abbrev pub Valid : SetMemoRelationsRequest → Type 0
  Valid m = wire.string.Valid m.name × All (memo_relation wire).Valid m.relations

  pub encode-Runs : (m : SetMemoRelationsRequest) → Valid m → Runs wire switch base (encode m) m
  unfolding encode switch
  encode-Runs m valid =
      let m1 : SetMemoRelationsRequest = record base { name = m.name } in
      text_field wire switch 10 refl _ (λ bytes. refl) refl m.name valid.0
      >> repeated-Runs wire switch 18 refl (memo_relation wire) (λ v. record m1 { relations = v })
          (λ vs bytes. refl) refl m.relations valid.1

  unfoldable pub set_memo_relations_request : Kind SetMemoRelationsRequest
  set_memo_relations_request = message wire switch base encode Valid encode-Runs
