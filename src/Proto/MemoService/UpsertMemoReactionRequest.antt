-- ===== src/Proto/MemoService/UpsertMemoReactionRequest.antt =====
-- The message `UpsertMemoReactionRequest` of app/web/src/types/proto/api/v1/memo_service.ts.
use collab_notes_ecs.Proto.Codec.{
  Bytes, Kind, Option, OptionAll, Read, Runs, Text, Wire, [], eqb, field, if◌then◌else◌, message,
  none, on, optional, optional-Runs, refl, some, text_field, unknown, unless, ℕ, ◌++◌, ◌==◌, ◌>>◌,
}
use collab_notes_ecs.Proto.MemoService.Reaction.{Reaction, reaction}

pub record UpsertMemoReactionRequest : Type 0 where
  pub name : Text
  pub reaction : Option Reaction

abbrev pub base : UpsertMemoReactionRequest
base = record { name = []; reaction = none }

module _ (wire : Wire) where
  unfoldable pub encode : UpsertMemoReactionRequest → Bytes
  encode m =
      unless wire (m.name == []) (field wire 10 wire.string m.name)
      ++ optional wire 18 (reaction wire) m.reaction

  unfoldable pub switch : ℕ → UpsertMemoReactionRequest → Bytes → Read UpsertMemoReactionRequest
  switch tag m bytes =
      if eqb tag 10
      then on (wire.string.get bytes) (λ v. record m { name = v })
      else if eqb tag 18
      then on ((reaction wire).get bytes) (λ v. record m { reaction = some v })
      else unknown

  abbrev pub Valid : UpsertMemoReactionRequest → Type 0
  Valid m = wire.string.Valid m.name × OptionAll (reaction wire).Valid m.reaction

  pub encode-Runs : (m : UpsertMemoReactionRequest) → Valid m → Runs wire switch base (encode m) m
  unfolding encode switch
  encode-Runs m valid =
      let m1 : UpsertMemoReactionRequest = record base { name = m.name } in
      text_field wire switch 10 refl _ (λ bytes. refl) refl m.name valid.0
      >> optional-Runs wire switch 18 refl (reaction wire) (λ v. record m1 { reaction = v })
          (λ bytes. refl) refl m.reaction valid.1

  unfoldable pub upsert_memo_reaction_request : Kind UpsertMemoReactionRequest
  upsert_memo_reaction_request = message wire switch base encode Valid encode-Runs
