-- ===== src/Proto/MemoService/ListMemoReactionsResponse.antt =====
-- The message `ListMemoReactionsResponse` of app/web/src/types/proto/api/v1/memo_service.ts.
use collab_notes_ecs.Proto.Codec.{
  All, Bytes, IsInt32, Kind, List, Read, Runs, Text, Wire, [], eqb, eqz, field, if◌then◌else◌,
  int32, message, number_field, on, pos, refl, repeated, repeated-Runs, text_field, unknown, unless,
  ℕ, ℤ, ◌++◌, ◌==◌, ◌>>◌, ◌∷◌,
}
use collab_notes_ecs.Proto.MemoService.Reaction.{Reaction, reaction}

pub record ListMemoReactionsResponse : Type 0 where
  pub reactions : List Reaction
  pub next_page_token : Text
  pub total_size : ℤ

abbrev pub base : ListMemoReactionsResponse
base = record { reactions = []; next_page_token = []; total_size = pos 0 }

module _ (wire : Wire) where
  unfoldable pub encode : ListMemoReactionsResponse → Bytes
  encode m =
      repeated wire 10 (reaction wire) m.reactions
      ++ unless wire (m.next_page_token == []) (field wire 18 wire.string m.next_page_token)
      ++ unless wire (eqz m.total_size (pos 0)) (field wire 24 (int32 wire) m.total_size)

  unfoldable pub switch : ℕ → ListMemoReactionsResponse → Bytes → Read ListMemoReactionsResponse
  switch tag m bytes =
      if eqb tag 10
      then on ((reaction wire).get bytes) (λ v. record m { reactions = m.reactions ++ (v ∷ []) })
      else if eqb tag 18
      then on (wire.string.get bytes) (λ v. record m { next_page_token = v })
      else if eqb tag 24
      then on ((int32 wire).get bytes) (λ v. record m { total_size = v })
      else unknown

  abbrev pub Valid : ListMemoReactionsResponse → Type 0
  Valid m =
      All (reaction wire).Valid m.reactions
      × wire.string.Valid m.next_page_token
      × IsInt32 m.total_size

  pub encode-Runs : (m : ListMemoReactionsResponse) → Valid m → Runs wire switch base (encode m) m
  unfolding encode switch
  encode-Runs m valid =
      repeated-Runs wire switch 10 refl (reaction wire) (λ v. record base { reactions = v })
        (λ vs bytes. refl) refl m.reactions valid.0
      >> text_field wire switch 18 refl _ (λ bytes. refl) refl m.next_page_token valid.1
      >> number_field wire switch 24 refl (int32 wire) _ (λ bytes. refl) refl m.total_size valid.2

  unfoldable pub list_memo_reactions_response : Kind ListMemoReactionsResponse
  list_memo_reactions_response = message wire switch base encode Valid encode-Runs
