-- ===== src/Proto/MemoService/ListMemosResponse.antt =====
-- The message `ListMemosResponse` of app/web/src/types/proto/api/v1/memo_service.ts.
use collab_notes_ecs.Proto.Codec.{
  All, Bytes, IsInt32, Kind, List, Read, Runs, Text, Wire, [], eqb, eqz, field, if◌then◌else◌,
  int32, message, number_field, on, pos, refl, repeated, repeated-Runs, text_field, unknown, unless,
  ℕ, ℤ, ◌++◌, ◌==◌, ◌>>◌, ◌∷◌,
}
use collab_notes_ecs.Proto.MemoService.Memo.{Memo, memo}

pub record ListMemosResponse (Node : Type 0) : Type 0 where
  pub memos : List (Memo Node)
  pub next_page_token : Text
  pub total_size : ℤ

abbrev pub base : {Node : Type 0} → ListMemosResponse Node
base = record { memos = []; next_page_token = []; total_size = pos 0 }

module _ {Node : Type 0} (wire : Wire) (node : Kind Node) where
  unfoldable pub encode : ListMemosResponse Node → Bytes
  encode m =
      repeated wire 10 (memo wire node) m.memos
      ++ unless wire (m.next_page_token == []) (field wire 18 wire.string m.next_page_token)
      ++ unless wire (eqz m.total_size (pos 0)) (field wire 24 (int32 wire) m.total_size)

  unfoldable pub switch : ℕ → ListMemosResponse Node → Bytes → Read (ListMemosResponse Node)
  switch tag m bytes =
      if eqb tag 10
      then on ((memo wire node).get bytes) (λ v. record m { memos = m.memos ++ (v ∷ []) })
      else if eqb tag 18
      then on (wire.string.get bytes) (λ v. record m { next_page_token = v })
      else if eqb tag 24
      then on ((int32 wire).get bytes) (λ v. record m { total_size = v })
      else unknown

  abbrev pub Valid : ListMemosResponse Node → Type 0
  Valid m =
      All (memo wire node).Valid m.memos
      × wire.string.Valid m.next_page_token
      × IsInt32 m.total_size

  pub encode-Runs : (m : ListMemosResponse Node) → Valid m → Runs wire switch base (encode m) m
  unfolding encode switch
  encode-Runs m valid =
      repeated-Runs wire switch 10 refl (memo wire node) (λ v. record base { memos = v })
        (λ vs bytes. refl) refl m.memos valid.0
      >> text_field wire switch 18 refl _ (λ bytes. refl) refl m.next_page_token valid.1
      >> number_field wire switch 24 refl (int32 wire) _ (λ bytes. refl) refl m.total_size valid.2

  unfoldable pub list_memos_response : Kind (ListMemosResponse Node)
  list_memos_response = message wire switch base encode Valid encode-Runs
