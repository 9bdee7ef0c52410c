-- ===== src/Proto/MemoService/CreateMemoRequest.antt =====
-- The message `CreateMemoRequest` of app/web/src/types/proto/api/v1/memo_service.ts.
use collab_notes_ecs.Proto.Codec.{
  Bool, Bytes, Kind, Option, OptionAll, Read, Runs, Text, Wire, [], bool_field, eqb, false, field,
  if◌then◌else◌, message, none, not, on, optional, optional-Runs, refl, some, text_field, unknown,
  unless, ℕ, ◌++◌, ◌==◌, ◌>>◌,
}
use collab_notes_ecs.Proto.MemoService.Memo.{Memo, memo}

pub record CreateMemoRequest (Node : Type 0) : Type 0 where
  pub memo : Option (Memo Node)
  pub memo_id : Text
  pub validate_only : Bool
  pub request_id : Text

abbrev pub base : {Node : Type 0} → CreateMemoRequest Node
base = record { memo = none; memo_id = []; validate_only = false; request_id = [] }

module _ {Node : Type 0} (wire : Wire) (node : Kind Node) where
  unfoldable pub encode : CreateMemoRequest Node → Bytes
  encode m =
      optional wire 10 (memo wire node) m.memo
      ++ unless wire (m.memo_id == []) (field wire 18 wire.string m.memo_id)
      ++ unless wire (not m.validate_only) (field wire 24 wire.bool m.validate_only)
      ++ unless wire (m.request_id == []) (field wire 34 wire.string m.request_id)

  unfoldable pub switch : ℕ → CreateMemoRequest Node → Bytes → Read (CreateMemoRequest Node)
  switch tag m bytes =
      if eqb tag 10
      then on ((memo wire node).get bytes) (λ v. record m { memo = some v })
      else if eqb tag 18
      then on (wire.string.get bytes) (λ v. record m { memo_id = v })
      else if eqb tag 24
      then on (wire.bool.get bytes) (λ v. record m { validate_only = v })
      else if eqb tag 34
      then on (wire.string.get bytes) (λ v. record m { request_id = v })
      else unknown

  abbrev pub Valid : CreateMemoRequest Node → Type 0
  Valid m =
      OptionAll (memo wire node).Valid m.memo
      × wire.string.Valid m.memo_id
      × wire.string.Valid m.request_id

  pub encode-Runs : (m : CreateMemoRequest Node) → Valid m → Runs wire switch base (encode m) m
  unfolding encode switch
  encode-Runs m valid =
      optional-Runs wire switch 10 refl (memo wire node) (λ v. record base { memo = v })
        (λ bytes. refl) refl m.memo valid.0
      >> text_field wire switch 18 refl _ (λ bytes. refl) refl m.memo_id valid.1
      >> bool_field wire switch 24 refl _ (λ bytes. refl) refl m.validate_only
      >> text_field wire switch 34 refl _ (λ bytes. refl) refl m.request_id valid.2

  unfoldable pub create_memo_request : Kind (CreateMemoRequest Node)
  create_memo_request = message wire switch base encode Valid encode-Runs
