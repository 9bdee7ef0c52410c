-- ===== src/Proto/MemoService/UpdateMemoRequest.antt =====
-- The message `UpdateMemoRequest` of app/web/src/types/proto/api/v1/memo_service.ts.
use collab_notes_ecs.Proto.Codec.{
  Bool, Bytes, Kind, List, Option, OptionAll, Read, Runs, Text, Wire, bool_field, eqb, false, field,
  if◌then◌else◌, message, none, not, on, optional, optional-Runs, refl, some, unknown, unless, ℕ,
  ◌++◌, ◌>>◌,
}
use collab_notes_ecs.Proto.MemoService.Memo.{Memo, memo}
use collab_notes_ecs.Proto.Google.Masks.{field_mask}

pub record UpdateMemoRequest (Node : Type 0) : Type 0 where
  pub memo : Option (Memo Node)
  pub update_mask : Option (List Text)
  pub allow_missing : Bool

abbrev pub base : {Node : Type 0} → UpdateMemoRequest Node
base = record { memo = none; update_mask = none; allow_missing = false }

module _ {Node : Type 0} (wire : Wire) (node : Kind Node) where
  unfoldable pub encode : UpdateMemoRequest Node → Bytes
  encode m =
      optional wire 10 (memo wire node) m.memo
      ++ optional wire 18 (field_mask wire) m.update_mask
      ++ unless wire (not m.allow_missing) (field wire 24 wire.bool m.allow_missing)

  unfoldable pub switch : ℕ → UpdateMemoRequest Node → Bytes → Read (UpdateMemoRequest Node)
  switch tag m bytes =
      if eqb tag 10
      then on ((memo wire node).get bytes) (λ v. record m { memo = some v })
      else if eqb tag 18
      then on ((field_mask wire).get bytes) (λ v. record m { update_mask = some v })
      else if eqb tag 24
      then on (wire.bool.get bytes) (λ v. record m { allow_missing = v })
      else unknown

  abbrev pub Valid : UpdateMemoRequest Node → Type 0
  Valid m =
      OptionAll (memo wire node).Valid m.memo × OptionAll (field_mask wire).Valid m.update_mask

  pub encode-Runs : (m : UpdateMemoRequest Node) → Valid m → Runs wire switch base (encode m) m
  unfolding encode switch
  encode-Runs m valid =
      let m1 : UpdateMemoRequest Node = record base { memo = m.memo } in
      optional-Runs wire switch 10 refl (memo wire node) (λ v. record base { memo = v })
        (λ bytes. refl) refl m.memo valid.0
      >> optional-Runs wire switch 18 refl (field_mask wire) (λ v. record m1 { update_mask = v })
          (λ bytes. refl) refl m.update_mask valid.1
      >> bool_field wire switch 24 refl _ (λ bytes. refl) refl m.allow_missing

  unfoldable pub update_memo_request : Kind (UpdateMemoRequest Node)
  update_memo_request = message wire switch base encode Valid encode-Runs
