-- ===== src/Proto/MemoService/SetMemoAttachmentsRequest.antt =====
-- The message `SetMemoAttachmentsRequest` of app/web/src/types/proto/api/v1/memo_service.ts.
use collab_notes_ecs.Proto.Codec.{
  All, Bytes, Kind, List, Read, Runs, Text, Wire, [], eqb, field, if◌then◌else◌, message, on, refl,
  repeated, repeated-Runs, text_field, unknown, unless, ℕ, ◌++◌, ◌==◌, ◌>>◌, ◌∷◌,
}
use collab_notes_ecs.Proto.AttachmentService.Attachment.{Attachment, attachment}

pub record SetMemoAttachmentsRequest : Type 0 where
  pub name : Text
  pub attachments : List Attachment

abbrev pub base : SetMemoAttachmentsRequest
base = record { name = []; attachments = [] }

module _ (wire : Wire) where
  unfoldable pub encode : SetMemoAttachmentsRequest → Bytes
  encode m =
      unless wire (m.name == []) (field wire 10 wire.string m.name)
      ++ repeated wire 18 (attachment wire) m.attachments

  unfoldable pub switch : ℕ → SetMemoAttachmentsRequest → Bytes → Read SetMemoAttachmentsRequest
  switch tag m bytes =
      if eqb tag 10
      then on (wire.string.get bytes) (λ v. record m { name = v })
      else if eqb tag 18
      then on ((attachment wire).get bytes)
          (λ v. record m { attachments = m.attachments ++ (v ∷ []) })
      else unknown

  abbrev pub Valid : SetMemoAttachmentsRequest → Type 0
  Valid m = wire.string.Valid m.name × All (attachment wire).Valid m.attachments

  pub encode-Runs : (m : SetMemoAttachmentsRequest) → Valid m → Runs wire switch base (encode m) m
  unfolding encode switch
  encode-Runs m valid =
      let m1 : SetMemoAttachmentsRequest = record base { name = m.name } in
      text_field wire switch 10 refl _ (λ bytes. refl) refl m.name valid.0
      >> repeated-Runs wire switch 18 refl (attachment wire) (λ v. record m1 { attachments = v })
          (λ vs bytes. refl) refl m.attachments valid.1

  unfoldable pub set_memo_attachments_request : Kind SetMemoAttachmentsRequest
  set_memo_attachments_request = message wire switch base encode Valid encode-Runs
