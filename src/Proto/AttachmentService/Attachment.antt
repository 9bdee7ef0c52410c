-- ===== src/Proto/AttachmentService/Attachment.antt =====
-- The message `Attachment` of app/web/src/types/proto/api/v1/attachment_service.ts.
use collab_notes_ecs.Proto.Codec.{
  Bytes, IsSafe, Kind, Option, OptionAll, Read, Runs, Text, Wire, [], bytes_field, eqb, eqz, field,
  if◌then◌else◌, int64, length, message, none, number_field, on, optional, optional-Runs, pos, refl,
  some, text_field, unknown, unless, ℕ, ℤ, ◌++◌, ◌==◌, ◌>>◌,
}
use collab_notes_ecs.Proto.Google.Dates.{Date, date}

pub record Attachment : Type 0 where
  pub name : Text
  pub create_time : Option Date
  pub filename : Text
  pub content : Bytes
  pub external_link : Text
  pub type : Text
  pub size : ℤ
  pub memo : Option Text

abbrev pub base : Attachment
base = record {
  name = [];
  create_time = none;
  filename = [];
  content = [];
  external_link = [];
  type = [];
  size = pos 0;
  memo = none;
}

module _ (wire : Wire) where
  unfoldable pub encode : Attachment → Bytes
  encode m =
      unless wire (m.name == []) (field wire 10 wire.string m.name)
      ++ optional wire 18 (date wire) m.create_time
      ++ unless wire (m.filename == []) (field wire 26 wire.string m.filename)
      ++ unless wire (eqb (length m.content) 0) (field wire 34 wire.bytes m.content)
      ++ unless wire (m.external_link == []) (field wire 42 wire.string m.external_link)
      ++ unless wire (m.type == []) (field wire 50 wire.string m.type)
      ++ unless wire (eqz m.size (pos 0)) (field wire 56 (int64 wire) m.size)
      ++ optional wire 66 wire.string m.memo

  unfoldable pub switch : ℕ → Attachment → Bytes → Read Attachment
  switch tag m bytes =
      if eqb tag 10
      then on (wire.string.get bytes) (λ v. record m { name = v })
      else if eqb tag 18
      then on ((date wire).get bytes) (λ v. record m { create_time = some v })
      else if eqb tag 26
      then on (wire.string.get bytes) (λ v. record m { filename = v })
      else if eqb tag 34
      then on (wire.bytes.get bytes) (λ v. record m { content = v })
      else if eqb tag 42
      then on (wire.string.get bytes) (λ v. record m { external_link = v })
      else if eqb tag 50
      then on (wire.string.get bytes) (λ v. record m { type = v })
      else if eqb tag 56
      then on ((int64 wire).get bytes) (λ v. record m { size = v })
      else if eqb tag 66
      then on (wire.string.get bytes) (λ v. record m { memo = some v })
      else unknown

  abbrev pub Valid : Attachment → Type 0
  Valid m =
      wire.string.Valid m.name
      × OptionAll (date wire).Valid m.create_time
      × wire.string.Valid m.filename
      × wire.bytes.Valid m.content
      × wire.string.Valid m.external_link
      × wire.string.Valid m.type
      × IsSafe m.size
      × OptionAll wire.string.Valid m.memo

  pub encode-Runs : (m : Attachment) → Valid m → Runs wire switch base (encode m) m
  unfolding encode switch
  encode-Runs m valid =
      let m1 : Attachment = record base { name = m.name } in
      let m7 : Attachment = record m1 {
        create_time = m.create_time;
        filename = m.filename;
        content = m.content;
        external_link = m.external_link;
        type = m.type;
        size = m.size;
      } in
      text_field wire switch 10 refl _ (λ bytes. refl) refl m.name valid.0
      >> optional-Runs wire switch 18 refl (date wire) (λ v. record m1 { create_time = v })
          (λ bytes. refl) refl m.create_time valid.1
      >> text_field wire switch 26 refl _ (λ bytes. refl) refl m.filename valid.2
      >> bytes_field wire switch 34 refl _ (λ bytes. refl) refl m.content valid.3
      >> text_field wire switch 42 refl _ (λ bytes. refl) refl m.external_link valid.4
      >> text_field wire switch 50 refl _ (λ bytes. refl) refl m.type valid.5
      >> number_field wire switch 56 refl (int64 wire) _ (λ bytes. refl) refl m.size valid.6
      >> optional-Runs wire switch 66 refl wire.string (λ v. record m7 { memo = v }) (λ bytes. refl)
          refl m.memo valid.7

  unfoldable pub attachment : Kind Attachment
  attachment = message wire switch base encode Valid encode-Runs
