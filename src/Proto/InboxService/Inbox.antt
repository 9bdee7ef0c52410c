-- ===== src/Proto/InboxService/Inbox.antt =====
-- The message `Inbox` of app/web/src/types/proto/api/v1/inbox_service.ts.
use collab_notes_ecs.Proto.Codec.{
  Bytes, Kind, Option, OptionAll, Read, Runs, Text, Wire, [], enum_field, eqb, field, if◌then◌else◌,
  int32, message, none, on, optional, optional-Runs, refl, some, text_field, unknown, unless, ℕ, ℤ,
  ◌++◌, ◌==◌, ◌>>◌,
}
use collab_notes_ecs.Proto.InboxService.InboxStatus.{
  InboxStatus, eq_of_is_status_unspecified, inbox_status, inbox_status-Valid, is_status_unspecified,
}
use collab_notes_ecs.Proto.Google.Dates.{Date, date}
use collab_notes_ecs.Proto.InboxService.InboxType.{
  InboxType, eq_of_is_type_unspecified, inbox_type, inbox_type-Valid, is_type_unspecified,
}

pub record Inbox : Type 0 where
  pub name : Text
  pub sender : Text
  pub receiver : Text
  pub status : InboxStatus
  pub create_time : Option Date
  pub type : InboxType
  pub activity_id : Option ℤ

abbrev pub base : Inbox
base = record {
  name = [];
  sender = [];
  receiver = [];
  status = InboxStatus.status_unspecified;
  create_time = none;
  type = InboxType.type_unspecified;
  activity_id = none;
}

module _ (wire : Wire) where
  unfoldable pub encode : Inbox → Bytes
  encode m =
      unless wire (m.name == []) (field wire 10 wire.string m.name)
      ++ unless wire (m.sender == []) (field wire 18 wire.string m.sender)
      ++ unless wire (m.receiver == []) (field wire 26 wire.string m.receiver)
      ++ unless wire (is_status_unspecified m.status) (field wire 32 (inbox_status wire) m.status)
      ++ optional wire 42 (date wire) m.create_time
      ++ unless wire (is_type_unspecified m.type) (field wire 48 (inbox_type wire) m.type)
      ++ optional wire 56 (int32 wire) m.activity_id

  unfoldable pub switch : ℕ → Inbox → Bytes → Read Inbox
  switch tag m bytes =
      if eqb tag 10
      then on (wire.string.get bytes) (λ v. record m { name = v })
      else if eqb tag 18
      then on (wire.string.get bytes) (λ v. record m { sender = v })
      else if eqb tag 26
      then on (wire.string.get bytes) (λ v. record m { receiver = v })
      else if eqb tag 32
      then on ((inbox_status wire).get bytes) (λ v. record m { status = v })
      else if eqb tag 42
      then on ((date wire).get bytes) (λ v. record m { create_time = some v })
      else if eqb tag 48
      then on ((inbox_type wire).get bytes) (λ v. record m { type = v })
      else if eqb tag 56
      then on ((int32 wire).get bytes) (λ v. record m { activity_id = some v })
      else unknown

  abbrev pub Valid : Inbox → Type 0
  Valid m =
      wire.string.Valid m.name
      × wire.string.Valid m.sender
      × wire.string.Valid m.receiver
      × OptionAll (date wire).Valid m.create_time
      × OptionAll (int32 wire).Valid m.activity_id

  pub encode-Runs : (m : Inbox) → Valid m → Runs wire switch base (encode m) m
  unfolding encode switch
  encode-Runs m valid =
      let m4 : Inbox = record base {
        name = m.name;
        sender = m.sender;
        receiver = m.receiver;
        status = m.status;
      } in
      let m6 : Inbox = record m4 { create_time = m.create_time; type = m.type } in
      text_field wire switch 10 refl _ (λ bytes. refl) refl m.name valid.0
      >> text_field wire switch 18 refl _ (λ bytes. refl) refl m.sender valid.1
      >> text_field wire switch 26 refl _ (λ bytes. refl) refl m.receiver valid.2
      >> enum_field wire switch 32 refl (inbox_status wire) is_status_unspecified _
          eq_of_is_status_unspecified _ (λ bytes. refl) refl m.status
          (inbox_status-Valid wire m.status)
      >> optional-Runs wire switch 42 refl (date wire) (λ v. record m4 { create_time = v })
          (λ bytes. refl) refl m.create_time valid.3
      >> enum_field wire switch 48 refl (inbox_type wire) is_type_unspecified _
          eq_of_is_type_unspecified _ (λ bytes. refl) refl m.type (inbox_type-Valid wire m.type)
      >> optional-Runs wire switch 56 refl (int32 wire) (λ v. record m6 { activity_id = v })
          (λ bytes. refl) refl m.activity_id valid.4

  unfoldable pub inbox : Kind Inbox
  inbox = message wire switch base encode Valid encode-Runs
