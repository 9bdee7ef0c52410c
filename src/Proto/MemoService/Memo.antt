-- ===== src/Proto/MemoService/Memo.antt =====
-- The message `Memo` of app/web/src/types/proto/api/v1/memo_service.ts. The kind of its nodes, the messages of
-- markdown_service.ts, is an argument.
use collab_notes_ecs.Proto.Codec.{
  All, Bool, Bytes, Kind, List, Option, OptionAll, Read, Runs, Text, Wire, [], bool_field,
  decode_with, enum_field, eqb, false, field, if◌then◌else◌, message, none, not, on, optional,
  optional-Runs, refl, repeated, repeated-Runs, some, text_field, unknown, unless, ℕ, ◌++◌, ◌==◌,
  ◌>>◌, ◌∷◌,
}
use collab_notes_ecs.Proto.Common.State.{
  State, eq_of_is_state_unspecified, is_state_unspecified, state, state-Valid,
}
use collab_notes_ecs.Proto.Google.Dates.{Date, date}
use collab_notes_ecs.Proto.MemoService.Visibility.{
  Visibility, eq_of_is_visibility_unspecified, is_visibility_unspecified, visibility,
  visibility-Valid,
}
use collab_notes_ecs.Proto.AttachmentService.Attachment.{Attachment, attachment}
use collab_notes_ecs.Proto.MemoService.MemoRelation.{MemoRelation, memo_relation}
use collab_notes_ecs.Proto.MemoService.Reaction.{Reaction, reaction}
use collab_notes_ecs.Proto.MemoService.MemoProperty.{MemoProperty, memo_property}
use collab_notes_ecs.Proto.MemoService.Location.{Location, location}

pub record Memo (Node : Type 0) : Type 0 where
  pub name : Text
  pub state : State
  pub creator : Text
  pub create_time : Option Date
  pub update_time : Option Date
  pub display_time : Option Date
  pub content : Text
  pub nodes : List Node
  pub visibility : Visibility
  pub tags : List Text
  pub pinned : Bool
  pub attachments : List Attachment
  pub relations : List MemoRelation
  pub reactions : List Reaction
  pub property : Option MemoProperty
  pub parent : Option Text
  pub snippet : Text
  pub location : Option Location

abbrev pub base : {Node : Type 0} → Memo Node
base = record {
  name = [];
  state = State.state_unspecified;
  creator = [];
  create_time = none;
  update_time = none;
  display_time = none;
  content = [];
  nodes = [];
  visibility = Visibility.visibility_unspecified;
  tags = [];
  pinned = false;
  attachments = [];
  relations = [];
  reactions = [];
  property = none;
  parent = none;
  snippet = [];
  location = none;
}

module _ {Node : Type 0} (wire : Wire) (node : Kind Node) where
  unfoldable pub encode : Memo Node → Bytes
  encode m =
      unless wire (m.name == []) (field wire 10 wire.string m.name)
      ++ unless wire (is_state_unspecified m.state) (field wire 16 (state wire) m.state)
      ++ unless wire (m.creator == []) (field wire 26 wire.string m.creator)
      ++ optional wire 34 (date wire) m.create_time
      ++ optional wire 42 (date wire) m.update_time
      ++ optional wire 50 (date wire) m.display_time
      ++ unless wire (m.content == []) (field wire 58 wire.string m.content)
      ++ repeated wire 66 node m.nodes
      ++ unless wire (is_visibility_unspecified m.visibility)
          (field wire 72 (visibility wire) m.visibility)
      ++ repeated wire 82 wire.string m.tags
      ++ unless wire (not m.pinned) (field wire 88 wire.bool m.pinned)
      ++ repeated wire 98 (attachment wire) m.attachments
      ++ repeated wire 106 (memo_relation wire) m.relations
      ++ repeated wire 114 (reaction wire) m.reactions
      ++ optional wire 122 (memo_property wire) m.property
      ++ optional wire 130 wire.string m.parent
      ++ unless wire (m.snippet == []) (field wire 138 wire.string m.snippet)
      ++ optional wire 146 (location wire) m.location

  unfoldable pub switch : ℕ → Memo Node → Bytes → Read (Memo Node)
  switch tag m bytes =
      if eqb tag 10
      then on (wire.string.get bytes) (λ v. record m { name = v })
      else if eqb tag 16
      then on ((state wire).get bytes) (λ v. record m { state = v })
      else if eqb tag 26
      then on (wire.string.get bytes) (λ v. record m { creator = v })
      else if eqb tag 34
      then on ((date wire).get bytes) (λ v. record m { create_time = some v })
      else if eqb tag 42
      then on ((date wire).get bytes) (λ v. record m { update_time = some v })
      else if eqb tag 50
      then on ((date wire).get bytes) (λ v. record m { display_time = some v })
      else if eqb tag 58
      then on (wire.string.get bytes) (λ v. record m { content = v })
      else if eqb tag 66
      then on (node.get bytes) (λ v. record m { nodes = m.nodes ++ (v ∷ []) })
      else if eqb tag 72
      then on ((visibility wire).get bytes) (λ v. record m { visibility = v })
      else if eqb tag 82
      then on (wire.string.get bytes) (λ v. record m { tags = m.tags ++ (v ∷ []) })
      else if eqb tag 88
      then on (wire.bool.get bytes) (λ v. record m { pinned = v })
      else if eqb tag 98
      then on ((attachment wire).get bytes)
          (λ v. record m { attachments = m.attachments ++ (v ∷ []) })
      else if eqb tag 106
      then on ((memo_relation wire).get bytes)
          (λ v. record m { relations = m.relations ++ (v ∷ []) })
      else if eqb tag 114
      then on ((reaction wire).get bytes) (λ v. record m { reactions = m.reactions ++ (v ∷ []) })
      else if eqb tag 122
      then on ((memo_property wire).get bytes) (λ v. record m { property = some v })
      else if eqb tag 130
      then on (wire.string.get bytes) (λ v. record m { parent = some v })
      else if eqb tag 138
      then on (wire.string.get bytes) (λ v. record m { snippet = v })
      else if eqb tag 146
      then on ((location wire).get bytes) (λ v. record m { location = some v })
      else unknown

  abbrev pub Valid : Memo Node → Type 0
  Valid m =
      wire.string.Valid m.name
      × wire.string.Valid m.creator
      × OptionAll (date wire).Valid m.create_time
      × OptionAll (date wire).Valid m.update_time
      × OptionAll (date wire).Valid m.display_time
      × wire.string.Valid m.content
      × All node.Valid m.nodes
      × All wire.string.Valid m.tags
      × All (attachment wire).Valid m.attachments
      × All (memo_relation wire).Valid m.relations
      × All (reaction wire).Valid m.reactions
      × OptionAll (memo_property wire).Valid m.property
      × OptionAll wire.string.Valid m.parent
      × wire.string.Valid m.snippet
      × OptionAll (location wire).Valid m.location

  pub encode-Runs : (m : Memo Node) → Valid m → Runs wire switch base (encode m) m
  unfolding encode switch
  encode-Runs m valid =
      let m3 : Memo Node = record base { name = m.name; state = m.state; creator = m.creator } in
      let m4 : Memo Node = record m3 { create_time = m.create_time } in
      let m5 : Memo Node = record m4 { update_time = m.update_time } in
      let m7 : Memo Node = record m5 { display_time = m.display_time; content = m.content } in
      let m9 : Memo Node = record m7 { nodes = m.nodes; visibility = m.visibility } in
      let m11 : Memo Node = record m9 { tags = m.tags; pinned = m.pinned } in
      let m12 : Memo Node = record m11 { attachments = m.attachments } in
      let m13 : Memo Node = record m12 { relations = m.relations } in
      let m14 : Memo Node = record m13 { reactions = m.reactions } in
      let m15 : Memo Node = record m14 { property = m.property } in
      let m17 : Memo Node = record m15 { parent = m.parent; snippet = m.snippet } in
      text_field wire switch 10 refl _ (λ bytes. refl) refl m.name valid.0
      >> enum_field wire switch 16 refl (state wire) is_state_unspecified _
          eq_of_is_state_unspecified _ (λ bytes. refl) refl m.state (state-Valid wire m.state)
      >> text_field wire switch 26 refl _ (λ bytes. refl) refl m.creator valid.1
      >> optional-Runs wire switch 34 refl (date wire) (λ v. record m3 { create_time = v })
          (λ bytes. refl) refl m.create_time valid.2
      >> optional-Runs wire switch 42 refl (date wire) (λ v. record m4 { update_time = v })
          (λ bytes. refl) refl m.update_time valid.3
      >> optional-Runs wire switch 50 refl (date wire) (λ v. record m5 { display_time = v })
          (λ bytes. refl) refl m.display_time valid.4
      >> text_field wire switch 58 refl _ (λ bytes. refl) refl m.content valid.5
      >> repeated-Runs wire switch 66 refl node (λ v. record m7 { nodes = v }) (λ vs bytes. refl)
          refl m.nodes valid.6
      >> enum_field wire switch 72 refl (visibility wire) is_visibility_unspecified _
          eq_of_is_visibility_unspecified _ (λ bytes. refl) refl m.visibility
          (visibility-Valid wire m.visibility)
      >> repeated-Runs wire switch 82 refl wire.string (λ v. record m9 { tags = v })
          (λ vs bytes. refl) refl m.tags valid.7
      >> bool_field wire switch 88 refl _ (λ bytes. refl) refl m.pinned
      >> repeated-Runs wire switch 98 refl (attachment wire) (λ v. record m11 { attachments = v })
          (λ vs bytes. refl) refl m.attachments valid.8
      >> repeated-Runs wire switch 106 refl (memo_relation wire) (λ v. record m12 { relations = v })
          (λ vs bytes. refl) refl m.relations valid.9
      >> repeated-Runs wire switch 114 refl (reaction wire) (λ v. record m13 { reactions = v })
          (λ vs bytes. refl) refl m.reactions valid.10
      >> optional-Runs wire switch 122 refl (memo_property wire) (λ v. record m14 { property = v })
          (λ bytes. refl) refl m.property valid.11
      >> optional-Runs wire switch 130 refl wire.string (λ v. record m15 { parent = v })
          (λ bytes. refl) refl m.parent valid.12
      >> text_field wire switch 138 refl _ (λ bytes. refl) refl m.snippet valid.13
      >> optional-Runs wire switch 146 refl (location wire) (λ v. record m17 { location = v })
          (λ bytes. refl) refl m.location valid.14

  unfoldable pub memo : Kind (Memo Node)
  memo = message wire switch base encode Valid encode-Runs

  unfoldable pub decode : Bytes → Option (Memo Node)
  decode = decode_with wire switch base
