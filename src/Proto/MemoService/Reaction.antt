-- ===== src/Proto/MemoService/Reaction.antt =====
-- The message `Reaction` of app/web/src/types/proto/api/v1/memo_service.ts.
use collab_notes_ecs.Proto.Codec.{
  Bytes, Kind, Option, OptionAll, Read, Runs, Text, Wire, [], eqb, field, if◌then◌else◌, message,
  none, on, optional, optional-Runs, refl, some, text_field, unknown, unless, ℕ, ◌++◌, ◌==◌, ◌>>◌,
}
use collab_notes_ecs.Proto.Google.Dates.{Date, date}

pub record Reaction : Type 0 where
  pub name : Text
  pub creator : Text
  pub content_id : Text
  pub reaction_type : Text
  pub create_time : Option Date

abbrev pub base : Reaction
base = record { name = []; creator = []; content_id = []; reaction_type = []; create_time = none }

module _ (wire : Wire) where
  unfoldable pub encode : Reaction → Bytes
  encode m =
      unless wire (m.name == []) (field wire 10 wire.string m.name)
      ++ unless wire (m.creator == []) (field wire 18 wire.string m.creator)
      ++ unless wire (m.content_id == []) (field wire 26 wire.string m.content_id)
      ++ unless wire (m.reaction_type == []) (field wire 34 wire.string m.reaction_type)
      ++ optional wire 42 (date wire) m.create_time

  unfoldable pub switch : ℕ → Reaction → Bytes → Read Reaction
  switch tag m bytes =
      if eqb tag 10
      then on (wire.string.get bytes) (λ v. record m { name = v })
      else if eqb tag 18
      then on (wire.string.get bytes) (λ v. record m { creator = v })
      else if eqb tag 26
      then on (wire.string.get bytes) (λ v. record m { content_id = v })
      else if eqb tag 34
      then on (wire.string.get bytes) (λ v. record m { reaction_type = v })
      else if eqb tag 42
      then on ((date wire).get bytes) (λ v. record m { create_time = some v })
      else unknown

  abbrev pub Valid : Reaction → Type 0
  Valid m =
      wire.string.Valid m.name
      × wire.string.Valid m.creator
      × wire.string.Valid m.content_id
      × wire.string.Valid m.reaction_type
      × OptionAll (date wire).Valid m.create_time

  pub encode-Runs : (m : Reaction) → Valid m → Runs wire switch base (encode m) m
  unfolding encode switch
  encode-Runs m valid =
      let m4 : Reaction = record base {
        name = m.name;
        creator = m.creator;
        content_id = m.content_id;
        reaction_type = m.reaction_type;
      } in
      text_field wire switch 10 refl _ (λ bytes. refl) refl m.name valid.0
      >> text_field wire switch 18 refl _ (λ bytes. refl) refl m.creator valid.1
      >> text_field wire switch 26 refl _ (λ bytes. refl) refl m.content_id valid.2
      >> text_field wire switch 34 refl _ (λ bytes. refl) refl m.reaction_type valid.3
      >> optional-Runs wire switch 42 refl (date wire) (λ v. record m4 { create_time = v })
          (λ bytes. refl) refl m.create_time valid.4

  unfoldable pub reaction : Kind Reaction
  reaction = message wire switch base encode Valid encode-Runs
