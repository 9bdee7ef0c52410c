-- ===== src/Proto/ShortcutService/Shortcut.antt =====
-- The message `Shortcut` of app/web/src/types/proto/api/v1/shortcut_service.ts.
use collab_notes_ecs.Proto.Codec.{
  Bytes, Kind, Read, Runs, Text, Wire, [], eqb, field, if◌then◌else◌, message, on, refl, text_field,
  unknown, unless, ℕ, ◌++◌, ◌==◌, ◌>>◌,
}

pub record Shortcut : Type 0 where
  pub name : Text
  pub title : Text
  pub filter : Text

abbrev pub base : Shortcut
base = record { name = []; title = []; filter = [] }

module _ (wire : Wire) where
  unfoldable pub encode : Shortcut → Bytes
  encode m =
      unless wire (m.name == []) (field wire 10 wire.string m.name)
      ++ unless wire (m.title == []) (field wire 18 wire.string m.title)
      ++ unless wire (m.filter == []) (field wire 26 wire.string m.filter)

  unfoldable pub switch : ℕ → Shortcut → Bytes → Read Shortcut
  switch tag m bytes =
      if eqb tag 10
      then on (wire.string.get bytes) (λ v. record m { name = v })
      else if eqb tag 18
      then on (wire.string.get bytes) (λ v. record m { title = v })
      else if eqb tag 26
      then on (wire.string.get bytes) (λ v. record m { filter = v })
      else unknown

  abbrev pub Valid : Shortcut → Type 0
  Valid m = wire.string.Valid m.name × wire.string.Valid m.title × wire.string.Valid m.filter

  pub encode-Runs : (m : Shortcut) → Valid m → Runs wire switch base (encode m) m
  unfolding encode switch
  encode-Runs m valid =
      text_field wire switch 10 refl _ (λ bytes. refl) refl m.name valid.0
      >> text_field wire switch 18 refl _ (λ bytes. refl) refl m.title valid.1
      >> text_field wire switch 26 refl _ (λ bytes. refl) refl m.filter valid.2

  unfoldable pub shortcut : Kind Shortcut
  shortcut = message wire switch base encode Valid encode-Runs
