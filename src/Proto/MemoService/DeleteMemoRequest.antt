-- ===== src/Proto/MemoService/DeleteMemoRequest.antt =====
-- The message `DeleteMemoRequest` of app/web/src/types/proto/api/v1/memo_service.ts.
use collab_notes_ecs.Proto.Codec.{
  Bool, Bytes, Kind, Read, Runs, Text, Wire, [], bool_field, eqb, false, field, if◌then◌else◌,
  message, not, on, refl, text_field, unknown, unless, ℕ, ◌++◌, ◌==◌, ◌>>◌,
}

pub record DeleteMemoRequest : Type 0 where
  pub name : Text
  pub force : Bool

abbrev pub base : DeleteMemoRequest
base = record { name = []; force = false }

module _ (wire : Wire) where
  unfoldable pub encode : DeleteMemoRequest → Bytes
  encode m =
      unless wire (m.name == []) (field wire 10 wire.string m.name)
      ++ unless wire (not m.force) (field wire 16 wire.bool m.force)

  unfoldable pub switch : ℕ → DeleteMemoRequest → Bytes → Read DeleteMemoRequest
  switch tag m bytes =
      if eqb tag 10
      then on (wire.string.get bytes) (λ v. record m { name = v })
      else if eqb tag 16
      then on (wire.bool.get bytes) (λ v. record m { force = v })
      else unknown

  abbrev pub Valid : DeleteMemoRequest → Type 0
  Valid m = wire.string.Valid m.name

  pub encode-Runs : (m : DeleteMemoRequest) → Valid m → Runs wire switch base (encode m) m
  unfolding encode switch
  encode-Runs m valid =
      text_field wire switch 10 refl _ (λ bytes. refl) refl m.name valid
      >> bool_field wire switch 16 refl _ (λ bytes. refl) refl m.force

  unfoldable pub delete_memo_request : Kind DeleteMemoRequest
  delete_memo_request = message wire switch base encode Valid encode-Runs
