-- ===== src/Proto/MemoService/MemoProperty.antt =====
-- The message `Memo_Property` of app/web/src/types/proto/api/v1/memo_service.ts.
use collab_notes_ecs.Proto.Codec.{
  Bool, Bytes, Kind, Read, Runs, Wire, bool_field, eqb, false, field, if◌then◌else◌, message, not,
  on, refl, unknown, unless, ℕ, ◌++◌, ◌>>◌,
}

pub record MemoProperty : Type 0 where
  pub has_link : Bool
  pub has_task_list : Bool
  pub has_code : Bool
  pub has_incomplete_tasks : Bool

abbrev pub base : MemoProperty
base = record {
  has_link = false;
  has_task_list = false;
  has_code = false;
  has_incomplete_tasks = false;
}

module _ (wire : Wire) where
  unfoldable pub encode : MemoProperty → Bytes
  encode m =
      unless wire (not m.has_link) (field wire 8 wire.bool m.has_link)
      ++ unless wire (not m.has_task_list) (field wire 16 wire.bool m.has_task_list)
      ++ unless wire (not m.has_code) (field wire 24 wire.bool m.has_code)
      ++ unless wire (not m.has_incomplete_tasks) (field wire 32 wire.bool m.has_incomplete_tasks)

  unfoldable pub switch : ℕ → MemoProperty → Bytes → Read MemoProperty
  switch tag m bytes =
      if eqb tag 8
      then on (wire.bool.get bytes) (λ v. record m { has_link = v })
      else if eqb tag 16
      then on (wire.bool.get bytes) (λ v. record m { has_task_list = v })
      else if eqb tag 24
      then on (wire.bool.get bytes) (λ v. record m { has_code = v })
      else if eqb tag 32
      then on (wire.bool.get bytes) (λ v. record m { has_incomplete_tasks = v })
      else unknown

  abbrev pub Valid : MemoProperty → Type 0
  Valid m = Unit

  pub encode-Runs : (m : MemoProperty) → Valid m → Runs wire switch base (encode m) m
  unfolding encode switch
  encode-Runs m valid =
      bool_field wire switch 8 refl _ (λ bytes. refl) refl m.has_link
      >> bool_field wire switch 16 refl _ (λ bytes. refl) refl m.has_task_list
      >> bool_field wire switch 24 refl _ (λ bytes. refl) refl m.has_code
      >> bool_field wire switch 32 refl _ (λ bytes. refl) refl m.has_incomplete_tasks

  unfoldable pub memo_property : Kind MemoProperty
  memo_property = message wire switch base encode Valid encode-Runs
