-- ===== src/Proto/MemoService/ListMemosRequest.antt =====
-- The message `ListMemosRequest` of app/web/src/types/proto/api/v1/memo_service.ts.
use collab_notes_ecs.Proto.Codec.{
  Bool, Bytes, IsInt32, Kind, Read, Runs, Text, Wire, [], bool_field, enum_field, eqb, eqz, false,
  field, if◌then◌else◌, int32, message, not, number_field, on, pos, refl, text_field, unknown,
  unless, ℕ, ℤ, ◌++◌, ◌==◌, ◌>>◌,
}
use collab_notes_ecs.Proto.Common.State.{
  State, eq_of_is_state_unspecified, is_state_unspecified, state, state-Valid,
}

pub record ListMemosRequest : Type 0 where
  pub page_size : ℤ
  pub page_token : Text
  pub state : State
  pub order_by : Text
  pub filter : Text
  pub show_deleted : Bool

abbrev pub base : ListMemosRequest
base = record {
  page_size = pos 0;
  page_token = [];
  state = State.state_unspecified;
  order_by = [];
  filter = [];
  show_deleted = false;
}

module _ (wire : Wire) where
  unfoldable pub encode : ListMemosRequest → Bytes
  encode m =
      unless wire (eqz m.page_size (pos 0)) (field wire 8 (int32 wire) m.page_size)
      ++ unless wire (m.page_token == []) (field wire 18 wire.string m.page_token)
      ++ unless wire (is_state_unspecified m.state) (field wire 24 (state wire) m.state)
      ++ unless wire (m.order_by == []) (field wire 34 wire.string m.order_by)
      ++ unless wire (m.filter == []) (field wire 42 wire.string m.filter)
      ++ unless wire (not m.show_deleted) (field wire 48 wire.bool m.show_deleted)

  unfoldable pub switch : ℕ → ListMemosRequest → Bytes → Read ListMemosRequest
  switch tag m bytes =
      if eqb tag 8
      then on ((int32 wire).get bytes) (λ v. record m { page_size = v })
      else if eqb tag 18
      then on (wire.string.get bytes) (λ v. record m { page_token = v })
      else if eqb tag 24
      then on ((state wire).get bytes) (λ v. record m { state = v })
      else if eqb tag 34
      then on (wire.string.get bytes) (λ v. record m { order_by = v })
      else if eqb tag 42
      then on (wire.string.get bytes) (λ v. record m { filter = v })
      else if eqb tag 48
      then on (wire.bool.get bytes) (λ v. record m { show_deleted = v })
      else unknown

  abbrev pub Valid : ListMemosRequest → Type 0
  Valid m =
      IsInt32 m.page_size
      × wire.string.Valid m.page_token
      × wire.string.Valid m.order_by
      × wire.string.Valid m.filter

  pub encode-Runs : (m : ListMemosRequest) → Valid m → Runs wire switch base (encode m) m
  unfolding encode switch
  encode-Runs m valid =
      number_field wire switch 8 refl (int32 wire) _ (λ bytes. refl) refl m.page_size valid.0
      >> text_field wire switch 18 refl _ (λ bytes. refl) refl m.page_token valid.1
      >> enum_field wire switch 24 refl (state wire) is_state_unspecified _
          eq_of_is_state_unspecified _ (λ bytes. refl) refl m.state (state-Valid wire m.state)
      >> text_field wire switch 34 refl _ (λ bytes. refl) refl m.order_by valid.2
      >> text_field wire switch 42 refl _ (λ bytes. refl) refl m.filter valid.3
      >> bool_field wire switch 48 refl _ (λ bytes. refl) refl m.show_deleted

  unfoldable pub list_memos_request : Kind ListMemosRequest
  list_memos_request = message wire switch base encode Valid encode-Runs
