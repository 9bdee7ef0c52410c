-- ===== src/Api.antt =====
-- app/web/src/types/proto/api/v1: the messages that the stores and the editor keep, with the fields that
-- the modelled code reads or writes. A `Date` is its number of milliseconds, and a coordinate is the
-- bit pattern of its double.
use collab_notes_ecs.Base.{ℕ, Text, List, Option}

pub data Visibility : Type 0 where
  unspecified private_memo protected_memo public_memo unrecognized : Visibility

pub record Attachment : Type 0 where
  pub name : Text
  pub create_time : Option ℕ
  pub filename : Text
  pub external_link : Text
  pub mime_type : Text
  pub size : ℕ
  pub memo : Option Text

pub data RelationType : Type 0 where
  unspecified reference comment unrecognized : RelationType

pub record MemoRelation : Type 0 where
  pub memo : Option Text
  pub related_memo : Option Text
  pub relation_type : RelationType

pub record Location : Type 0 where
  pub placeholder : Text
  pub latitude : ℕ
  pub longitude : ℕ

pub data State : Type 0 where
  unspecified normal archived unrecognized : State

pub record Memo : Type 0 where
  pub name : Text
  pub state : State
  pub create_time : Option ℕ
  pub update_time : Option ℕ
  pub display_time : Option ℕ
  pub content : Text
  pub visibility : Visibility
  pub attachments : List Attachment
  pub relations : List MemoRelation
  pub location : Option Location
