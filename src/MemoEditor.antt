-- ===== src/MemoEditor.antt =====
-- app/web/src/components/MemoEditor/index.tsx: the state of the memo editor and its handlers. The text of
-- the textarea is the field `content`; an absent name or a missing draft is the empty text. A handler
-- that awaits is split there, and what the service answers is an argument. lodash's `isEqual` is a
-- parameter.
pub mod Save
pub mod Keys
pub mod Mask
pub mod Patch
pub mod Outcome
pub mod Upload
pub mod Tests
use collab_notes_ecs.Base.{
  ℕ, ◌<◌, Text, txt, ◌==◌, truthy, Bool, true, false, not, ◌&&◌, ◌||◌, Option, none, some, List, [],
  ◌∷◌, ◌++◌, ◌≡◌, ◌↔◌, if◌then◌else◌, ltb, length,
}
use collab_notes_ecs.Api.{
  Visibility, private_memo, protected_memo, public_memo, Attachment, MemoRelation, Location, Memo,
}

pub record Props : Type 0 where
  pub memo_name : Text
  pub parent_memo_name : Text
  pub has_on_confirm : Bool
  pub has_on_cancel : Bool

-- `State`, and the other state variables of the component
pub record State : Type 0 where
  pub memo_visibility : Visibility
  pub attachment_list : List Attachment
  pub relation_list : List MemoRelation
  pub location : Option Location
  pub is_uploading_attachment : Bool
  pub is_requesting : Bool
  pub is_composing : Bool
  pub is_dragging_file : Bool
  pub create_time : Option ℕ
  pub update_time : Option ℕ
  pub has_content : Bool
  pub content : Text
  pub content_cache : Text

abbrev pub initial_state : Text → State
initial_state content_cache = record {
  memo_visibility = private_memo;
  attachment_list = [];
  relation_list = [];
  location = none;
  is_uploading_attachment = false;
  is_requesting = false;
  is_composing = false;
  is_dragging_file = false;
  create_time = none;
  update_time = none;
  has_content = false;
  content = [];
  content_cache = content_cache;
}

-- `setContentCache(content)`, or `localStorage.removeItem` for an empty text
unfoldable pub handle_content_change : Text → State → State
handle_content_change content s = record s { has_content = truthy content; content_cache = content }

-- `editorRef.current?.setContent`, which calls `handleContentChange` back
unfoldable pub set_content : Text → State → State
unfolding handle_content_change
set_content content s = handle_content_change content (record s { content = content })

-- the effect of the first render
unfoldable pub mount : State → State
mount s = set_content s.content_cache s

-- the effect on `memoName`, when `getOrFetchMemoByName` has answered
unfoldable pub load_memo : Memo → State → State
load_memo memo s =
    let s' = record s {
      create_time = memo.create_time;
      update_time = memo.update_time;
      memo_visibility = memo.visibility;
      attachment_list = memo.attachments;
      relation_list = memo.relations;
      location = memo.location;
    } in
    if truthy s.content_cache then s' else set_content memo.content s'

unfoldable pub handle_composition_start : State → State
handle_composition_start s = record s { is_composing = true }

unfoldable pub handle_composition_end : State → State
handle_composition_end s = record s { is_composing = false }

unfoldable pub handle_memo_visibility_change : Visibility → State → State
handle_memo_visibility_change visibility s = record s { memo_visibility = visibility }

unfoldable pub handle_set_attachment_list : List Attachment → State → State
handle_set_attachment_list attachments s = record s { attachment_list = attachments }

unfoldable pub handle_set_relation_list : List MemoRelation → State → State
handle_set_relation_list relations s = record s { relation_list = relations }

unfoldable pub handle_set_location : Option Location → State → State
handle_set_location location s = record s { location = location }

-- The first argument is whether the drag carries files.
unfoldable pub handle_drag_over : Bool → State → State
handle_drag_over has_files s =
    if has_files && not s.is_dragging_file then record s { is_dragging_file = true } else s

unfoldable pub handle_drag_leave : State → State
handle_drag_leave s = record s { is_dragging_file = false }

-- the draft is gone, and the parent is told if it asked to be
unfoldable pub handle_cancel_btn_click : State → State
handle_cancel_btn_click s = record s { content_cache = [] }

unfoldable pub allow_save : State → Bool
allow_save s =
    (s.has_content || ltb 0 (length s.attachment_list))
    && not s.is_uploading_attachment
    && not s.is_requesting

-- lodash's `isEqual`, at the types where it is called: equality of values.
pub record IsEqual : Type 0 where
  pub text : Text → Text → Bool
  pub visibility : Visibility → Visibility → Bool
  pub attachments : List Attachment → List Attachment → Bool
  pub relations : List MemoRelation → List MemoRelation → Bool
  pub location : Option Location → Option Location → Bool
  pub time : Option ℕ → Option ℕ → Bool

pub record IsEquality (eq : IsEqual) : Type 0 where
  pub text_iff : (a b : Text) → (eq.text a b ≡ true) ↔ (a ≡ b)
  pub visibility_iff : (a b : Visibility) → (eq.visibility a b ≡ true) ↔ (a ≡ b)
  pub attachments_iff : (a b : List Attachment) → (eq.attachments a b ≡ true) ↔ (a ≡ b)
  pub relations_iff : (a b : List MemoRelation) → (eq.relations a b ≡ true) ↔ (a ≡ b)
  pub location_iff : (a b : Option Location) → (eq.location a b ≡ true) ↔ (a ≡ b)
  pub time_iff : (a b : Option ℕ) → (eq.time a b ≡ true) ↔ (a ≡ b)
