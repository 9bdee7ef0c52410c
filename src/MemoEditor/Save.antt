-- ===== src/MemoEditor/Save.antt =====
-- handleSaveBtnClick of app/web/src/components/MemoEditor/index.tsx.
use collab_notes_ecs.Base.{
  ℕ, Text, truthy, Bool, true, false, not, ◌||◌, Option, none, some, List, [], ◌∷◌, ◌++◌,
  if◌then◌else◌, eqb,
}
use collab_notes_ecs.Api.{Visibility, Attachment, MemoRelation, Location, Memo}
use collab_notes_ecs.MemoEditor.{Props, State, IsEqual, set_content}

-- The paths that the editor puts in an update mask.
pub data FieldPath : Type 0 where
  content visibility attachments relations location update_time create_time : FieldPath

-- A number for each path, by which two are compared.
abbrev pub path_number : FieldPath → ℕ
path_number content = 0
path_number visibility = 1
path_number attachments = 2
path_number relations = 3
path_number location = 4
path_number update_time = 5
path_number create_time = 6

unfoldable pub same_path : FieldPath → FieldPath → Bool
same_path p q = eqb (path_number p) (path_number q)

-- `updateMask.has(p)`, and `updateMask.add(p)` of a `Set`
abbrev pub has_path : FieldPath → List FieldPath → Bool
has_path p [] = false
has_path p (q ∷ mask) = same_path q p || has_path p mask

abbrev pub add_path : FieldPath → List FieldPath → List FieldPath
add_path p mask = if has_path p mask then mask else mask ++ p ∷ []

-- `if (b) updateMask.add(p)`
unfoldable pub add_if : Bool → FieldPath → List FieldPath → List FieldPath
add_if b p mask = if b then add_path p mask else mask

-- `memoPatch`; the fields that are not set stay `none`
pub record MemoPatch : Type 0 where
  pub name : Text
  pub content : Text
  pub visibility : Option Visibility
  pub attachments : Option (List Attachment)
  pub relations : Option (List MemoRelation)
  pub location : Option (Option Location)
  pub create_time : Option ℕ
  pub update_time : Option ℕ

abbrev pub when {ℓ} : {A : Type ℓ} → Bool → A → Option A
when b a = if b then some a else none

-- `createTime && !isEqual(createTime, prevMemo.createTime)`
abbrev pub time_changed : IsEqual → Option ℕ → Option ℕ → Bool
time_changed eq none prev = false
time_changed eq (some t) prev = not (eq.time (some t) prev)

-- The state and the text are those of the click.
unfoldable pub field_mask : IsEqual → State → Memo → List FieldPath
field_mask eq s prev = add_if (not (eq.location s.location prev.location)) location (
    add_if (not (eq.relations s.relation_list prev.relations)) relations (
      add_if (not (eq.attachments s.attachment_list prev.attachments)) attachments (
        add_if (not (eq.visibility s.memo_visibility prev.visibility)) visibility
          (add_if (not (eq.text s.content prev.content)) content []))))

-- `["content", "attachments", "relations", "location"].some((key) => updateMask.has(key))`
abbrev pub touches : List FieldPath → Bool
touches mask =
    has_path content mask
    || has_path attachments mask
    || has_path relations mask
    || has_path location mask

unfoldable pub update_mask : IsEqual → State → Memo → List FieldPath
update_mask eq s prev =
    let mask = field_mask eq s prev in
    add_if (time_changed eq s.update_time prev.update_time) update_time (
      add_if (time_changed eq s.create_time prev.create_time) create_time
        (add_if (touches mask) update_time mask))

unfoldable pub memo_patch : IsEqual → State → Memo → MemoPatch
memo_patch eq s prev = record {
  name = prev.name;
  content = s.content;
  visibility = when (not (eq.visibility s.memo_visibility prev.visibility)) s.memo_visibility;
  attachments = when (not (eq.attachments s.attachment_list prev.attachments)) s.attachment_list;
  relations = when (not (eq.relations s.relation_list prev.relations)) s.relation_list;
  location = when (not (eq.location s.location prev.location)) s.location;
  create_time = if time_changed eq s.create_time prev.create_time then s.create_time else none;
  update_time = if time_changed eq s.update_time prev.update_time then s.update_time else none;
}

-- The memo or the comment that a new text becomes.
pub record Draft : Type 0 where
  pub content : Text
  pub visibility : Visibility
  pub attachments : List Attachment
  pub relations : List MemoRelation
  pub location : Option Location

unfoldable pub draft : State → Draft
draft s = record {
  content = s.content;
  visibility = s.memo_visibility;
  attachments = s.attachment_list;
  relations = s.relation_list;
  location = s.location;
}

-- What the services answer: a value, or an error with its details.
pub data Reply {ℓ} (A : Type ℓ) : Type ℓ where
  ok : A → Reply A
  failed : Text → Reply A

pub record Services : Type 0 where
  pub get_or_fetch_memo_by_name : Text → Reply Memo
  pub update_memo : MemoPatch → List FieldPath → Reply Memo
  pub create_memo : Draft → Reply Memo
  pub create_memo_comment : Text → Draft → Reply Memo

-- What happens outside of the state: toasts and the calls of the parent's functions.
pub data Effect : Type 0 where
  toast_error : Text → Effect
  toast_no_changes : Effect
  cancelled : Effect
  confirmed : Text → Effect

-- How the `try` ends: by the early `return`, at its end, or by a throw.
pub data Tried : Type 0 where
  returned : List Effect → Tried
  finished : List Effect → Tried
  thrown : Text → Tried

abbrev pub confirm : Props → Memo → List Effect
confirm props memo = if props.has_on_confirm then confirmed memo.name ∷ [] else []

abbrev pub confirm_reply : Props → Reply Memo → Tried
confirm_reply props (ok memo) = finished (confirm props memo)
confirm_reply props (failed details) = thrown details

abbrev pub is_empty : List FieldPath → Bool
is_empty [] = true
is_empty (p ∷ mask) = false

unfoldable pub try_update : IsEqual → Services → Props → State → Reply Memo → Tried
try_update eq services props s (failed details) = thrown details
try_update eq services props s (ok prev) =
    let mask = update_mask eq s prev in
    if is_empty mask
    then returned (toast_no_changes ∷ (if props.has_on_cancel then cancelled ∷ [] else []))
    else confirm_reply props (services.update_memo (memo_patch eq s prev) mask)

unfoldable pub try_save : IsEqual → Services → Props → State → Tried
unfolding try_update
try_save eq services props s =
    if truthy props.memo_name
    then try_update eq services props s (services.get_or_fetch_memo_by_name props.memo_name)
    else confirm_reply props (
        if truthy props.parent_memo_name
        then services.create_memo_comment props.parent_memo_name (draft s)
        else services.create_memo (draft s))

-- the code behind the `try` and the `catch`
unfoldable pub reset : State → State
reset s = record s {
  content_cache = [];
  is_requesting = false;
  attachment_list = [];
  relation_list = [];
  location = none;
  is_dragging_file = false;
}

abbrev pub conclude : Tried → State → State × List Effect
conclude (returned effects) s = (s, effects)
conclude (finished effects) s = (reset (set_content [] s), effects)
conclude (thrown details) s = (reset s, toast_error details ∷ [])

-- Up to the first `await`: `none` if a save is under way.
unfoldable pub begin_save : State → Option State
begin_save s = if s.is_requesting then none else some (record s { is_requesting = true })

-- The rest. The first state is that of the click, which the handler has closed over, and the second
-- the state when the services have answered.
unfoldable pub end_save : IsEqual → Services → Props → State → State → State × List Effect
unfolding reset
end_save eq services props clicked s = conclude (try_save eq services props clicked) s
