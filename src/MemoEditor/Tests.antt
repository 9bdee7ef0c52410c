-- ===== src/MemoEditor/Tests.antt =====
-- The memo editor on concrete memos, and instances of its theorems.
use native.Mathlib.Decide.{ℕ_discrete}
use collab_notes_ecs.Base.{
  ℕ, Text, txt, Bool, true, false, Option, none, some, List, [], ◌∷◌, ◌≡◌, ◌≢◌, ◌↔◌, refl, arith,
  if◌then◌else◌,
}
use collab_notes_ecs.Api.{
  Visibility, private_memo, Attachment, MemoRelation, Location, Memo, normal,
}
use collab_notes_ecs.MemoEditor.{
  Props, State, initial_state, IsEqual, IsEquality, load_memo, set_content, handle_content_change,
  allow_save,
}
use collab_notes_ecs.MemoEditor.Save.{
  FieldPath, content, attachments, same_path, has_path, add_if, field_mask, update_mask, memo_patch,
  ok, failed, Services, thrown, try_update, try_save, begin_save, end_save,
}
use collab_notes_ecs.MemoEditor.Mask.{changed}
use collab_notes_ecs.MemoEditor.Patch.{apply_mask, edited, apply_mask-memo_patch}
use collab_notes_ecs.MemoEditor.Outcome.{
  is_unchanged, is_requesting-end_save, unchanged_save_blocks, failed_save_drops_attachments,
}
use collab_notes_ecs.MemoEditor.Upload.{File, AttachmentService}

is_yes {ℓ} : {P : Type ℓ} → Dec P → Bool
is_yes (yes p) = true
is_yes (no p) = false

is_yes_iff {ℓ} : {P : Type ℓ} (d : Dec P) → (is_yes d ≡ true) ↔ P
unfolding is_yes
is_yes_iff (yes p) = (λ h. p, λ h. refl)
is_yes_iff (no p) = (λ h. ground arith, λ h. absurd (p h))

text_discrete : Discrete Text
text_discrete = hlevel ℕ_discrete

visibility_discrete : Discrete Visibility
visibility_discrete = hlevel

attachments_discrete : Discrete (List Attachment)
attachments_discrete = hlevel ℕ_discrete

relations_discrete : Discrete (List MemoRelation)
relations_discrete = hlevel ℕ_discrete

location_discrete : Discrete (Option Location)
location_discrete = hlevel ℕ_discrete

time_discrete : Discrete (Option ℕ)
time_discrete = hlevel ℕ_discrete

-- Equality of values.
value_equal : IsEqual
value_equal = record {
  text = λ a b. is_yes (text_discrete a b);
  visibility = λ a b. is_yes (visibility_discrete a b);
  attachments = λ a b. is_yes (attachments_discrete a b);
  relations = λ a b. is_yes (relations_discrete a b);
  location = λ a b. is_yes (location_discrete a b);
  time = λ a b. is_yes (time_discrete a b);
}

value_equal-IsEquality : IsEquality value_equal
unfolding value_equal
value_equal-IsEquality = record {
  text_iff = λ a b. is_yes_iff (text_discrete a b);
  visibility_iff = λ a b. is_yes_iff (visibility_discrete a b);
  attachments_iff = λ a b. is_yes_iff (attachments_discrete a b);
  relations_iff = λ a b. is_yes_iff (relations_discrete a b);
  location_iff = λ a b. is_yes_iff (location_discrete a b);
  time_iff = λ a b. is_yes_iff (time_discrete a b);
}

abbrev a_file : File
a_file = record { filename = txt "a.png"; size = 3; mime_type = txt "image/png" }

abbrev an_attachment : Attachment
an_attachment = record {
  name = txt "attachments/1";
  filename = txt "a.png";
  create_time = none;
  external_link = [];
  mime_type = txt "image/png";
  size = 3;
  memo = none;
}

abbrev edited_memo : Memo
edited_memo = record {
  name = txt "memos/1";
  state = normal;
  create_time = some 5;
  update_time = some 6;
  display_time = none;
  content = txt "old";
  visibility = private_memo;
  attachments = an_attachment ∷ [];
  relations = [];
  location = none;
}

abbrev editor_props : Props
editor_props = record {
  memo_name = txt "memos/1";
  parent_memo_name = [];
  has_on_confirm = true;
  has_on_cancel = false;
}

abbrev offline : Services
offline = record {
  get_or_fetch_memo_by_name = λ name. ok edited_memo;
  update_memo = λ patch mask. failed (txt "offline");
  create_memo = λ draft. failed (txt "offline");
  create_memo_comment = λ name draft. failed (txt "offline");
}

-- The editor when it has loaded the memo, and when its text was changed.
abbrev loaded : State
loaded = record (initial_state []) {
  create_time = some 5;
  update_time = some 6;
  attachment_list = an_attachment ∷ [];
  content = txt "old";
  has_content = true;
}

abbrev changed_text : State
changed_text = record loaded { content = txt "new"; content_cache = txt "new" }

loaded_memo : load_memo edited_memo (initial_state []) ≡ record loaded { content_cache = txt "old" }
unfolding load_memo set_content handle_content_change
loaded_memo = refl

apply_mask-memo_patch_example :
    apply_mask 9
      (memo_patch value_equal changed_text edited_memo)
      (update_mask value_equal changed_text edited_memo)
      edited_memo
    ≡ edited value_equal 9 changed_text edited_memo
apply_mask-memo_patch_example =
    apply_mask-memo_patch value_equal value_equal-IsEquality 9 changed_text edited_memo

is_requesting-end_save_example :
    (end_save value_equal offline editor_props changed_text changed_text).0.is_requesting
    ≡ (if is_unchanged value_equal offline editor_props changed_text then false else false)
is_requesting-end_save_example =
    is_requesting-end_save value_equal offline editor_props changed_text changed_text

loaded-begin_save : begin_save loaded ≡ some (record loaded { is_requesting = true })
unfolding begin_save
loaded-begin_save = refl

loaded_unchanged : (p : FieldPath) → changed value_equal loaded edited_memo p ≡ false
unfolding value_equal is_yes time_discrete ℕ_discrete location_discrete relations_discrete
    attachments_discrete visibility_discrete text_discrete
loaded_unchanged content = refl
loaded_unchanged p = refl

offline_save : try_save value_equal offline editor_props changed_text ≡ thrown (txt "offline")
unfolding try_save try_update update_mask field_mask add_if same_path value_equal is_yes
    time_discrete ℕ_discrete location_discrete relations_discrete attachments_discrete
    visibility_discrete text_discrete
offline_save = refl

some_attachments : an_attachment ∷ [] ≢ []
some_attachments h = cc

unchanged_save_blocks_example :
    let after =
      (end_save value_equal offline editor_props loaded
        (record loaded { is_requesting = true })).0 in
    (after.is_requesting ≡ true) × (begin_save after ≡ none) × (allow_save after ≡ false)
unchanged_save_blocks_example =
    unchanged_save_blocks value_equal offline editor_props loaded
      (record loaded { is_requesting = true }) edited_memo loaded-begin_save refl refl
      loaded_unchanged

failed_save_drops_attachments_example :
    let after = (end_save value_equal offline editor_props changed_text changed_text).0 in
    (after.content ≡ txt "new")
    × (after.content_cache ≡ [])
    × (has_path attachments (update_mask value_equal after edited_memo) ≡ true)
    × ((memo_patch value_equal after edited_memo).attachments ≡ some [])
failed_save_drops_attachments_example =
    failed_save_drops_attachments value_equal value_equal-IsEquality offline editor_props
      changed_text changed_text edited_memo (txt "offline") offline_save some_attachments

abbrev one_upload : AttachmentService
one_upload = record {
  create_attachment = λ file. ok an_attachment;
  set_memo = λ attachment memo. ok attachment;
}
