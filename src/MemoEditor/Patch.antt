-- ===== src/MemoEditor/Patch.antt =====
-- The update request of handleSaveBtnClick: applied to the memo it was made from, the patch under its
-- mask gives the memo that the editor shows.
use collab_notes_ecs.Base.{
  ℕ, Bool, true, false, not, ◌||◌, Option, none, some, List, [], ◌≡◌, ◌↔◌, refl, arith,
  if◌then◌else◌, get_or, or_else, sym,
}
use collab_notes_ecs.Api.{unspecified, Memo}
use collab_notes_ecs.MemoEditor.{State, IsEqual, IsEquality}
use collab_notes_ecs.MemoEditor.Save.{
  FieldPath, content, visibility, attachments, relations, location, update_time, create_time,
  has_path, MemoPatch, time_changed, when, touches, update_mask, memo_patch,
}
use collab_notes_ecs.MemoEditor.Mask.{touched, has_path-update_mask}

-- What the service does with a patch, as its update mask says: the masked fields come from the patch
-- and the others stay; an update time that is asked for and not given is the present.
abbrev pub apply_mask : ℕ → MemoPatch → List FieldPath → Memo → Memo
apply_mask now patch mask memo = record memo {
  content = if has_path content mask then patch.content else memo.content;
  visibility =
      if has_path visibility mask then get_or patch.visibility unspecified else memo.visibility;
  attachments = if has_path attachments mask then get_or patch.attachments [] else memo.attachments;
  relations = if has_path relations mask then get_or patch.relations [] else memo.relations;
  location = if has_path location mask then get_or patch.location none else memo.location;
  create_time = if has_path create_time mask then patch.create_time else memo.create_time;
  update_time =
      if has_path update_time mask then or_else patch.update_time (some now) else memo.update_time;
}

-- What the editor shows: its fields, the times that it has, and a new update time if the content, the
-- attachments, the relations or the location were changed and the update time was not.
abbrev pub edited : IsEqual → ℕ → State → Memo → Memo
edited eq now s memo = record memo {
  content = s.content;
  visibility = s.memo_visibility;
  attachments = s.attachment_list;
  relations = s.relation_list;
  location = s.location;
  create_time = or_else s.create_time memo.create_time;
  update_time =
      if time_changed eq s.update_time memo.update_time
      then s.update_time
      else if touched eq s memo
      then some now
      else memo.update_time;
}

masked {ℓ} :
    {A : Type ℓ} (same : Bool) (x y d : A)
    → (same ≡ true) ↔ (x ≡ y)
    → (if not same then get_or (when (not same) x) d else y) ≡ x
masked true x y d h = sym (h.0 refl)
masked false x y d h = refl

masked_time :
    (eq : IsEqual) (laws : IsEquality eq) (t prev : Option ℕ)
    → (if time_changed eq t prev then (if time_changed eq t prev then t else none) else prev)
      ≡ or_else t prev
masked_time eq laws none prev = refl
masked_time eq laws (some t) prev = ground (arith, laws.time_iff (some t) prev)

masked_update_time :
    (eq : IsEqual) (now : ℕ) (t prev : Option ℕ) (touches : Bool)
    → (if touches || time_changed eq t prev
        then or_else (if time_changed eq t prev then t else none) (some now)
        else prev)
      ≡ (if time_changed eq t prev then t else if touches then some now else prev)
masked_update_time eq now none prev touches = ground arith
masked_update_time eq now (some t) prev touches = ground arith

module _ (eq : IsEqual) (laws : IsEquality eq) (now : ℕ) (s : State) (prev : Memo) where
  abbrev patched : Memo
  patched = apply_mask now (memo_patch eq s prev) (update_mask eq s prev) prev

  patched_content : patched.content ≡ s.content
  unfolding memo_patch
  patched_content =
      rw (has_path-update_mask eq s prev content)
        (ground (arith, laws.text_iff s.content prev.content))

  patched_visibility : patched.visibility ≡ s.memo_visibility
  unfolding memo_patch
  patched_visibility = rw (has_path-update_mask eq s prev visibility) (
      masked _ s.memo_visibility prev.visibility unspecified
        (laws.visibility_iff s.memo_visibility prev.visibility))

  patched_attachments : patched.attachments ≡ s.attachment_list
  unfolding memo_patch
  patched_attachments = rw (has_path-update_mask eq s prev attachments) (
      masked _ s.attachment_list prev.attachments []
        (laws.attachments_iff s.attachment_list prev.attachments))

  patched_relations : patched.relations ≡ s.relation_list
  unfolding memo_patch
  patched_relations = rw (has_path-update_mask eq s prev relations) (
      masked _ s.relation_list prev.relations []
        (laws.relations_iff s.relation_list prev.relations))

  patched_location : patched.location ≡ s.location
  unfolding memo_patch
  patched_location =
      rw (has_path-update_mask eq s prev location)
        (masked _ s.location prev.location none (laws.location_iff s.location prev.location))

  patched_create_time : patched.create_time ≡ or_else s.create_time prev.create_time
  unfolding memo_patch
  patched_create_time =
      rw (has_path-update_mask eq s prev create_time)
        (masked_time eq laws s.create_time prev.create_time)

  patched_update_time : patched.update_time ≡ (edited eq now s prev).update_time
  unfolding memo_patch
  patched_update_time =
      rw (has_path-update_mask eq s prev update_time)
        (masked_update_time eq now s.update_time prev.update_time (touched eq s prev))

  -- Where isEqual is equality of values, the patch that the editor sends, applied under its update mask
  -- to the memo it was made from, gives the memo as the editor shows it.
  pub apply_mask-memo_patch :
      apply_mask now (memo_patch eq s prev) (update_mask eq s prev) prev ≡ edited eq now s prev
  apply_mask-memo_patch = λ i. record {
    name = prev.name;
    state = prev.state;
    create_time = patched_create_time i;
    update_time = patched_update_time i;
    display_time = prev.display_time;
    content = patched_content i;
    visibility = patched_visibility i;
    attachments = patched_attachments i;
    relations = patched_relations i;
    location = patched_location i;
  }
