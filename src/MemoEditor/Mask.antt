-- ===== src/MemoEditor/Mask.antt =====
-- The update mask of handleSaveBtnClick.
use collab_notes_ecs.Base.{
  ℕ, zero, suc, eqb_iff, eqb_refl, Bool, true, false, not, ◌&&◌, ◌||◌, List, [], ◌∷◌, ◌++◌, ◌≡◌,
  ◌↔◌, refl, arith, Bool-cases, inl, inr, ◌∙◌, ap, sym,
}
use collab_notes_ecs.Api.{Memo}
use collab_notes_ecs.MemoEditor.{State, IsEqual}
use collab_notes_ecs.MemoEditor.Save.{
  FieldPath, content, visibility, attachments, relations, location, update_time, create_time,
  same_path, path_number, has_path, add_if, time_changed, field_mask, touches, update_mask,
  is_empty,
}

path_of : ℕ → FieldPath
path_of zero = content
path_of (suc zero) = visibility
path_of (suc (suc zero)) = attachments
path_of (suc (suc (suc zero))) = relations
path_of (suc (suc (suc (suc zero)))) = location
path_of (suc (suc (suc (suc (suc zero))))) = update_time
path_of _ = create_time

path_of-path_number : (p : FieldPath) → path_of (path_number p) ≡ p
unfolding path_of
path_of-path_number content = refl
path_of-path_number p = refl

same_path-eq : (p q : FieldPath) → same_path p q ≡ true → p ≡ q
unfolding same_path
same_path-eq p q h =
    sym (path_of-path_number p)
    ∙ ap path_of ((eqb_iff (path_number p) (path_number q)).0 h)
    ∙ path_of-path_number q

has_path-concat :
    (p q : FieldPath) (mask : List FieldPath)
    → has_path p (mask ++ q ∷ []) ≡ (same_path q p || has_path p mask)
has_path-concat p q [] = refl
has_path-concat p q (r ∷ mask) = ground (arith, has_path-concat p q mask)

has_path-add_if :
    (p q : FieldPath) (b : Bool) (mask : List FieldPath)
    → has_path p (add_if b q mask) ≡ ((b && same_path q p) || has_path p mask)
unfolding add_if
has_path-add_if p q false mask = refl
has_path-add_if p q true mask = elim (Bool-cases (has_path q mask)) [
  | inl old ↦ rw old (elim (Bool-cases (same_path q p)) [
    | inl same ↦ rw same (rw (← same_path-eq q p same) old)
    | inr other ↦ rw other
  ])
  | inr new ↦ rw new (has_path-concat p q mask)
]

has_path-is_empty :
    (mask : List FieldPath) → is_empty mask ≡ true → (p : FieldPath) → has_path p mask ≡ false
has_path-is_empty [] h p = refl
has_path-is_empty (q ∷ mask) h p = cc

is_empty-has_path :
    (mask : List FieldPath) → ((p : FieldPath) → has_path p mask ≡ false) → is_empty mask ≡ true
unfolding same_path
is_empty-has_path [] h = refl
is_empty-has_path (q ∷ mask) h = ground (arith, h q, eqb_refl (path_number q))

module _ (eq : IsEqual) (s : State) (prev : Memo) where
  -- A change of these fields moves the memo's update time.
  abbrev pub touched : Bool
  touched =
      not (eq.text s.content prev.content)
      || not (eq.attachments s.attachment_list prev.attachments)
      || not (eq.relations s.relation_list prev.relations)
      || not (eq.location s.location prev.location)

  abbrev pub changed : FieldPath → Bool
  changed content = not (eq.text s.content prev.content)
  changed visibility = not (eq.visibility s.memo_visibility prev.visibility)
  changed attachments = not (eq.attachments s.attachment_list prev.attachments)
  changed relations = not (eq.relations s.relation_list prev.relations)
  changed location = not (eq.location s.location prev.location)
  changed update_time = touched || time_changed eq s.update_time prev.update_time
  changed create_time = time_changed eq s.create_time prev.create_time

  has_path-field_mask :
      (p : FieldPath)
      → has_path p (field_mask eq s prev) ≡ (
          (not (eq.location s.location prev.location) && same_path location p)
          || (not (eq.relations s.relation_list prev.relations) && same_path relations p)
          || (not (eq.attachments s.attachment_list prev.attachments) && same_path attachments p)
          || (not (eq.visibility s.memo_visibility prev.visibility) && same_path visibility p)
          || (not (eq.text s.content prev.content) && same_path content p))
  unfolding field_mask
  has_path-field_mask p = simp has_path-add_if (ground arith)

  touches-field_mask : touches (field_mask eq s prev) ≡ touched
  unfolding same_path
  touches-field_mask = ground (
    arith,
    has_path-field_mask content,
    has_path-field_mask attachments,
    has_path-field_mask relations,
    has_path-field_mask location,
  )

  has_path-update_mask_if :
      (p : FieldPath)
      → has_path p (update_mask eq s prev) ≡ (
          (time_changed eq s.update_time prev.update_time && same_path update_time p)
          || ((time_changed eq s.create_time prev.create_time && same_path create_time p)
              || ((touched && same_path update_time p) || has_path p (field_mask eq s prev))))
  unfolding update_mask
  has_path-update_mask_if p = simp has_path-add_if (rw touches-field_mask)

  -- The mask has the paths of what was changed, and no other.
  pub has_path-update_mask : (p : FieldPath) → has_path p (update_mask eq s prev) ≡ changed p
  unfolding same_path
  has_path-update_mask content =
      ground (arith, has_path-update_mask_if content, has_path-field_mask content)
  has_path-update_mask p = ground (arith, has_path-update_mask_if p, has_path-field_mask p)

  -- The update mask is empty exactly if no field of the memo was changed in the editor.
  pub is_empty-update_mask :
      (is_empty (update_mask eq s prev) ≡ true) ↔ ((p : FieldPath) → changed p ≡ false)
  is_empty-update_mask = (
    λ h p. sym (has_path-update_mask p) ∙ has_path-is_empty (update_mask eq s prev) h p,
    λ h. is_empty-has_path (update_mask eq s prev) (λ p. has_path-update_mask p ∙ h p),
  )
