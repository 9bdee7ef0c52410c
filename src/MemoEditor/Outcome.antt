-- ===== src/MemoEditor/Outcome.antt =====
-- What is left after handleSaveBtnClick: whether the editor can save again, and what a failed save does
-- to the next one.
use collab_notes_ecs.Base.{
  Text, truthy, Bool, true, false, ◌&&◌, none, some, [], ◌≡◌, ◌≢◌, refl, arith, if◌then◌else◌,
  Bool-cases, inl, inr, ◌∙◌,
}
use collab_notes_ecs.Api.{Memo}
use collab_notes_ecs.MemoEditor.{Props, State, IsEqual, IsEquality, set_content, allow_save}
use collab_notes_ecs.MemoEditor.Save.{
  FieldPath, attachments, has_path, update_mask, memo_patch, is_empty, Reply, ok, failed, Services,
  Tried, returned, finished, thrown, confirm_reply, conclude, try_update, try_save, reset,
  begin_save, end_save,
}
use collab_notes_ecs.MemoEditor.Mask.{changed, has_path-update_mask, is_empty-update_mask}

abbrev unchanged_reply : IsEqual → State → Reply Memo → Bool
unchanged_reply eq s (ok prev) = is_empty (update_mask eq s prev)
unchanged_reply eq s (failed details) = false

abbrev is_returned : Tried → Bool
is_returned (returned effects) = true
is_returned _ = false

is_requesting-conclude :
    (t : Tried) (s : State)
    → (conclude t s).0.is_requesting ≡ (if is_returned t then s.is_requesting else false)
unfolding reset set_content
is_requesting-conclude (returned effects) s = refl
is_requesting-conclude (finished effects) s = refl
is_requesting-conclude (thrown details) s = refl

is_returned-confirm_reply :
    (props : Props) (r : Reply Memo) → is_returned (confirm_reply props r) ≡ false
is_returned-confirm_reply props (ok memo) = refl
is_returned-confirm_reply props (failed details) = refl

module _ (eq : IsEqual) (services : Services) (props : Props) where
  -- A memo is edited, and the editor has nothing to change in it.
  abbrev pub is_unchanged : State → Bool
  is_unchanged s =
      truthy props.memo_name
      && unchanged_reply eq s (services.get_or_fetch_memo_by_name props.memo_name)

  is_returned-try_update :
      (s : State) (r : Reply Memo)
      → is_returned (try_update eq services props s r) ≡ unchanged_reply eq s r
  unfolding try_update
  is_returned-try_update s (failed details) = refl
  is_returned-try_update s (ok prev) = elim (Bool-cases (is_empty (update_mask eq s prev))) [
    | inl same ↦ rw same
    | inr other ↦ rw other (is_returned-confirm_reply props _)
  ]

  is_returned-try_save : (s : State) → is_returned (try_save eq services props s) ≡ is_unchanged s
  unfolding try_save
  is_returned-try_save s = elim (Bool-cases (truthy props.memo_name)) [
    | inl editing ↦
        rw editing (is_returned-try_update s (services.get_or_fetch_memo_by_name props.memo_name))
    | inr creating ↦ rw creating (is_returned-confirm_reply props _)
  ]

  -- A save that is over leaves the editor free for the next one, except where a memo is edited and
  -- there was nothing to change: then the flag of a running save stays as it was.
  pub is_requesting-end_save :
      (clicked s : State)
      → (end_save eq services props clicked s).0.is_requesting
        ≡ (if is_unchanged clicked then s.is_requesting else false)
  unfolding end_save
  is_requesting-end_save clicked s =
      is_requesting-conclude (try_save eq services props clicked) s
      ∙ rw (is_returned-try_save clicked)

  -- If a save of an edited memo begins and the memo that the store has is as the editor shows it, then
  -- when it is over the flag of a running save is still set, so that a further call starts no save and
  -- the save button is disabled.
  pub unchanged_save_blocks :
      (clicked s : State) (prev : Memo)
      → begin_save clicked ≡ some s
      → truthy props.memo_name ≡ true
      → services.get_or_fetch_memo_by_name props.memo_name ≡ ok prev
      → ((p : FieldPath) → changed eq clicked prev p ≡ false)
      → let after = (end_save eq services props clicked s).0 in
        (after.is_requesting ≡ true) × (begin_save after ≡ none) × (allow_save after ≡ false)
  unfolding begin_save allow_save
  unchanged_save_blocks clicked s prev begun editing got same =
      let running : s.is_requesting ≡ true = ground arith in
      let nothing : is_unchanged clicked ≡ true =
        rw (editing, got) ((is_empty-update_mask eq clicked prev).1 same) in
      let after : (end_save eq services props clicked s).0.is_requesting ≡ true =
        is_requesting-end_save clicked s ∙ rw (nothing, running) refl in
      (after, rw after, ground (arith, after))

module _ (eq : IsEqual) (laws : IsEquality eq) (services : Services) (props : Props) where
  -- Where isEqual is equality of values: if a save throws, the text stays in the editor and its draft is gone, and what the editor would send
  -- next, compared with a memo that has attachments, asks the service to remove them all.
  pub failed_save_drops_attachments :
      (clicked s : State) (prev : Memo) (details : Text)
      → try_save eq services props clicked ≡ thrown details
      → prev.attachments ≢ []
      → let after = (end_save eq services props clicked s).0 in
        (after.content ≡ s.content)
        × (after.content_cache ≡ [])
        × (has_path attachments (update_mask eq after prev) ≡ true)
        × ((memo_patch eq after prev).attachments ≡ some [])
  unfolding end_save memo_patch
  failed_save_drops_attachments clicked s prev details threw some_attachment =
      let removed : eq.attachments [] prev.attachments ≡ false =
        ground (arith, laws.attachments_iff [] prev.attachments, some_attachment) in
      rw threw
        (refl, refl, has_path-update_mask eq (reset s) prev attachments ∙ rw removed, rw removed)
