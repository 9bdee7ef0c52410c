-- ===== src/MemoEditor/Upload.antt =====
-- handleUploadResource and uploadMultiFiles of app/web/src/components/MemoEditor/index.tsx, as the drop and
-- the paste of files call them. What the attachment service answers for each file is an argument.
use collab_notes_ecs.Base.{
  ℕ, Text, truthy, Bool, true, false, Option, none, some, List, [], ◌∷◌, ◌++◌, ◌≡◌, refl, arith,
  ltb, length, if◌then◌else◌, append-nil, append_assoc, sym, ◌∙◌, ◌⊎◌, inl, inr,
}
use collab_notes_ecs.Api.{Attachment}
use collab_notes_ecs.MemoEditor.{Props, State}
use collab_notes_ecs.MemoEditor.Save.{Reply, ok, failed}

pub record File : Type 0 where
  pub filename : Text
  pub size : ℕ
  pub mime_type : Text

pub record AttachmentService : Type 0 where
  pub create_attachment : File → Reply Attachment
  pub set_memo : Attachment → Text → Reply Attachment

abbrev uploaded : Reply Attachment → Option Attachment
uploaded (ok attachment) = some attachment
uploaded (failed details) = none

-- The flag is set before the request and unset after it, whatever comes back.
unfoldable pub begin_upload : State → State
begin_upload s = record s { is_uploading_attachment = true }

unfoldable pub end_upload : State → State
end_upload s = record s { is_uploading_attachment = false }

unfoldable pub handle_upload_resource : AttachmentService → File → State → State × Option Attachment
unfolding begin_upload end_upload
handle_upload_resource service file s =
    (end_upload (begin_upload s), uploaded (service.create_attachment file))

abbrev is_ok : Reply Attachment → Bool
is_ok (ok attachment) = true
is_ok (failed details) = false

-- `if (memoName) await updateAttachment(...)`: whether the loop goes on, or throws
abbrev assigned : AttachmentService → Props → Attachment → Bool
assigned service props attachment =
    if truthy props.memo_name then is_ok (service.set_memo attachment props.memo_name) else true

-- The loop over the files: the attachments so far, or `none` if it threw.
unfoldable pub upload_each :
    AttachmentService
    → Props
    → List File
    → List Attachment
    → State
    → State × Option (List Attachment)
upload_each service props [] done s = (s, some done)
upload_each service props (file ∷ files) done s =
    let (s', result) = handle_upload_resource service file s in
    elim result [
      | none ↦ upload_each service props files done s'
      | some attachment ↦ elim (assigned service props attachment) [
        | true ↦ upload_each service props files (done ++ attachment ∷ []) s'
        | false ↦ (s', none)
      ]
    ]

abbrev add_uploaded : Option (List Attachment) → State → State
add_uploaded none s = s
add_uploaded (some done) s =
    if ltb 0 (length done) then record s { attachment_list = s.attachment_list ++ done } else s

unfoldable pub upload_multi_files : AttachmentService → Props → List File → State → State
unfolding upload_each
upload_multi_files service props files s =
    let (s', done) = upload_each service props files [] s in add_uploaded done s'

unfoldable pub handle_drop_event : AttachmentService → Props → List File → State → State
handle_drop_event service props [] s = s
handle_drop_event service props (file ∷ files) s =
    upload_multi_files service props (file ∷ files) (record s { is_dragging_file = false })

-- The attachments of the files that were uploaded, in order.
abbrev pub successes : AttachmentService → List File → List Attachment
successes service [] = []
successes service (file ∷ files) = elim (service.create_attachment file) [
  | ok attachment ↦ attachment ∷ successes service files
  | failed details ↦ successes service files
]

-- Every uploaded attachment could be given to the memo that is edited.
abbrev pub AllAssigned : AttachmentService → Props → List Attachment → Type 0
AllAssigned service props [] = Unit
AllAssigned service props (a ∷ attachments) =
    (assigned service props a ≡ true) × AllAssigned service props attachments

abbrev uploading_after : List File → Bool → Bool
uploading_after [] flag = flag
uploading_after (file ∷ files) flag = false

abbrev settled : List File → State → State
settled files s = record s {
  is_uploading_attachment = uploading_after files s.is_uploading_attachment;
}

settled_twice :
    (file : File) (files : List File) (s : State)
    → settled files (settled (file ∷ []) s) ≡ settled (file ∷ files) s
settled_twice file [] s = refl
settled_twice file (f ∷ files) s = refl

Reply-cases {ℓ} :
    {A : Type ℓ} (r : Reply A) → ((a : A) × (r ≡ ok a)) ⊎ ((details : Text) × (r ≡ failed details))
Reply-cases (ok a) = inl (a, refl)
Reply-cases (failed details) = inr (details, refl)

upload_each-successes :
    (service : AttachmentService) (props : Props) (files : List File) (done : List Attachment)
    (s : State)
    → AllAssigned service props (successes service files)
    → upload_each service props files done s
      ≡ (settled files s, some (done ++ successes service files))
unfolding upload_each handle_upload_resource begin_upload end_upload
upload_each-successes service props [] done s h = rw (append-nil done)
upload_each-successes service props (file ∷ files) done s h =
    elim (Reply-cases (service.create_attachment file)) [
      | inr (details, e) ↦
          let h' : AllAssigned service props (successes service files) = rw (e, successes) at h in
          rw (e, upload_each, successes)
            (upload_each-successes service props files done (settled (file ∷ []) s) h'
              ∙ rw (settled_twice file files s))
      | inl (a, e) ↦
          let h' : (assigned service props a ≡ true)
              × AllAssigned service props (successes service files) =
            rw (e, successes) at h in
          rw (e, h'.0, upload_each, successes)
            (upload_each-successes service props files (done ++ a ∷ []) (settled (file ∷ []) s) h'.1
              ∙ rw (
                settled_twice file files s,
                append_assoc done (a ∷ []) (successes service files),
              ))
    ]

add_uploaded-some :
    (done : List Attachment) (s : State)
    → add_uploaded (some done) s ≡ record s { attachment_list = s.attachment_list ++ done }
add_uploaded-some [] s = λ i. record s { attachment_list = sym (append-nil s.attachment_list) i }
add_uploaded-some (a ∷ done) s = ground arith

-- Where every uploaded attachment can be given to the edited memo, the files of a drop end as
-- attachments of the editor: those whose upload succeeded, in the order of the files, behind the
-- ones it had. The text and the other lists stay, and no upload is under way.
pub drop_files :
    (service : AttachmentService) (props : Props) (file : File) (files : List File) (s : State)
    → AllAssigned service props (successes service (file ∷ files))
    → handle_drop_event service props (file ∷ files) s ≡ record s {
      is_dragging_file = false;
      is_uploading_attachment = false;
      attachment_list = s.attachment_list ++ successes service (file ∷ files);
    }
unfolding handle_drop_event upload_multi_files
drop_files service props file files s h =
    let start : State = record s { is_dragging_file = false } in
    rw (upload_each-successes service props (file ∷ files) [] start h)
      (add_uploaded-some (successes service (file ∷ files)) (settled (file ∷ files) start))
