-- ===== src/Utils/AttachmentType.antt =====
-- app/web/src/utils/attachment.ts: the kinds of attachments by their MIME types, and their addresses.
use collab_notes_ecs.Base.{
  Text, txt, ◌==◌, truthy, starts_with, includes, Bool, true, false, not, ◌&&◌, ◌||◌, ◌∷◌, ◌++◌,
  ◌≡◌, refl, if◌then◌else◌, Bool-cases, inl, inr,
}
use collab_notes_ecs.Api.{Attachment}

unfoldable pub is_psd : Text → Bool
is_psd t =
    (t == txt "image/vnd.adobe.photoshop")
    || (t == txt "image/x-photoshop")
    || (t == txt "image/photoshop")

unfoldable pub is_image : Text → Bool
is_image t = starts_with t (txt "image/") && not (is_psd t)

unfoldable pub is_midi_file : Text → Bool
is_midi_file t =
    (t == txt "audio/midi")
    || (t == txt "audio/mid")
    || (t == txt "audio/x-midi")
    || (t == txt "application/x-midi")

-- the part of `getAttachmentType` for what is no image
unfoldable pub other_type : Text → Text
other_type t =
    if starts_with t (txt "video")
    then txt "video/*"
    else if starts_with t (txt "audio") && not (is_midi_file t)
    then txt "audio/*"
    else if starts_with t (txt "text")
    then txt "text/*"
    else if starts_with t (txt "application/epub+zip")
    then txt "application/epub+zip"
    else if starts_with t (txt "application/pdf")
    then txt "application/pdf"
    else if includes t (txt "word")
    then txt "application/msword"
    else if includes t (txt "excel")
    then txt "application/msexcel"
    else if starts_with t (txt "application/zip")
    then txt "application/zip"
    else if starts_with t (txt "application/x-java-archive")
    then txt "application/x-java-archive"
    else txt "application/octet-stream"

unfoldable pub get_attachment_type : Attachment → Text
get_attachment_type attachment =
    if is_image attachment.mime_type then txt "image/*" else other_type attachment.mime_type

unfoldable pub get_attachment_url : Text → Attachment → Text
get_attachment_url origin attachment =
    if truthy attachment.external_link
    then attachment.external_link
    else origin ++ txt "/file/" ++ attachment.name ++ (b'/' ∷ attachment.filename)

-- Which result a chain of tests gives is one of the results.
if_test :
    (b : Bool) (p q k : Text)
    → (p == k) ≡ false
    → (q == k) ≡ false
    → ((if b then p else q) == k) ≡ false
if_test true p q k hp hq = hp
if_test false p q k hp hq = hq

other_type_lem : (t : Text) → (other_type t == txt "image/*") ≡ false
unfolding other_type ◌==◌
other_type_lem t = if_test (starts_with t (txt "video")) _ _ (txt "image/*") refl (
    if_test (starts_with t (txt "audio") && not (is_midi_file t)) _ _ (txt "image/*") refl (
      if_test (starts_with t (txt "text")) _ _ (txt "image/*") refl (
        if_test (starts_with t (txt "application/epub+zip")) _ _ (txt "image/*") refl (
          if_test (starts_with t (txt "application/pdf")) _ _ (txt "image/*") refl (
            if_test (includes t (txt "word")) _ _ (txt "image/*") refl (
              if_test (includes t (txt "excel")) _ _ (txt "image/*") refl (
                if_test (starts_with t (txt "application/zip")) _ _ (txt "image/*") refl (
                  if_test (starts_with t (txt "application/x-java-archive")) _ _ (txt "image/*")
                    refl refl))))))))

-- An attachment counts as an image exactly if its MIME type starts with "image/" and is no PSD's.
get_attachment_type_lem :
    (attachment : Attachment)
    → (get_attachment_type attachment == txt "image/*") ≡ is_image attachment.mime_type
unfolding get_attachment_type ◌==◌
get_attachment_type_lem attachment = elim (Bool-cases (is_image attachment.mime_type)) [
  | inl image ↦ rw image refl
  | inr other ↦ rw other (other_type_lem attachment.mime_type)
]
