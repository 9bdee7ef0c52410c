-- ===== src/Utils/Tests.antt =====
-- Languages, visibilities and attachments on concrete inputs, and instances of the theorems.
use collab_notes_ecs.Base.{txt, ◌==◌, ◌≡◌, refl, true, if◌then◌else◌}
use collab_notes_ecs.Base.{[], none, starts_with, includes}
use collab_notes_ecs.Api.{Attachment}
use collab_notes_ecs.Utils.AttachmentType.{
  get_attachment_type, other_type, is_image, is_psd, is_midi_file,
}
use collab_notes_ecs.Utils.Language.{
  as_written, translations, locales, find_nearest_matched_language, is_validate_locale, IsNear,
  find_nearest_matched_language_lem, short_code, find_by_short_code, find_fallback,
}

traditional : find_nearest_matched_language as_written (txt "zh-TW") ≡ txt "zh-Hant"
unfolding as_written find_nearest_matched_language find_fallback locales translations ◌==◌
traditional = refl

other_region : find_nearest_matched_language as_written (txt "pt-AO") ≡ txt "pt-PT"
unfolding as_written find_nearest_matched_language find_fallback find_by_short_code short_code
    locales translations ◌==◌
other_region = refl

find_nearest_matched_language_lem_example :
    let nearest = find_nearest_matched_language as_written (txt "pt-AO") in
    (is_validate_locale as_written nearest ≡ true)
    × IsNear (txt "pt-AO") nearest
    × (nearest ≡ (if is_validate_locale as_written (txt "pt-AO") then txt "pt-AO" else nearest))
find_nearest_matched_language_lem_example =
    find_nearest_matched_language_lem as_written (txt "pt-AO")

abbrev photo : Attachment
photo = record {
  name = txt "attachments/7";
  filename = txt "a.psd";
  create_time = none;
  external_link = [];
  mime_type = txt "image/x-photoshop";
  size = 9;
  memo = none;
}

photo_type : get_attachment_type photo ≡ txt "application/octet-stream"
unfolding get_attachment_type other_type is_image is_psd is_midi_file starts_with includes ◌==◌
photo_type = refl
