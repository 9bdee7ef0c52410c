-- ===== src/Store/Attachment/Tests.antt =====
-- Replies about two attachments.
use collab_notes_ecs.Base.{Text, txt, ◌==◌, some, none, List, [], ◌∷◌, ◌≡◌, refl}
use collab_notes_ecs.Base.Dict.{get, put, values}
use collab_notes_ecs.Api.{Attachment}
use collab_notes_ecs.Store.Attachment.{
  initial, end_create_attachment, end_update_attachment, get_attachment_by_name, Event, created,
  updated, step, run,
}

abbrev attachment_named : Text → Text → Attachment
attachment_named name filename = record {
  name = name;
  filename = filename;
  create_time = none;
  external_link = [];
  mime_type = txt "text/plain";
  size = 1;
  memo = none;
}

abbrev replies : List Event
replies =
    created (attachment_named (txt "attachments/1") (txt "a"))
    ∷ created (attachment_named (txt "attachments/2") (txt "b"))
    ∷ updated (attachment_named (txt "attachments/1") (txt "c"))
    ∷ []

updated_first :
    get_attachment_by_name (txt "attachments/1") (run replies initial)
    ≡ some (attachment_named (txt "attachments/1") (txt "c"))
unfolding run step end_create_attachment end_update_attachment get_attachment_by_name get put values
    ◌==◌
updated_first = refl
