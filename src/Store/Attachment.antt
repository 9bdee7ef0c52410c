-- ===== src/Store/Attachment.antt =====
-- app/web/src/store/attachment.ts: the attachments by name. Each method awaits the service and then stores
-- the attachment that it answers with in a copy of the map.
pub mod Lookup
pub mod Tests
use collab_notes_ecs.Base.{Text, ◌==◌, Option, List, [], ◌∷◌, find}
use collab_notes_ecs.Base.Dict.{Dict, put, values}
use collab_notes_ecs.Api.{Attachment}

pub record LocalState : Type 0 where
  pub attachment_map_by_name : Dict Attachment

abbrev pub initial : LocalState
initial = record { attachment_map_by_name = [] }

abbrev store_attachment : Attachment → LocalState → LocalState
store_attachment attachment s = record {
  attachment_map_by_name = put s.attachment_map_by_name attachment.name attachment;
}

unfoldable pub end_fetch_attachment : Attachment → LocalState → LocalState
end_fetch_attachment attachment s = store_attachment attachment s

unfoldable pub end_create_attachment : Attachment → LocalState → LocalState
end_create_attachment attachment s = store_attachment attachment s

unfoldable pub end_update_attachment : Attachment → LocalState → LocalState
end_update_attachment attachment s = store_attachment attachment s

unfoldable pub get_attachment_by_name : Text → LocalState → Option Attachment
get_attachment_by_name name s =
    find (λ (a : Attachment). a.name == name) (values s.attachment_map_by_name)

-- A reply to one of the three methods
pub data Event : Type 0 where
  fetched created updated : Attachment → Event

unfoldable pub step : Event → LocalState → LocalState
step (fetched attachment) s = end_fetch_attachment attachment s
step (created attachment) s = end_create_attachment attachment s
step (updated attachment) s = end_update_attachment attachment s

unfoldable pub run : List Event → LocalState → LocalState
run [] s = s
run (e ∷ es) s = run es (step e s)
