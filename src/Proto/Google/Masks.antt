-- ===== src/Proto/Google/Masks.antt =====
-- `FieldMask.wrap` and `FieldMask.unwrap` of app/web/src/types/proto/google/protobuf/field_mask.ts: a field that
-- holds a mask is a list of paths in the client.
use collab_notes_ecs.Base.{List, Text, refl}
use collab_notes_ecs.Proto.Wire.{Wire, Kind}
use collab_notes_ecs.Proto.Kinds.{convert}
use collab_notes_ecs.Proto.Google.FieldMask.{FieldMask, field_mask_message}

unfoldable pub wrap : List Text → FieldMask
wrap paths = record { paths = paths }

unfoldable pub unwrap : FieldMask → List Text
unwrap m = m.paths

unfoldable pub field_mask : Wire → Kind (List Text)
unfolding wrap unwrap
field_mask wire = convert wrap unwrap (λ paths. refl) (field_mask_message wire)
