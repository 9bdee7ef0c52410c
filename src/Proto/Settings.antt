-- ===== src/Proto/Settings.antt =====
-- `WorkspaceSetting.encode` and `decode` of app/web/src/types/proto/api/v1/workspace_service.ts.
use collab_notes_ecs.Base.{◌≡◌, some}
use collab_notes_ecs.Proto.Wire.{Wire}
use collab_notes_ecs.Proto.Kinds.{decode_with-Runs}
use collab_notes_ecs.Proto.WorkspaceService.WorkspaceSetting.{
  WorkspaceSetting, base, encode, decode, switch, Valid, encode-Runs,
}

-- Decoding what `encode` writes gives the setting back, with the profile and the storage configuration in
-- it, if its texts can be written, its numbers fit their kind, and each message in it encodes to less than
-- 2^32 bytes.
pub decode-encode_setting :
    (wire : Wire) (s : WorkspaceSetting) → Valid wire s → decode wire (encode wire s) ≡ some s
unfolding decode
decode-encode_setting wire s valid =
    decode_with-Runs wire (switch wire) base (encode wire s) s (encode-Runs wire s valid)
