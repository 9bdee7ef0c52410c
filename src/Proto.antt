-- ===== src/Proto.antt =====
-- The generated codecs of app/web/src/types/proto: how a message is written to the wire and read back.
pub mod Integers
pub mod Wire
pub mod Loop
pub mod Fields
pub mod Kinds
pub mod Defaults
pub mod Maps
pub mod Codec
pub mod Google
pub mod Common
pub mod MemoService
pub mod AttachmentService
pub mod WorkspaceService
pub mod UserService
pub mod ShortcutService
pub mod InboxService
pub mod IdpService
pub mod MemoDecoding
pub mod Settings
pub mod Stats
pub mod Sample
pub mod Tests
