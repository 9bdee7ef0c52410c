-- ===== src/Utils.antt =====
-- app/web/src/utils and app/web/src/i18n.ts: languages, visibilities and attachment types.
pub mod Language
pub mod Visibility
pub mod AttachmentType
pub mod Tests
