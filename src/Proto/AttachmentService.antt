-- ===== src/Proto/AttachmentService.antt =====
-- app/web/src/types/proto/api/v1/attachment_service.ts: a module for each message and enum.
pub mod Attachment
