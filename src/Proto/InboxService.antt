-- ===== src/Proto/InboxService.antt =====
-- app/web/src/types/proto/api/v1/inbox_service.ts: a module for each message and enum.
pub mod InboxStatus
pub mod InboxType
pub mod Inbox
