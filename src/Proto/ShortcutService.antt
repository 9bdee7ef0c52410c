-- ===== src/Proto/ShortcutService.antt =====
-- app/web/src/types/proto/api/v1/shortcut_service.ts: a module for each message and enum.
pub mod Shortcut
