-- ===== src/Proto/Common.antt =====
-- app/web/src/types/proto/api/v1/common.ts: a module for each message and enum.
pub mod State
