-- ===== src/Proto/Google.antt =====
-- app/web/src/types/proto/google/protobuf: a module for each message and enum.
pub mod Timestamp
pub mod FieldMask
pub mod Dates
pub mod Masks
