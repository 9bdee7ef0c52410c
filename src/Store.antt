-- ===== src/Store.antt =====
-- app/web/src/store: the client's stores.
pub mod Memo
pub mod MemoFilter
pub mod Workspace
pub mod Attachment
pub mod User
pub mod View
