-- ===== src/Proto/MemoService.antt =====
-- app/web/src/types/proto/api/v1/memo_service.ts: a module for each message and enum.
pub mod Visibility
pub mod MemoRelationMemo
pub mod MemoRelationType
pub mod MemoRelation
pub mod Reaction
pub mod MemoProperty
pub mod Location
pub mod Memo
pub mod ListMemosRequest
pub mod ListMemosResponse
pub mod CreateMemoRequest
pub mod UpdateMemoRequest
pub mod DeleteMemoRequest
pub mod SetMemoAttachmentsRequest
pub mod SetMemoRelationsRequest
pub mod ListMemoReactionsResponse
pub mod UpsertMemoReactionRequest
