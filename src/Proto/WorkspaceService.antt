-- ===== src/Proto/WorkspaceService.antt =====
-- app/web/src/types/proto/api/v1/workspace_service.ts: a module for each message and enum.
pub mod WorkspaceProfile
pub mod WorkspaceSettingGeneralSettingCustomProfile
pub mod WorkspaceSettingGeneralSetting
pub mod WorkspaceSettingStorageSettingStorageType
pub mod WorkspaceSettingStorageSettingS3Config
pub mod WorkspaceSettingStorageSetting
pub mod WorkspaceSettingMemoRelatedSetting
pub mod WorkspaceSetting
