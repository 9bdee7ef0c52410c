-- ===== src/Proto/UserService.antt =====
-- app/web/src/types/proto/api/v1/user_service.ts: a module for each message and enum.
pub mod UserRole
pub mod User
pub mod UserSettingGeneralSetting
pub mod UserSessionClientInfo
pub mod UserSession
pub mod UserSettingSessionsSetting
pub mod UserAccessToken
pub mod UserSettingAccessTokensSetting
pub mod UserWebhook
pub mod UserSettingWebhooksSetting
pub mod UserSetting
pub mod UserStatsMemoTypeStats
pub mod UserStatsTagCountEntry
pub mod UserStats
