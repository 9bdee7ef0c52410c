-- ===== src/Proto/IdpService.antt =====
-- app/web/src/types/proto/api/v1/idp_service.ts: a module for each message and enum.
pub mod IdentityProviderType
pub mod FieldMapping
pub mod OAuth2Config
pub mod IdentityProviderConfig
pub mod IdentityProvider
