-- ===== src/Platform.antt =====
-- pkg/platform: the services that the platform offers to tools, over HTTP.
pub mod Http
pub mod Replay
pub mod Bearer
pub mod Scopes
pub mod Tenants
pub mod Tenancy
pub mod Assertion
pub mod Token
pub mod Ags
pub mod Admin
pub mod Nrps
pub mod Authorize
pub mod Jwks
pub mod Keys
pub mod DeepLinking
pub mod Metadata
