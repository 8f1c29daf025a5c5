-- ===== src/Api.antt =====
-- internal/api/http: the handlers of the gateway.
pub mod Catalog
pub mod Courses
pub mod Normalize
pub mod Ephemeral
pub mod Teachers
pub mod Students
pub mod Owner
