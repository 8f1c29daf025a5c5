-- ===== src/Rbac.antt =====
-- internal/rbac: the permissions of the roles.
pub mod Checker
pub mod Require
pub mod Patterns
