-- ===== src/Rbac.antt =====
-- packages/rbac/src: what a person may do.
pub mod PermissionIds
pub mod PermissionData
pub mod Roles
pub mod Team
mod Tests
