-- ===== src/Entitlement.antt =====
-- packages/entitlement/src: what a tenant bought, and what that resolves to.
pub mod ModuleData
pub mod TierData
pub mod ProfileData
pub mod Modules
pub mod Resolve
pub mod Upgrade
mod Tests
