-- ===== src/Console.antt =====
-- The operator's console: packages/mock/src/admin.
pub mod Data
pub mod Directory
pub mod Doors
pub mod Tenants
pub mod Provisioning
pub mod Support
pub mod Registry
pub mod Guards
pub mod Steps
pub mod OneOpen
pub mod Closed
pub mod Ladder
pub mod Trail
mod Tests
