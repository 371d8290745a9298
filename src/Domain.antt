-- ===== src/Domain.antt =====
-- The package internal/domain: roles, scenarios, rooms and game sessions.
pub mod Role
pub mod Scenario
pub mod Room
pub mod RoleMap
pub mod Session
pub mod Analytics
