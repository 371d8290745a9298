-- ===== src/Usecase.antt =====
-- internal/usecase: the services that the HTTP handlers call, over the stores as ports.
pub mod Decisions
pub mod Ports
pub mod Contracts
pub mod Rooms
pub mod Games
pub mod Reads
pub mod Failures
pub mod Worlds
