-- ===== src/Redis.antt =====
-- internal/infrastructure/redis: the stores and the publisher over a client of a Redis server.
pub mod Keys
pub mod Stores
pub mod Events
pub mod Tests
mod RaceTests
