-- ===== src/Memory.antt =====
-- internal/infrastructure/memory: the stores that keep their data in maps, and the event bus.
pub mod Stores
pub mod Bus
pub mod Tests
pub mod StartTests
mod SeasonTests
mod MidgameTests
mod ReachTests
mod RaceTests
mod FailureTests
mod JoinTests
