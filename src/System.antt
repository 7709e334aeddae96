-- ===== src/System.antt =====
-- The servers and clients together.
pub mod Tab
pub mod Paddles
pub mod Race
pub mod Startup
mod Tests
mod RaceTests
