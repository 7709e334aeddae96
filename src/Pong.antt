-- ===== src/Pong.antt =====
-- The client of the Pong server, pkg/rm_pong_client.
pub mod Paddle
pub mod Moves
pub mod Threads
pub mod Drift
pub mod Connect
mod Tests
mod ThreadTests
