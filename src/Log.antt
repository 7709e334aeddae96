-- ===== src/Log.antt =====
-- The log server, pkg/rm_log.
pub mod Server
pub mod Screen
mod Tests
