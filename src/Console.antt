-- ===== src/Console.antt =====
-- The graphical console, pkg/rm_consoleAlt1: two virtual consoles, of which one is shown.
pub mod Ctrl
pub mod Switch
pub mod Factory
pub mod Reach
pub mod Threads
pub mod Follows
pub mod SwitchTurn
pub mod MakeTurn
pub mod Linear
mod Tests
mod ThreadTests
