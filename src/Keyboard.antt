-- ===== src/Keyboard.antt =====
-- The keyboard driver, pkg/rm_keyboard, and the message that its clients read.
pub mod Keys
pub mod Server
pub mod Held
pub mod Invariant
pub mod Client
pub mod Dots
pub mod Race
mod Tests
