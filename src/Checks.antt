-- ===== src/Checks.antt =====
-- The theorems at concrete inputs.
pub mod Playout
pub mod Window
pub mod Security
pub mod Keypad
pub mod Signalling
pub mod Transport
pub mod Calls
pub mod Media
pub mod Transfer
