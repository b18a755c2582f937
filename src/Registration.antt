-- ===== src/Registration.antt =====
-- src/hermes_voip/registration.py: the registration of an extension.
pub mod Binding
pub mod Flow
pub mod Steps
pub mod Traffic
pub mod Grant
