-- ===== src/Dtmf.antt =====
-- src/hermes_voip/dtmf.py and src/hermes_voip/dtmf_confirm.py: DTMF over RTP (RFC 4733), and the
-- confirmation by a key-press.
pub mod Event
pub mod Receiver
pub mod Press
pub mod Inband
pub mod Confirm
