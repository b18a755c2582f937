-- ===== src/Rtp.antt =====
-- src/hermes_voip/rtp.py: RTP packets and the reordering jitter buffer.
pub mod Serial
pub mod Packet
pub mod Jitter
