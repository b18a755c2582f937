-- ===== src/Srtp/Roc.antt =====
-- src/hermes_voip/media/srtp.py: the receiver's estimate of the rollover counter (RFC 3711, 3.3.1).
use hermes_voip.Base.{ℕ, ◌+◌, ◌/◌, ◌%◌, ◌<◌, ◌≡◌, some, arith}
use hermes_voip.Srtp.{SrtpSession, estimate_roc, packet_index, roc_mod, seq_half}

-- The sender's packet index is the 48-bit number `i`, of which only the low 16 bits are sent. If
-- `i` lies less than 2^15 from the highest index received, the receiver reconstructs it: the
-- estimated rollover counter is the high part of `i`. The counter must not itself wrap.
pub estimate_roc_exact :
    (s : SrtpSession) (top i : ℕ)
    → s.seq_top ≡ some top
    → top < 65536
    → s.roc + 1 < roc_mod
    → packet_index s.roc top < i + seq_half
    → i < packet_index s.roc top + seq_half
    → (estimate_roc s (i % 65536) ≡ i / 65536)
      × (packet_index (estimate_roc s (i % 65536)) (i % 65536) ≡ i)
unfolding estimate_roc
estimate_roc_exact s top i at range no_wrap lo hi = ground arith
