-- ===== src/Rtp/Serial.antt =====
-- src/hermes_voip/rtp.py: 16-bit serial-number arithmetic (RFC 1982). Sequence numbers are native
-- numbers below `seq_mod`; Python's `(b - a) % m` is floored, so the modulus is added first.
use hermes_voip.Base.{ℕ, ◌+◌, ◌-◌, ◌%◌, Bool, not, ◌&&◌, ◌==◌, ltb}

abbrev pub seq_mod : ℕ
seq_mod = 65536

abbrev pub seq_half : ℕ
seq_half = 32768

-- `(b - a) % _SEQ_MOD` for sequence numbers `a` and `b`.
unfoldable pub ahead : ℕ → ℕ → ℕ
ahead a b = (b + seq_mod - a) % seq_mod

unfoldable pub seq_before : ℕ → ℕ → Bool
unfolding ahead
seq_before a b = not (a == b) && ltb (ahead a b) seq_half

unfoldable pub seq_next : ℕ → ℕ
seq_next s = (s + 1) % seq_mod
