-- ===== src/Rtp/Packet/Wire.antt =====
-- src/hermes_voip/rtp.py: what `RtpPacket.parse` makes of the bytes that a sender wrote.
use Prim.Native.Nat.{bit_and, bit_or}
use hermes_voip.Base.{ℕ, ◌+◌, ◌≤◌, ◌≡◌, Bool, true, false, not, ◌==◌, if◌then◌else◌, ok, arith}
use hermes_voip.Base.Bytes.{
  be32, from_be, bit_or-high, bit_or-zero_left, bit_and-low7, bit_and-high,
}
use hermes_voip.Rtp.Packet.{RtpPacket, make, pack, parse, IsValid}

pub from_be-be32 : (n : ℕ) → n ≤ 4294967295 → from_be 0 (be32 n) ≡ n
from_be-be32 n h = omega arith

byte1 : Bool → ℕ → ℕ
byte1 m t = bit_or (if m then 128 else 0) t

byte1_fields :
    (m : Bool) (t : ℕ)
    → t ≤ 127
    → (bit_and (byte1 m t) 127 ≡ t) × (not (bit_and (byte1 m t) 128 == 0) ≡ m)
unfolding byte1
byte1_fields true t h =
    rw (bit_or-high t (omega arith))
      (ground (arith, bit_and-low7 (128 + t) (omega arith), bit_and-high (128 + t) (omega arith)))
byte1_fields false t h =
    rw (bit_or-zero_left t (omega arith))
      (ground (arith, bit_and-low7 t (omega arith), bit_and-high t (omega arith)))

-- The round trip of the wire form: what `pack` writes for a packet with its fields in range,
-- `parse` reads back as that packet.
pub parse-pack : (p : RtpPacket) → IsValid p → parse (pack p) ≡ ok p
unfolding parse pack byte1 make
parse-pack p v =
    ground
      (arith, byte1_fields p.marker p.payload_type, from_be-be32 p.timestamp, from_be-be32 p.ssrc)
