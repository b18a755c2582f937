-- ===== src/Rtp/Packet.antt =====
-- src/hermes_voip/rtp.py: `RtpPacket`, its wire form and the parser (RFC 3550, 5.1). A byte string
-- is a list of numbers; the errors of the module are one constructor for each message.
pub mod Wire
use Prim.Native.Nat.{bit_and, bit_or}
use hermes_voip.Base.{
  ℕ, zero, suc, ◌+◌, ◌-◌, ◌*◌, ◌/◌, ◌%◌, ◌≤◌, ◌<◌, ◌≡◌, refl, Bool, true, false, not, ◌&&◌, ◌==◌,
  ltb, leb, if◌then◌else◌, List, [], ◌∷◌, ◌++◌, length, get_or, take, drop, Result, ok, err, guard,
  ◌>>=◌, ◌>>◌, arith,
}
use hermes_voip.Base.Bytes.{be16, be32, from_be}

pub record RtpPacket : Type 0 where
  pub payload_type : ℕ
  pub sequence_number : ℕ
  pub timestamp : ℕ
  pub ssrc : ℕ
  pub payload : List ℕ
  pub marker : Bool

pub data RtpError : Type 0 where
  bad_payload_type bad_sequence bad_timestamp bad_ssrc : RtpError
  too_short bad_version short_csrc short_extension short_extension_data : RtpError
  no_pad_count bad_padding : RtpError

abbrev pub header_len : ℕ
header_len = 12

abbrev pub extension_header_len : ℕ
extension_header_len = 4

-- `__post_init__`: the constructor refuses a field that is out of its range. The tests of the
-- Python types have no counterpart here, and no field can be negative.
unfoldable pub make : RtpPacket → Result RtpError RtpPacket
make p = do
  guard (leb p.payload_type 127) bad_payload_type
  guard (leb p.sequence_number 65535) bad_sequence
  guard (leb p.timestamp 4294967295) bad_timestamp
  guard (leb p.ssrc 4294967295) bad_ssrc
  ok p

-- `pack`: the first byte is `_RTP_VERSION << 6`.
unfoldable pub pack : RtpPacket → List ℕ
pack p =
    (2 * 64 ∷ bit_or (if p.marker then 128 else 0) p.payload_type ∷ [])
    ++ (be16 p.sequence_number ++ (be32 p.timestamp ++ (be32 p.ssrc ++ p.payload)))

-- The part of `parse` under `if byte0 & _EXTENSION_BIT`: the offset behind the extension.
skip_extension : List ℕ → ℕ → ℕ → Result RtpError ℕ
skip_extension wire byte0 offset = if bit_and byte0 16 == 0 then ok offset else do
  guard (leb (offset + extension_header_len) (length wire)) short_extension
  let words = from_be 0 (take 2 (drop (offset + 2) wire))
  let stop = offset + (extension_header_len + words * 4)
  guard (leb stop (length wire)) short_extension_data
  ok stop

-- The part of `parse` under `if byte0 & _PADDING_BIT`: the last byte counts the padding.
strip_padding : ℕ → List ℕ → Result RtpError (List ℕ)
strip_padding byte0 payload = if bit_and byte0 32 == 0 then ok payload else do
  guard (ltb 0 (length payload)) no_pad_count
  let pad = get_or payload (length payload - 1) 0
  guard (ltb 0 pad && leb pad (length payload)) bad_padding
  ok (take (length payload - pad) payload)

unfoldable pub parse : List ℕ → Result RtpError RtpPacket
unfolding skip_extension strip_padding
parse wire = do
  guard (leb header_len (length wire)) too_short
  let byte0 = get_or wire 0 0
  let byte1 = get_or wire 1 0
  guard (byte0 / 64 == 2) bad_version
  let offset = header_len + bit_and byte0 15 * 4
  guard (leb offset (length wire)) short_csrc
  stop ← skip_extension wire byte0 offset
  payload ← strip_padding byte0 (drop stop wire)
  make (record {
    payload_type = bit_and byte1 127;
    sequence_number = from_be 0 (take 2 (drop 2 wire));
    timestamp = from_be 0 (take 4 (drop 4 wire));
    ssrc = from_be 0 (take 4 (drop 8 wire));
    payload = payload;
    marker = not (bit_and byte1 128 == 0);
  })

-- What the constructor checks.
pub record IsValid (p : RtpPacket) : Type 0 where
  pub payload_type_le : p.payload_type ≤ 127
  pub sequence_le : p.sequence_number ≤ 65535
  pub timestamp_le : p.timestamp ≤ 4294967295
  pub ssrc_le : p.ssrc ≤ 4294967295

pub make-IsValid : (p q : RtpPacket) → make p ≡ ok q → IsValid q
unfolding make
make-IsValid p q h = ground arith

pub make-ok : (p : RtpPacket) → IsValid p → make p ≡ ok p
unfolding make
make-ok p v = ground arith
