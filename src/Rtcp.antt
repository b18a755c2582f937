-- ===== src/Rtcp.antt =====
-- src/hermes_voip/rtcp.py: the RTCP packets and their wire form (RFC 3550, 6). The rest of a datagram
-- stands for the offset into it. A number of the wire form has its range by the record that is
-- its packet's validity.
pub mod Texts
pub mod Packets
pub mod Blocks
pub mod Items
pub mod Compound
use Prim.Native.Nat.{bit_and, bit_or}
use hermes_voip.Base.{
  ℕ, zero, suc, ◌+◌, ◌-◌, ◌*◌, ◌/◌, ◌%◌, ◌≤◌, Bool, true, false, not, ◌&&◌, ◌||◌, ◌==◌, ltb, leb,
  if◌then◌else◌, List, [], ◌∷◌, ◌++◌, length, get_or, take, drop, replicate, Option, none, some,
  Result, ok, err, guard, or_fail, ◌>>=◌, ◌>>◌,
}
use hermes_voip.Base.Text.{Text}
use hermes_voip.Base.Bytes.{be16, be32, from_be}

-- `negsuc n` is -(n + 1).
pub data ℤ : Type 0 where
  pos : ℕ → ℤ
  negsuc : ℕ → ℤ

pub data RtcpError : Type 0 where
  bad_block_length short_header bad_version length_past_end padding_on_empty bad_pad : RtcpError
  wrong_type short_sender_info short_reporter bad_block_region : RtcpError
  short_chunk truncated_item item_past_end bad_cname no_cname no_chunks trailing_bytes : RtcpError
  short_sources no_sources reason_past_end bad_reason bad_reason_region empty_datagram : RtcpError

pub record ReportBlock : Type 0 where
  pub ssrc : ℕ
  pub fraction_lost : ℕ
  pub cumulative_lost : ℤ
  pub extended_highest_seq : ℕ
  pub jitter : ℕ
  pub lsr : ℕ
  pub dlsr : ℕ

-- `int.to_bytes(3, "big")`.
abbrev pub be24 : ℕ → List ℕ
be24 n = n / 65536 ∷ n / 256 % 256 ∷ n % 256 ∷ []

-- `cumulative_lost & 0xFFFFFF`.
unfoldable pub to_s24 : ℤ → ℕ
to_s24 (pos n) = n % 16777216
to_s24 (negsuc n) = (16777216 - (n + 1) % 16777216) % 16777216

unfoldable pub from_s24 : ℕ → ℤ
from_s24 n = if leb 8388608 n then negsuc (16777216 - n - 1) else pos n

unfoldable pub pack_block : ReportBlock → List ℕ
pack_block b =
    be32 b.ssrc
    ++ (b.fraction_lost
        ∷ (be24 (to_s24 b.cumulative_lost)
            ++ (be32 b.extended_highest_seq ++ (be32 b.jitter ++ (be32 b.lsr ++ be32 b.dlsr)))))

abbrev pub field32 : ℕ → List ℕ → ℕ
field32 at wire = from_be 0 (take 4 (drop at wire))

unfoldable pub parse_block : List ℕ → Result RtcpError ReportBlock
parse_block wire = do
  guard (length wire == 24) bad_block_length
  ok (record {
    ssrc = field32 0 wire;
    fraction_lost = get_or wire 4 0;
    cumulative_lost = from_s24 (from_be 0 (take 3 (drop 5 wire)));
    extended_highest_seq = field32 8 wire;
    jitter = field32 12 wire;
    lsr = field32 16 wire;
    dlsr = field32 20 wire;
  })

unfoldable pub pack_blocks : List ReportBlock → List ℕ
pack_blocks [] = []
pack_blocks (b ∷ bs) = pack_block b ++ pack_blocks bs

unfoldable pub read_blocks : ℕ → List ℕ → Result RtcpError (List ReportBlock)
read_blocks zero wire = ok []
read_blocks (suc n) wire = do
  b ← parse_block (take 24 wire)
  bs ← read_blocks n (drop 24 wire)
  ok (b ∷ bs)

-- `_parse_report_blocks`.
unfoldable pub parse_report_blocks : List ℕ → ℕ → Result RtcpError (List ReportBlock)
parse_report_blocks wire count = do
  guard (length wire == count * 24) bad_block_region
  read_blocks count wire

-- `_pack_header` in front of a body: the length field counts the words of the body.
unfoldable pub with_header : ℕ → ℕ → List ℕ → List ℕ
with_header count payload_type body =
    bit_or 128 count ∷ payload_type ∷ (be16 (length body / 4) ++ body)

pub record CommonHeader : Type 0 where
  pub count : ℕ
  pub padding : Bool
  pub payload_type : ℕ
  pub body : List ℕ

-- The part of `_parse_header` under `if padding`.
unfoldable pub strip_pad : ℕ → List ℕ → Result RtcpError (List ℕ)
strip_pad byte0 body = if bit_and byte0 32 == 0 then ok body else do
  guard (ltb 0 (length body)) padding_on_empty
  let pad = get_or body (length body - 1) 0
  guard (leb 1 pad && leb pad (length body)) bad_pad
  ok (take (length body - pad) body)

-- `_parse_header`: the header with the body, and the rest of the datagram.
unfoldable pub parse_header : List ℕ → Result RtcpError (CommonHeader × List ℕ)
parse_header wire = do
  guard (leb 4 (length wire)) short_header
  let byte0 = get_or wire 0 0
  guard (byte0 / 64 == 2) bad_version
  let total_len = (from_be 0 (take 2 (drop 2 wire)) + 1) * 4
  guard (leb total_len (length wire)) length_past_end
  body ← strip_pad byte0 (take (total_len - 4) (drop 4 wire))
  ok (
    record {
      count = bit_and byte0 31;
      padding = not (bit_and byte0 32 == 0);
      payload_type = get_or wire 1 0;
      body = body;
    },
    drop total_len wire,
  )
