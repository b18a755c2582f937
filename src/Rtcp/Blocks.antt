-- ===== src/Rtcp/Blocks.antt =====
-- src/hermes_voip/rtcp.py: what the parsers read of the report blocks and of the header that were written.
use Prim.Native.Nat.{bit_and, bit_or}
use hermes_voip.Base.{
  ℕ, false, suc, ◌+◌, ◌-◌, ◌*◌, ◌/◌, ◌≤◌, ◌<◌, ◌≡◌, refl, true, ==_iff, leb, List, [], ◌∷◌, ◌++◌,
  length, get_or, take, drop, ok, arith, All, length-append, take-append, drop-append,
}
use hermes_voip.Base.Bytes.{be16, from_be, bit_or-high, bit_and-bit5, bit_and-low5}
use hermes_voip.Rtp.Packet.Wire.{from_be-be32}
use hermes_voip.Rtcp.{
  ℤ, pos, negsuc, ReportBlock, be24, to_s24, from_s24, pack_block, parse_block, pack_blocks,
  read_blocks, parse_report_blocks, with_header, strip_pad, parse_header,
}

-- A number of 24 bits with a sign.
abbrev pub IsS24 : ℤ → Type 0
IsS24 (pos n) = n < 8388608
IsS24 (negsuc n) = n < 8388608

-- What the constructor of a report block checks.
pub record IsValid (b : ReportBlock) : Type 0 where
  pub ssrc_le : b.ssrc ≤ 4294967295
  pub fraction_le : b.fraction_lost ≤ 255
  pub cumulative_range : IsS24 b.cumulative_lost
  pub highest_le : b.extended_highest_seq ≤ 4294967295
  pub jitter_le : b.jitter ≤ 4294967295
  pub lsr_le : b.lsr ≤ 4294967295
  pub dlsr_le : b.dlsr ≤ 4294967295

from_s24-to_s24 : (z : ℤ) → IsS24 z → (to_s24 z < 16777216) × (from_s24 (to_s24 z) ≡ z)
unfolding to_s24 from_s24
from_s24-to_s24 (pos n) h = ground arith
from_s24-to_s24 (negsuc n) h = ground arith

from_be-be24 : (n : ℕ) → n < 16777216 → from_be 0 (be24 n) ≡ n
from_be-be24 n h = omega arith

length-pack_block : (b : ReportBlock) → length (pack_block b) ≡ 24
unfolding pack_block
length-pack_block b = refl

parse_block-pack_block : (b : ReportBlock) → IsValid b → parse_block (pack_block b) ≡ ok b
unfolding parse_block pack_block
parse_block-pack_block b v =
    let (fits, back) = from_s24-to_s24 b.cumulative_lost v.cumulative_range in
    rw
      (
        from_be-be32 b.ssrc v.ssrc_le,
        from_be-be24 (to_s24 b.cumulative_lost) fits,
        back,
        from_be-be32 b.extended_highest_seq v.highest_le,
        from_be-be32 b.jitter v.jitter_le,
        from_be-be32 b.lsr v.lsr_le,
        from_be-be32 b.dlsr v.dlsr_le,
      )
      refl

abbrev pub AllValid : List ReportBlock → Type 0
AllValid bs = All IsValid bs

pub length-pack_blocks : (bs : List ReportBlock) → length (pack_blocks bs) ≡ length bs * 24
unfolding pack_blocks
length-pack_blocks [] = refl
length-pack_blocks (b ∷ bs) = omega (
  arith,
  length-append (pack_block b) (pack_blocks bs),
  length-pack_block b,
  length-pack_blocks bs,
)

read_blocks-pack_blocks :
    (bs : List ReportBlock) → AllValid bs → read_blocks (length bs) (pack_blocks bs) ≡ ok bs
unfolding read_blocks pack_blocks
read_blocks-pack_blocks [] v = refl
read_blocks-pack_blocks (b ∷ bs) v =
    rw
      (
        take-append 24 (pack_block b) (pack_blocks bs) (length-pack_block b),
        drop-append 24 (pack_block b) (pack_blocks bs) (length-pack_block b),
        parse_block-pack_block b v.0,
        read_blocks-pack_blocks bs v.1,
      )
      refl

-- The blocks of a report are read back as they were written.
pub parse_report_blocks-pack_blocks :
    (bs : List ReportBlock) → AllValid bs → parse_report_blocks (pack_blocks bs) (length bs) ≡ ok bs
unfolding parse_report_blocks
parse_report_blocks-pack_blocks bs v =
    rw ((==_iff (length (pack_blocks bs)) (length bs * 24)).1 (length-pack_blocks bs))
      (read_blocks-pack_blocks bs v)

byte0_fields :
    (count : ℕ)
    → count ≤ 31
    → (bit_or 128 count / 64 ≡ 2)
      × (bit_and (bit_or 128 count) 32 ≡ 0)
      × (bit_and (bit_or 128 count) 31 ≡ count)
byte0_fields count h = rw (bit_or-high count (omega arith)) (
  omega arith,
  omega (arith, bit_and-bit5 (128 + count) (omega arith)),
  omega (arith, bit_and-low5 (128 + count) (omega arith)),
)

-- A body of whole words.
pub record IsWords (body : List ℕ) : Type 0 where
  pub whole : length body ≡ length body / 4 * 4
  pub short : length body / 4 < 65536

parse_header-parts :
    (wire body rest : List ℕ) (count payload_type words : ℕ)
    → 4 ≤ length wire
    → get_or wire 0 0 ≡ bit_or 128 count
    → count ≤ 31
    → get_or wire 1 0 ≡ payload_type
    → from_be 0 (take 2 (drop 2 wire)) ≡ words
    → (words + 1) * 4 ≤ length wire
    → take ((words + 1) * 4 - 4) (drop 4 wire) ≡ body
    → drop ((words + 1) * 4) wire ≡ rest
    → parse_header wire
      ≡ ok (
        record { count = count; padding = false; payload_type = payload_type; body = body },
        rest,
      )
unfolding parse_header strip_pad
parse_header-parts wire body rest count payload_type words enough first small kind size within inner
      outer =
    let (version, no_pad, low) = byte0_fields count small in
    rw
      (
        le→leb 4 (length wire) enough,
        first,
        kind,
        size,
        le→leb ((words + 1) * 4) (length wire) within,
        inner,
        outer,
        version,
        no_pad,
        low,
      )
      refl
  where
    le→leb : (a b : ℕ) → a ≤ b → leb a b ≡ true
    le→leb a b h = ground arith

-- A header is read back with its body, whatever follows.
pub parse_header-with_header :
    (count payload_type : ℕ) (body rest : List ℕ)
    → count ≤ 31
    → IsWords body
    → parse_header (with_header count payload_type body ++ rest)
      ≡ ok (
        record { count = count; padding = false; payload_type = payload_type; body = body },
        rest,
      )
unfolding with_header
parse_header-with_header count payload_type body rest small w =
    let words = length body / 4 in
    let size : from_be 0 (be16 words) ≡ words = omega arith in
    let total : (words + 1) * 4 - 4 ≡ length body = omega (arith, w.whole) in
    let behind : (words + 1) * 4 ≡ suc (suc (suc (suc (length body)))) = omega (arith, w.whole) in
    parse_header-parts (with_header count payload_type body ++ rest) body rest count payload_type
      words (omega arith) refl small refl size (omega (arith, w.whole, length-append body rest))
      (rw total (take-append (length body) body rest refl))
      (rw behind (drop-append (length body) body rest refl))
