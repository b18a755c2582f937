-- ===== src/Rtcp/Compound.antt =====
-- src/hermes_voip/rtcp.py: the round trip of a compound datagram. The names in it are ASCII.
use hermes_voip.Base.{
  ℕ, zero, suc, ◌+◌, ◌*◌, ◌/◌, ◌≤◌, ◌<◌, ◌≡◌, refl, ◌∙◌, true, false, ==_iff, leb, ltb, List, [],
  ◌∷◌, ◌++◌, length, replicate, Option, none, some, ok, arith, All, length-append, drop-append,
}
use hermes_voip.Base.Text.{Text}
use hermes_voip.Base.Bytes.{from_be}
use hermes_voip.Rtp.Packet.Wire.{from_be-be32}
use hermes_voip.Rtcp.{pack_blocks, with_header}
use hermes_voip.Rtcp.Texts.{encode-ascii}
use hermes_voip.Rtcp.Packets.{
  SenderReport, ReceiverReport, SdesChunk, Bye, RtcpPacket, sender_report, receiver_report,
  source_description, bye, be64, sender_body, receiver_body, pad_of, pack_chunk, pack_chunks,
  pack_sources, pack_reason, pack_packet, sender_from_body, receiver_from_body, chunks_from_body,
  bye_from_body, packet_of, read_packets, parse_compound, build_compound, is_nil,
}
use hermes_voip.Rtcp.Items.{
  Is32, IsReason, IsChunk, length-replicate, length-pack_chunk, read_chunks-pack_chunks,
  length-pack_sources, read_sources-pack_sources, parse_reason-pack_reason,
}
use hermes_voip.Rtcp.Blocks.{
  AllValid, IsWords, parse_header-with_header, parse_report_blocks-pack_blocks, length-pack_blocks,
}

-- What the constructors check; the texts are ASCII.
abbrev pub IsValid : RtcpPacket → Type 0
IsValid (sender_report s) =
    Is32 s.ssrc
    × (s.ntp_timestamp ≤ 18446744073709551615)
    × Is32 s.rtp_timestamp
    × Is32 s.packet_count
    × Is32 s.octet_count
    × AllValid s.report_blocks
    × (length s.report_blocks ≤ 31)
IsValid (receiver_report r) = Is32 r.ssrc × AllValid r.report_blocks × (length r.report_blocks ≤ 31)
IsValid (source_description chunks) =
    All IsChunk chunks × (length chunks ≤ 31) × (0 < length chunks)
IsValid (bye b) =
    All Is32 b.ssrcs × (length b.ssrcs ≤ 31) × (0 < length b.ssrcs) × IsReason b.reason

-- `with_header` is read with the body, and the body as the packet.
abbrev IsRead : ℕ → ℕ → List ℕ → RtcpPacket → Type 0
IsRead count payload_type body p =
    (count ≤ 31)
    × IsWords body
    × (packet_of
          (record { count = count; padding = false; payload_type = payload_type; body = body })
        ≡ ok (some p))

from_be-be64 : (n : ℕ) → n ≤ 18446744073709551615 → from_be 0 (be64 n) ≡ n
from_be-be64 n h = omega arith

sender_IsRead :
    (s : SenderReport)
    → IsValid (sender_report s)
    → IsRead (length s.report_blocks) 200 (sender_body s) (sender_report s)
unfolding packet_of sender_from_body sender_body
sender_IsRead s (ssrc, ntp, rtp, packets, octets, blocks, few) =
    let size = length-pack_blocks s.report_blocks in
    (
      few,
      record { whole = omega (arith, size); short = omega (arith, size) },
      rw
          (
            enough (length (pack_blocks s.report_blocks)),
            from_be-be32 s.ssrc ssrc,
            from_be-be64 s.ntp_timestamp ntp,
            from_be-be32 s.rtp_timestamp rtp,
            from_be-be32 s.packet_count packets,
            from_be-be32 s.octet_count octets,
            parse_report_blocks-pack_blocks s.report_blocks blocks,
          )
          refl,
    )
  where
    enough :
        (n : ℕ)
        → leb 24 (
            suc (
              suc (
                suc (
                  suc (
                    suc (
                      suc (
                        suc (
                          suc (
                            suc (
                              suc (
                                suc (
                                  suc (
                                    suc (
                                      suc (
                                        suc (
                                          suc (
                                            suc (
                                              suc (
                                                suc
                                                  (suc (suc (suc (suc (suc n))))))))))))))))))))))))
          ≡ true
    enough n = ground arith

receiver_IsRead :
    (r : ReceiverReport)
    → IsValid (receiver_report r)
    → IsRead (length r.report_blocks) 201 (receiver_body r) (receiver_report r)
unfolding packet_of receiver_from_body receiver_body
receiver_IsRead r (ssrc, blocks, few) =
    let size = length-pack_blocks r.report_blocks in
    (
      few,
      record { whole = omega (arith, size); short = omega (arith, size) },
      rw
          (
            enough (length (pack_blocks r.report_blocks)),
            from_be-be32 r.ssrc ssrc,
            parse_report_blocks-pack_blocks r.report_blocks blocks,
          )
          refl,
    )
  where
    enough : (n : ℕ) → leb 4 (suc (suc (suc (suc n)))) ≡ true
    enough n = ground arith

chunk_words :
    (c : SdesChunk)
    → IsChunk c
    → (length (pack_chunk c) ≡ length (pack_chunk c) / 4 * 4) × (length (pack_chunk c) ≤ 268)
chunk_words c (ssrc, item) =
    let size = length-pack_chunk c item.ascii in
    (omega (arith, size), omega (arith, size, item.short))

chunks_words :
    (cs : List SdesChunk)
    → All IsChunk cs
    → (length (pack_chunks cs) ≡ length (pack_chunks cs) / 4 * 4)
      × (length (pack_chunks cs) ≤ length cs * 268)
unfolding pack_chunks
chunks_words [] v = (refl, omega arith)
chunks_words (c ∷ cs) (v, vs) =
    let (whole, few) = chunk_words c v in
    let (all_whole, all_few) = chunks_words cs vs in
    let size = length-append (pack_chunk c) (pack_chunks cs) in
    (omega (arith, size, whole, all_whole), omega (arith, size, few, all_few))

chunks_IsRead :
    (cs : List SdesChunk)
    → IsValid (source_description cs)
    → IsRead (length cs) 202 (pack_chunks cs) (source_description cs)
unfolding packet_of chunks_from_body
chunks_IsRead cs (chunks, few, some_of) =
    let (whole, short) = chunks_words cs chunks in
    let there : ltb 0 (length cs) ≡ true = ground arith in
    (
      few,
      record { whole = whole; short = omega (arith, short) },
      rw
          (
            read_chunks-pack_chunks cs chunks,
            there,
            (==_iff (length (pack_chunks cs)) (length (pack_chunks cs))).1 refl,
          )
          refl,
    )

reason_words :
    (reason : Option Text)
    → IsReason reason
    → (length (pack_reason reason) ≡ length (pack_reason reason) / 4 * 4)
      × (length (pack_reason reason) ≤ 260)
unfolding pack_reason
reason_words none v = (refl, omega arith)
reason_words (some s) item =
    let padding : List ℕ = replicate (pad_of (suc (length s))) 0 in
    let size : suc (length (s ++ padding)) ≡ 1 + length s + pad_of (suc (length s)) =
      omega (arith, length-append s padding, length-replicate (pad_of (suc (length s))) 0) in
    rw (encode-ascii s item.ascii) (omega (arith, size), omega (arith, size, item.short))

bye-IsRead :
    (b : Bye)
    → IsValid (bye b)
    → IsRead (length b.ssrcs) 203 (pack_sources b.ssrcs ++ pack_reason b.reason) (bye b)
unfolding packet_of bye_from_body
bye-IsRead b (sources, few, some_of, reason) =
    let body = pack_sources b.ssrcs ++ pack_reason b.reason in
    let (whole, short) = reason_words b.reason reason in
    let at = length-pack_sources b.ssrcs in
    let size = length-append (pack_sources b.ssrcs) (pack_reason b.reason) in
    let there : ltb 0 (length b.ssrcs) ≡ true = ground arith in
    (
      few,
      record { whole = omega (arith, size, at, whole); short = omega (arith, size, at, short) },
      rw
          (
            fits (length b.ssrcs * 4) (length body) (omega (arith, size, at)),
            there,
            drop-append (length b.ssrcs * 4) (pack_sources b.ssrcs) (pack_reason b.reason) at,
            parse_reason-pack_reason b.reason reason,
            read_sources-pack_sources b.ssrcs (pack_reason b.reason) sources,
          )
          refl,
    )
  where
    fits : (m n : ℕ) → m ≤ n → leb m n ≡ true
    fits m n h = ground arith

-- The packet's header and body, and how they are read.
data WrittenAs (p : RtcpPacket) : Type 0 where
  written :
      (count payload_type : ℕ) (body : List ℕ)
      → pack_packet p ≡ with_header count payload_type body
      → IsRead count payload_type body p
      → WrittenAs p

written_as : (p : RtcpPacket) → IsValid p → WrittenAs p
unfolding pack_packet
written_as (sender_report s) v = WrittenAs.written _ _ _ refl (sender_IsRead s v)
written_as (receiver_report r) v = WrittenAs.written _ _ _ refl (receiver_IsRead r v)
written_as (source_description cs) v = WrittenAs.written _ _ _ refl (chunks_IsRead cs v)
written_as (bye b) v = WrittenAs.written _ _ _ refl (bye-IsRead b v)

-- One packet in front of a rest; its header is longer than nothing.
read_packets-step :
    (fuel count payload_type : ℕ) (body rest : List ℕ) (p : RtcpPacket) (ps : List RtcpPacket)
    → IsRead count payload_type body p
    → read_packets fuel rest ≡ ok ps
    → read_packets (suc fuel) (with_header count payload_type body ++ rest) ≡ ok (p ∷ ps)
unfolding with_header read_packets
read_packets-step fuel count payload_type body rest p ps (few, words, read) others =
    rw (parse_header-with_header count payload_type body rest few words, read, others) refl

read_packets-more :
    (fuel count payload_type : ℕ) (body rest : List ℕ) (p : RtcpPacket) (ps : List RtcpPacket)
    → IsRead count payload_type body p
    → length (with_header count payload_type body ++ rest) ≤ fuel
    → ((n : ℕ) → length rest ≤ n → read_packets n rest ≡ ok ps)
    → read_packets fuel (with_header count payload_type body ++ rest) ≡ ok (p ∷ ps)
unfolding with_header
read_packets-more zero count payload_type body rest p ps read h others = absurd (omega arith)
read_packets-more (suc fuel) count payload_type body rest p ps read h others =
    read_packets-step fuel count payload_type body rest p ps read
      (others fuel (omega (arith, length-append body rest)))

read_packets-build_compound :
    (ps : List RtcpPacket) (fuel : ℕ)
    → All IsValid ps
    → length (build_compound ps) ≤ fuel
    → read_packets fuel (build_compound ps) ≡ ok ps
unfolding build_compound
read_packets-build_compound [] fuel v h = unfold read_packets in refl
read_packets-build_compound (p ∷ ps) fuel (v, vs) h = elim (written_as p v) [
  | WrittenAs.written count payload_type body e read ↦ rw e (
      read_packets-more fuel count payload_type body (build_compound ps) p ps read (rw e at h)
        (λ n enough. read_packets-build_compound ps n vs enough))
]

-- The bytes of a packet are not empty.
is_nil-build_compound :
    (p : RtcpPacket) (ps : List RtcpPacket) → IsValid p → is_nil (build_compound (p ∷ ps)) ≡ false
unfolding build_compound with_header
is_nil-build_compound p ps v = elim (written_as p v) [
  | WrittenAs.written count payload_type body e read ↦ rw e refl
]

parse_compound-full :
    (wire : List ℕ) → is_nil wire ≡ false → parse_compound wire ≡ read_packets (length wire) wire
unfolding parse_compound
parse_compound-full wire full = rw full refl

-- The round trip of a compound datagram: at least one packet, each as its constructor allows it with
-- ASCII texts, is read back in order from the bytes that are sent.
pub parse_compound-build_compound :
    (p : RtcpPacket) (ps : List RtcpPacket)
    → All IsValid (p ∷ ps)
    → parse_compound (build_compound (p ∷ ps)) ≡ ok (p ∷ ps)
parse_compound-build_compound p ps v =
    parse_compound-full (build_compound (p ∷ ps)) (is_nil-build_compound p ps v.0)
    ∙ read_packets-build_compound (p ∷ ps) (length (build_compound (p ∷ ps))) v (omega arith)
