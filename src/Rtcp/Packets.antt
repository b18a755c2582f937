-- ===== src/Rtcp/Packets.antt =====
-- src/hermes_voip/rtcp.py: the four kinds of packet, written and read, and the compound datagram.
use hermes_voip.Base.{
  ℕ, zero, suc, ◌+◌, ◌-◌, ◌*◌, ◌/◌, ◌%◌, Bool, true, false, not, ◌==◌, ltb, leb, if◌then◌else◌,
  List, [], ◌∷◌, ◌++◌, length, take, drop, replicate, Option, none, some, Result, ok, err, guard,
  or_fail, ◌>>=◌, ◌>>◌,
}
use hermes_voip.Base.Text.{Text}
use hermes_voip.Base.Bytes.{be32, from_be}
use hermes_voip.Rtcp.Texts.{encode, decode}
use hermes_voip.Rtcp.{
  RtcpError, short_sender_info, short_reporter, short_chunk, truncated_item, item_past_end,
  bad_cname, no_cname, no_chunks, trailing_bytes, short_sources, no_sources, reason_past_end,
  bad_reason, bad_reason_region, empty_datagram, ReportBlock, pack_blocks, parse_report_blocks,
  with_header, CommonHeader, parse_header, field32,
}

pub record SenderReport : Type 0 where
  pub ssrc : ℕ
  pub ntp_timestamp : ℕ
  pub rtp_timestamp : ℕ
  pub packet_count : ℕ
  pub octet_count : ℕ
  pub report_blocks : List ReportBlock

pub record ReceiverReport : Type 0 where
  pub ssrc : ℕ
  pub report_blocks : List ReportBlock

pub record SdesChunk : Type 0 where
  pub ssrc : ℕ
  pub cname : Text

pub record Bye : Type 0 where
  pub ssrcs : List ℕ
  pub reason : Option Text

pub data RtcpPacket : Type 0 where
  sender_report : SenderReport → RtcpPacket
  receiver_report : ReceiverReport → RtcpPacket
  source_description : List SdesChunk → RtcpPacket
  bye : Bye → RtcpPacket

-- struct "!Q".
abbrev pub be64 : ℕ → List ℕ
be64 n = be32 (n / 4294967296) ++ be32 (n % 4294967296)

-- The body of `SenderReport.pack`.
unfoldable pub sender_body : SenderReport → List ℕ
sender_body s =
    be32 s.ssrc
    ++ (be64 s.ntp_timestamp
        ++ (be32 s.rtp_timestamp
            ++ (be32 s.packet_count ++ (be32 s.octet_count ++ pack_blocks s.report_blocks))))

unfoldable pub receiver_body : ReceiverReport → List ℕ
receiver_body r = be32 r.ssrc ++ pack_blocks r.report_blocks

-- `-n % 4`.
abbrev pub pad_of : ℕ → ℕ
pad_of n = (4 - n % 4) % 4

-- `_pack_sdes_chunk`.
unfoldable pub pack_chunk : SdesChunk → List ℕ
pack_chunk c =
    let cname = encode c.cname in
    let raw = be32 c.ssrc ++ (1 ∷ length cname ∷ (cname ++ 0 ∷ [])) in
    raw ++ replicate (pad_of (length raw)) 0

unfoldable pub pack_chunks : List SdesChunk → List ℕ
pack_chunks [] = []
pack_chunks (c ∷ cs) = pack_chunk c ++ pack_chunks cs

unfoldable pub pack_sources : List ℕ → List ℕ
pack_sources [] = []
pack_sources (s ∷ ss) = be32 s ++ pack_sources ss

unfoldable pub pack_reason : Option Text → List ℕ
pack_reason none = []
pack_reason (some reason) =
    let raw = length (encode reason) ∷ encode reason in raw ++ replicate (pad_of (length raw)) 0

-- `pack` of the four kinds.
unfoldable pub pack_packet : RtcpPacket → List ℕ
pack_packet (sender_report s) = with_header (length s.report_blocks) 200 (sender_body s)
pack_packet (receiver_report r) = with_header (length r.report_blocks) 201 (receiver_body r)
pack_packet (source_description chunks) = with_header (length chunks) 202 (pack_chunks chunks)
pack_packet (bye b) =
    with_header (length b.ssrcs) 203 (pack_sources b.ssrcs ++ pack_reason b.reason)

unfoldable pub sender_from_body : CommonHeader → Result RtcpError SenderReport
sender_from_body h = do
  guard (leb 24 (length h.body)) short_sender_info
  blocks ← parse_report_blocks (drop 24 h.body) h.count
  ok (record {
    ssrc = field32 0 h.body;
    ntp_timestamp = from_be 0 (take 8 (drop 4 h.body));
    rtp_timestamp = field32 12 h.body;
    packet_count = field32 16 h.body;
    octet_count = field32 20 h.body;
    report_blocks = blocks;
  })

unfoldable pub receiver_from_body : CommonHeader → Result RtcpError ReceiverReport
receiver_from_body h = do
  guard (leb 4 (length h.body)) short_reporter
  blocks ← parse_report_blocks (drop 4 h.body) h.count
  ok (record { ssrc = field32 0 h.body; report_blocks = blocks })

-- The loop over the items of a chunk: the CNAME, and how many bytes were read. Every item is
-- longer than nothing, so the length of the chunk is fuel enough.
unfoldable pub read_items : ℕ → Option Text → ℕ → List ℕ → Result RtcpError (Option Text × ℕ)
read_items zero cname read wire = ok (cname, read)
read_items (suc fuel) cname read [] = ok (cname, read)
read_items (suc fuel) cname read (item ∷ []) =
    if item == 0 then ok (cname, read + 1) else err truncated_item
read_items (suc fuel) cname read (item ∷ item_len ∷ rest) =
    let skipped = read_items fuel cname (read + 2 + item_len) (drop item_len rest) in
    let named =
      λ (name : Text). read_items fuel (some name) (read + 2 + item_len) (drop item_len rest) in
    if item == 0
    then ok (cname, read + 1)
    else if ltb (length rest) item_len
    then err item_past_end
    else if item == 1
    then elim (decode (take item_len rest)) [ none ↦ err bad_cname | some name ↦ named name ]
    else skipped

-- `_parse_sdes_chunk`: the chunk, and how many bytes it takes with the padding to whole words.
unfoldable pub parse_chunk : List ℕ → Result RtcpError (SdesChunk × ℕ)
parse_chunk wire = do
  guard (leb 4 (length wire)) short_chunk
  (cname, read) ← read_items (suc (length wire)) none 4 (drop 4 wire)
  name ← or_fail cname no_cname
  ok (record { ssrc = field32 0 wire; cname = name }, read + pad_of read)

unfoldable pub read_chunks : ℕ → List ℕ → Result RtcpError (List SdesChunk × ℕ)
read_chunks zero wire = ok ([], 0)
read_chunks (suc n) wire = do
  (c, used) ← parse_chunk wire
  (cs, more) ← read_chunks n (drop used wire)
  ok (c ∷ cs, used + more)

abbrev pub is_nil : List ℕ → Bool
is_nil [] = true
is_nil (b ∷ bs) = false

unfoldable pub chunks_from_body : CommonHeader → Result RtcpError (List SdesChunk)
chunks_from_body h = do
  (chunks, used) ← read_chunks h.count h.body
  guard (ltb 0 h.count) no_chunks
  guard (used == length h.body) trailing_bytes
  ok chunks

unfoldable pub read_sources : ℕ → List ℕ → List ℕ
read_sources zero wire = []
read_sources (suc n) wire = field32 0 wire ∷ read_sources n (drop 4 wire)

-- The reason of a BYE: what is behind the sources.
unfoldable pub parse_reason : List ℕ → Result RtcpError (Option Text)
parse_reason [] = ok none
parse_reason (rlen ∷ rest) = do
  guard (leb rlen (length rest)) reason_past_end
  reason ← or_fail (decode (take rlen rest)) bad_reason
  guard (1 + rlen + pad_of (1 + rlen) == suc (length rest)) bad_reason_region
  ok (some reason)

unfoldable pub bye_from_body : CommonHeader → Result RtcpError Bye
bye_from_body h = do
  guard (leb (h.count * 4) (length h.body)) short_sources
  guard (ltb 0 h.count) no_sources
  reason ← parse_reason (drop (h.count * 4) h.body)
  ok (record { ssrcs = read_sources h.count h.body; reason = reason })

abbrev pub as_packet :
    {A : Type 0} → (A → RtcpPacket) → Result RtcpError A → Result RtcpError (Option RtcpPacket)
as_packet f (ok a) = ok (some (f a))
as_packet f (err e) = err e

-- The dispatch of `parse_compound`: a packet of another type is skipped.
unfoldable pub packet_of : CommonHeader → Result RtcpError (Option RtcpPacket)
packet_of h =
    if h.payload_type == 200
    then as_packet sender_report (sender_from_body h)
    else if h.payload_type == 201
    then as_packet receiver_report (receiver_from_body h)
    else if h.payload_type == 202
    then as_packet source_description (chunks_from_body h)
    else if h.payload_type == 203
    then as_packet bye (bye_from_body h)
    else ok none

abbrev pub cons_packet : Option RtcpPacket → List RtcpPacket → List RtcpPacket
cons_packet none ps = ps
cons_packet (some p) ps = p ∷ ps

-- The loop of `parse_compound`. Every packet has a header of four bytes, so the length of the
-- datagram is fuel enough.
unfoldable pub read_packets : ℕ → List ℕ → Result RtcpError (List RtcpPacket)
read_packets fuel [] = ok []
read_packets zero (b ∷ wire) = err short_chunk
read_packets (suc fuel) (b ∷ wire) = do
  (h, rest) ← parse_header (b ∷ wire)
  p ← packet_of h
  ps ← read_packets fuel rest
  ok (cons_packet p ps)

unfoldable pub parse_compound : List ℕ → Result RtcpError (List RtcpPacket)
parse_compound wire = do guard (not (is_nil wire)) empty_datagram; read_packets (length wire) wire

unfoldable pub build_compound : List RtcpPacket → List ℕ
build_compound [] = []
build_compound (p ∷ ps) = pack_packet p ++ build_compound ps
