-- ===== src/Rtcp/Items.antt =====
-- src/hermes_voip/rtcp.py: what the parsers read of the chunks, the sources and the reason that were
-- written. The texts are ASCII.
use hermes_voip.Base.{
  ℕ, zero, suc, ◌+◌, ◌*◌, ◌≤◌, ◌≡◌, refl, sym, ap, ◌∙◌, true, false, ==_iff, leb, ltb, List, [],
  ◌∷◌, ◌++◌, length, take, drop, replicate, Option, none, some, ok, arith, All, length-append,
  take-append, drop-append, append-nil, append_assoc,
}
use hermes_voip.Base.Text.{Text}
use hermes_voip.Base.Percent.{IsAscii}
use hermes_voip.Base.Bytes.{be32}
use hermes_voip.Rtp.Packet.Wire.{from_be-be32}
use hermes_voip.Rtcp.{field32}
use hermes_voip.Rtcp.Texts.{decode, encode-ascii, decode-ascii}
use hermes_voip.Rtcp.Packets.{
  SdesChunk, pad_of, pack_chunk, pack_chunks, pack_sources, pack_reason, read_items, parse_chunk,
  read_chunks, read_sources, parse_reason,
}

abbrev pub Is32 : ℕ → Type 0
Is32 n = n ≤ 4294967295

-- A text of an item: ASCII, and short enough for its length octet.
pub record IsItem (s : Text) : Type 0 where
  pub ascii : IsAscii s
  pub short : length s ≤ 255

abbrev pub IsReason : Option Text → Type 0
IsReason none = Unit {0}
IsReason (some s) = IsItem s

abbrev pub IsChunk : SdesChunk → Type 0
IsChunk c = Is32 c.ssrc × IsItem c.cname

pub length-replicate : (n : ℕ) (b : ℕ) → length (replicate n b) ≡ n
length-replicate zero b = refl
length-replicate (suc n) b = ap suc (length-replicate n b)

-- The end of the items.
read_items-end :
    (fuel : ℕ) (cname : Option Text) (read : ℕ) (t : List ℕ)
    → read_items (suc fuel) cname read (0 ∷ t) ≡ ok (cname, read + 1)
unfolding read_items
read_items-end fuel cname read [] = refl
read_items-end fuel cname read (b ∷ t) = refl

read_items-step :
    (fuel read len : ℕ) (rest after : List ℕ) (s : Text)
    → ltb (length rest) len ≡ false
    → take len rest ≡ s
    → drop len rest ≡ after
    → decode s ≡ some s
    → read_items (suc fuel) none read (1 ∷ len ∷ rest)
      ≡ read_items fuel (some s) (read + 2 + len) after
unfolding read_items
read_items-step fuel read len rest after s within front behind plain =
    rw (within, front, plain, behind) refl

read_items-cname :
    (fuel read : ℕ) (s t : Text)
    → IsAscii s
    → read_items (suc (suc fuel)) none read (1 ∷ length s ∷ (s ++ (0 ∷ t)))
      ≡ ok (some s, read + 2 + length s + 1)
read_items-cname fuel read s t ascii =
    read_items-step (suc fuel) read (length s) (s ++ (0 ∷ t)) (0 ∷ t) s
      (within (length (s ++ (0 ∷ t))) (length s) (omega (arith, length-append s (0 ∷ t))))
      (take-append (length s) s (0 ∷ t) refl) (drop-append (length s) s (0 ∷ t) refl)
      (decode-ascii s ascii)
    ∙ read_items-end fuel (some s) (read + 2 + length s) t
  where
    within : (m n : ℕ) → n ≤ m → ltb m n ≡ false
    within m n h = ground arith

-- A chunk of a plain name, in front of a rest.
chunk_shape :
    (c : SdesChunk) (rest : List ℕ)
    → IsAscii c.cname
    → pack_chunk c ++ rest
      ≡ be32 c.ssrc
        ++ (1
            ∷ length c.cname
            ∷ (c.cname ++ (0 ∷ (replicate (pad_of (7 + length c.cname)) 0 ++ rest))))
unfolding pack_chunk
chunk_shape c rest ascii =
    let cname = c.cname in
    let padding : List ℕ = replicate (pad_of (7 + length cname)) 0 in
    let size : suc (suc (suc (suc (suc (suc (length (cname ++ 0 ∷ []))))))) ≡ 7 + length cname =
      omega (arith, length-append cname (0 ∷ [])) in
    rw (encode-ascii cname ascii, size)
      (ap (λ (t : List ℕ). be32 c.ssrc ++ (1 ∷ length cname ∷ t))
        (append_assoc (cname ++ 0 ∷ []) padding rest
          ∙ append_assoc cname (0 ∷ []) (padding ++ rest)))

pub length-pack_chunk :
    (c : SdesChunk)
    → IsAscii c.cname
    → length (pack_chunk c) ≡ 7 + length c.cname + pad_of (7 + length c.cname)
length-pack_chunk c ascii =
    let padding : List ℕ = replicate (pad_of (7 + length c.cname)) 0 in
    ap (λ (t : List ℕ). length t) (sym (append-nil (pack_chunk c)) ∙ chunk_shape c [] ascii)
    ∙ omega (
      arith,
      length-append c.cname (0 ∷ (padding ++ [])),
      length-append padding [],
      length-replicate (pad_of (7 + length c.cname)) 0,
    )

parse_chunk-parts :
    (wire : List ℕ) (s : Text) (ssrc read : ℕ)
    → leb 4 (length wire) ≡ true
    → read_items (suc (length wire)) none 4 (drop 4 wire) ≡ ok (some s, read)
    → field32 0 wire ≡ ssrc
    → parse_chunk wire ≡ ok (record { ssrc = ssrc; cname = s }, read + pad_of read)
unfolding parse_chunk
parse_chunk-parts wire s ssrc read enough items source = rw (enough, items, source) refl

pub parse_chunk-pack_chunk :
    (c : SdesChunk) (rest : List ℕ)
    → IsChunk c
    → parse_chunk (pack_chunk c ++ rest) ≡ ok (c, length (pack_chunk c))
parse_chunk-pack_chunk c rest (ssrc, item) =
    let tail = replicate (pad_of (7 + length c.cname)) 0 ++ rest in
    let behind = 1 ∷ length c.cname ∷ (c.cname ++ (0 ∷ tail)) in
    let read = 4 + 2 + length c.cname + 1 in
    let same : read ≡ 7 + length c.cname = omega arith in
    ap parse_chunk (chunk_shape c rest item.ascii)
    ∙ parse_chunk-parts (be32 c.ssrc ++ behind) c.cname c.ssrc read (enough (length behind))
        (read_items-cname (suc (suc (suc (suc (suc (length (c.cname ++ (0 ∷ tail)))))))) 4 c.cname
          tail item.ascii)
        (from_be-be32 c.ssrc ssrc)
    ∙ ap (λ (n : ℕ). ok (c, n))
        (ap (λ (n : ℕ). n + pad_of n) same ∙ sym (length-pack_chunk c item.ascii))
  where
    enough : (n : ℕ) → leb 4 (suc (suc (suc (suc n)))) ≡ true
    enough n = ground arith

pub read_chunks-pack_chunks :
    (cs : List SdesChunk)
    → All IsChunk cs
    → read_chunks (length cs) (pack_chunks cs) ≡ ok (cs, length (pack_chunks cs))
unfolding read_chunks pack_chunks
read_chunks-pack_chunks [] v = refl
read_chunks-pack_chunks (c ∷ cs) (v, vs) =
    rw
      (
        parse_chunk-pack_chunk c (pack_chunks cs) v,
        drop-append (length (pack_chunk c)) (pack_chunk c) (pack_chunks cs) refl,
        read_chunks-pack_chunks cs vs,
        length-append (pack_chunk c) (pack_chunks cs),
      )
      refl

pub length-pack_sources : (ss : List ℕ) → length (pack_sources ss) ≡ length ss * 4
unfolding pack_sources
length-pack_sources [] = refl
length-pack_sources (s ∷ ss) = omega (arith, length-pack_sources ss)

pub read_sources-pack_sources :
    (ss : List ℕ) (t : List ℕ) → All Is32 ss → read_sources (length ss) (pack_sources ss ++ t) ≡ ss
unfolding read_sources pack_sources
read_sources-pack_sources [] t v = refl
read_sources-pack_sources (s ∷ ss) t (v, vs) =
    rw (from_be-be32 s v, read_sources-pack_sources ss t vs) refl

parse_reason-parts :
    (rlen : ℕ) (rest : List ℕ) (s : Text)
    → take rlen rest ≡ s
    → decode s ≡ some s
    → rlen ≤ length rest
    → 1 + rlen + pad_of (1 + rlen) ≡ suc (length rest)
    → parse_reason (rlen ∷ rest) ≡ ok (some s)
unfolding parse_reason
parse_reason-parts rlen rest s front plain within whole =
    let fits : leb rlen (length rest) ≡ true = ground arith in
    rw (fits, front, plain, (==_iff (1 + rlen + pad_of (1 + rlen)) (suc (length rest))).1 whole)
      refl

pub parse_reason-pack_reason :
    (reason : Option Text) → IsReason reason → parse_reason (pack_reason reason) ≡ ok reason
unfolding parse_reason pack_reason
parse_reason-pack_reason none v = refl
parse_reason-pack_reason (some s) item =
    let padding : List ℕ = replicate (pad_of (suc (length s))) 0 in
    ap
      (λ (t : List ℕ).
        parse_reason (length t ∷ (t ++ replicate (pad_of (length (length t ∷ t))) 0)))
      (encode-ascii s item.ascii)
    ∙ parse_reason-parts (length s) (s ++ padding) s (take-append (length s) s padding refl)
        (decode-ascii s item.ascii) (omega (arith, length-append s padding))
        (omega (arith, length-append s padding, length-replicate (pad_of (suc (length s))) 0))
