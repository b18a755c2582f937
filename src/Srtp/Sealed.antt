-- ===== src/Srtp/Sealed.antt =====
-- src/hermes_voip/media/srtp.py: what `unprotect` makes of the datagram that `protect` wrote under
-- the same keys and the same counter.
use Prim.Native.Nat.{bit_or}
use hermes_voip.Base.{
  ℕ, suc, ◌+◌, ◌-◌, ◌*◌, ◌/◌, ◌%◌, ◌≤◌, ◌≡◌, refl, sym, ap, ◌∙◌, true, leb, if◌then◌else◌, List, [],
  ◌∷◌, ◌++◌, length, take, drop, ok, arith, length-append, length-take, take-append, drop-append,
  append_assoc, append-nil, subst,
}
use hermes_voip.Base.Bits.{bit_xor_involutive}
use hermes_voip.Base.Bytes.{be32}
use hermes_voip.Rtp.Packet.{RtpPacket, pack, parse, IsValid}
use hermes_voip.Rtp.Packet.Wire.{parse-pack, from_be-be32}
use hermes_voip.Srtp.{
  Crypto, SrtpSession, Received, protect, protect_wire, unprotect, receive, verify, decrypt, seal,
  bind_source, advance_sender, update_state, estimate_roc, packet_index, same_bytes, xor_bytes,
  auth_tag, aes_cm_keystream, packet_iv, bind_ssrc, check_replay, rtp_header_len, seq_of, ssrc_of,
  roc_mod,
}

-- What the sessions rely on: the cipher gives as many bytes as it is asked for, and a digest of
-- SHA-1 has 20 bytes.
pub record IsSound (c : Crypto) : Type 0 where
  pub stream_length : (key iv : List ℕ) (n : ℕ) → length (c.aes_ctr key iv n) ≡ n
  pub digest_length : (key message : List ℕ) → length (c.hmac_sha1 key message) ≡ 20

-- Encryption and decryption are one operation.
xor_bytes_involutive :
    (ps ks : List ℕ) → length ps ≤ length ks → xor_bytes (xor_bytes ps ks) ks ≡ ps
unfolding xor_bytes
xor_bytes_involutive [] ks h = refl
xor_bytes_involutive (p ∷ ps) [] h = absurd (omega arith)
xor_bytes_involutive (p ∷ ps) (k ∷ ks) h =
    rw (bit_xor_involutive p k) (rw (xor_bytes_involutive ps ks (omega arith)) refl)

length-xor_bytes : (ps ks : List ℕ) → length ps ≤ length ks → length (xor_bytes ps ks) ≡ length ps
unfolding xor_bytes
length-xor_bytes [] ks h = refl
length-xor_bytes (p ∷ ps) [] h = absurd (omega arith)
length-xor_bytes (p ∷ ps) (k ∷ ks) h = ap suc (length-xor_bytes ps ks (omega arith))

same_bytes_refl : (xs : List ℕ) → same_bytes xs xs ≡ true
same_bytes_refl [] = refl
same_bytes_refl (x ∷ xs) = ground (arith, same_bytes_refl xs)

length-keystream :
    (c : Crypto) (key iv : List ℕ) (n : ℕ) → IsSound c → length (aes_cm_keystream c key iv n) ≡ n
unfolding aes_cm_keystream
length-keystream c key iv n sound = ground (arith, sound.stream_length key iv n)

length-auth_tag :
    (c : Crypto) (key header text : List ℕ) (roc n : ℕ)
    → IsSound c
    → n ≤ 20
    → length (auth_tag c key header text roc n) ≡ n
unfolding auth_tag
length-auth_tag c key header text roc n sound short = omega (
  arith,
  length-take n (c.hmac_sha1 key (header ++ (text ++ be32 (roc % roc_mod)))),
  sound.digest_length key (header ++ (text ++ be32 (roc % roc_mod))),
)

-- The header that `pack` writes: there are no CSRCs and there is no extension.
pub clear_header : RtpPacket → List ℕ
clear_header p =
    2 * 64
      ∷ bit_or (if p.marker then 128 else 0) p.payload_type
      ∷ p.sequence_number / 256
      ∷ p.sequence_number % 256
      ∷ be32 p.timestamp
    ++ be32 p.ssrc

pack-clear : (p : RtpPacket) → pack p ≡ clear_header p ++ p.payload
unfolding pack clear_header
pack-clear p = refl

length-clear_header : (p : RtpPacket) → length (clear_header p) ≡ 12
unfolding clear_header
length-clear_header p = refl

clear_header-fields :
    (p : RtpPacket) (rest : List ℕ)
    → IsValid p
    → (rtp_header_len (clear_header p ++ rest) ≡ ok 12)
      × (seq_of (clear_header p ++ rest) ≡ p.sequence_number)
      × (ssrc_of (clear_header p ++ rest) ≡ p.ssrc)
unfolding clear_header rtp_header_len seq_of ssrc_of
clear_header-fields p rest v =
    (ground arith, omega (arith, v.sequence_le), from_be-be32 p.ssrc v.ssrc_le)

-- What `protect_wire` makes of a datagram whose parts are known.
protect_wire-parts :
    (c : Crypto) (s bound : SrtpSession) (wire header payload : List ℕ) (x q : ℕ)
    → rtp_header_len wire ≡ ok 12
    → seq_of wire ≡ q
    → ssrc_of wire ≡ x
    → take 12 wire ≡ header
    → drop 12 wire ≡ payload
    → bind_ssrc s x ≡ ok bound
    → protect_wire c s wire
      ≡ ok (seal c (advance_sender bound q) x q header payload, advance_sender bound q)
unfolding protect_wire
protect_wire-parts c s bound wire header payload x q cut at source front back b =
    rw (cut, at, source, front, back, b) refl

pub protect_lem :
    (c : Crypto) (s bound : SrtpSession) (p : RtpPacket)
    → IsValid p
    → bind_ssrc s p.ssrc ≡ ok bound
    → protect c s p
      ≡ ok (
        seal c
            (advance_sender bound p.sequence_number)
            p.ssrc
            p.sequence_number
            (clear_header p)
            p.payload,
        advance_sender bound p.sequence_number,
      )
unfolding protect clear_header
protect_lem c s bound p v b =
    let (cut, q, x) = clear_header-fields p p.payload v in
    protect_wire-parts c s bound (clear_header p ++ p.payload) (clear_header p) p.payload p.ssrc
      p.sequence_number cut q x (take-append 12 (clear_header p) p.payload (length-clear_header p))
      (drop-append 12 (clear_header p) p.payload (length-clear_header p)) b

-- The cut at the tag.
tag_cut :
    (n : ℕ) (body tag : List ℕ)
    → length tag ≡ n
    → (take (length (body ++ tag) - n) (body ++ tag) ≡ body)
      × (drop (length (body ++ tag) - n) (body ++ tag) ≡ tag)
tag_cut n body tag e =
    let at : length (body ++ tag) - n ≡ length body = omega (arith, length-append body tag) in
    rw at (take-append (length body) body tag refl, drop-append (length body) body tag refl)

receive-parts :
    (n : ℕ) (wire body header ciphertext tag : List ℕ) (x q : ℕ)
    → 12 + n ≤ length wire
    → take (length wire - n) wire ≡ body
    → drop (length wire - n) wire ≡ tag
    → rtp_header_len body ≡ ok 12
    → take 12 body ≡ header
    → drop 12 body ≡ ciphertext
    → seq_of header ≡ q
    → ssrc_of header ≡ x
    → receive n wire
      ≡ ok (record { header = header; ciphertext = ciphertext; tag = tag; seq = q; ssrc = x })
unfolding receive
receive-parts n wire body header ciphertext tag x q long inner outer cut front back at source =
    rw (le→leb (12 + n) (length wire) long, inner, outer, cut, front, back, at, source) refl
  where
    le→leb : (a b : ℕ) → a ≤ b → leb a b ≡ true
    le→leb a b h = ground arith

-- The two ends have the same keys.
pub record SameKeys (s r : SrtpSession) : Type 0 where
  pub encryption : r.k_e ≡ s.k_e
  pub salt : r.k_s ≡ s.k_s
  pub authentication : r.k_a ≡ s.k_a
  pub tag_length : r.tag_len ≡ s.tag_len
  pub tag_short : s.tag_len ≤ 20

keystream_of : Crypto → SrtpSession → ℕ → ℕ → ℕ → List ℕ
keystream_of c t x q n = aes_cm_keystream c t.k_e (packet_iv t.k_s x t.roc q) n

ciphertext_of : Crypto → SrtpSession → ℕ → ℕ → List ℕ → List ℕ
ciphertext_of c t x q payload = xor_bytes payload (keystream_of c t x q (length payload))

tag_of : Crypto → SrtpSession → List ℕ → List ℕ → List ℕ
tag_of c t header ciphertext = auth_tag c t.k_a header ciphertext t.roc t.tag_len

seal_lem :
    (c : Crypto) (t : SrtpSession) (x q : ℕ) (header payload : List ℕ)
    → seal c t x q header payload
      ≡ (header ++ ciphertext_of c t x q payload)
        ++ tag_of c t header (ciphertext_of c t x q payload)
unfolding seal ciphertext_of tag_of keystream_of
seal_lem c t x q header payload = sym (append_assoc header _ _)

verify-parts :
    (c : Crypto) (s bound : SrtpSession) (r : Received) (roc : ℕ)
    → estimate_roc s r.seq ≡ roc
    → auth_tag c s.k_a r.header r.ciphertext roc s.tag_len ≡ r.tag
    → bind_ssrc s r.ssrc ≡ ok bound
    → check_replay bound (packet_index roc r.seq) ≡ ok tt
    → verify c s r ≡ (ok tt, bound)
unfolding verify
verify-parts c s bound r roc e tag b fresh =
    rw (e, tag, same_bytes_refl r.tag, bind_source, b, fresh) refl

decrypt-parts :
    (c : Crypto) (s bound : SrtpSession) (r : Received) (roc : ℕ) (plain : List ℕ) (p : RtpPacket)
    → estimate_roc s r.seq ≡ roc
    → xor_bytes r.ciphertext
        (aes_cm_keystream c s.k_e (packet_iv s.k_s r.ssrc roc r.seq) (length r.ciphertext))
      ≡ plain
    → parse (r.header ++ plain) ≡ ok p
    → decrypt c s bound r ≡ (ok p, update_state bound r.seq roc (packet_index roc r.seq))
unfolding decrypt
decrypt-parts c s bound r roc plain p e opened parsed = rw (e, opened, parsed) refl

unprotect-parts :
    (c : Crypto) (s bound : SrtpSession) (wire : List ℕ) (r : Received)
    → receive s.tag_len wire ≡ ok r
    → verify c s r ≡ (ok tt, bound)
    → unprotect c s wire ≡ decrypt c s bound r
unfolding unprotect
unprotect-parts c s bound wire r cut passed = rw (cut, unprotect, passed) refl

-- What the receiver reads of a sealed packet.
abbrev sealed : Crypto → SrtpSession → RtpPacket → Received
sealed c t p = record {
  header = clear_header p;
  ciphertext = ciphertext_of c t p.ssrc p.sequence_number p.payload;
  tag = tag_of c t (clear_header p) (ciphertext_of c t p.ssrc p.sequence_number p.payload);
  seq = p.sequence_number;
  ssrc = p.ssrc;
}

module _ (c : Crypto) (t : SrtpSession) (sound : IsSound c) (short : t.tag_len ≤ 20) where
  length-ciphertext_of :
      (x q : ℕ) (payload : List ℕ) → length (ciphertext_of c t x q payload) ≡ length payload
  unfolding ciphertext_of keystream_of
  length-ciphertext_of x q payload =
      let e = length-keystream c t.k_e (packet_iv t.k_s x t.roc q) (length payload) sound in
      length-xor_bytes payload _ (omega (arith, e))

  length-tag_of : (header ciphertext : List ℕ) → length (tag_of c t header ciphertext) ≡ t.tag_len
  unfolding tag_of
  length-tag_of header ciphertext =
      length-auth_tag c t.k_a header ciphertext t.roc t.tag_len sound short

  sealed_parts :
      (p : RtpPacket)
      → IsValid p
      → receive t.tag_len (seal c t p.ssrc p.sequence_number (clear_header p) p.payload)
        ≡ ok (sealed c t p)
  sealed_parts p v =
      let cipher = ciphertext_of c t p.ssrc p.sequence_number p.payload in
      let tag = tag_of c t (clear_header p) cipher in
      let twelve = length-clear_header p in
      let n = length-tag_of (clear_header p) cipher in
      let (inner, outer) = tag_cut t.tag_len (clear_header p ++ cipher) tag n in
      let (cut, _, _) = clear_header-fields p cipher v in
      let (_, at, source) = clear_header-fields p [] v in
      rw (seal_lem c t p.ssrc p.sequence_number (clear_header p) p.payload) (
        receive-parts t.tag_len ((clear_header p ++ cipher) ++ tag) (clear_header p ++ cipher)
          (clear_header p) cipher tag p.ssrc p.sequence_number
          (omega (
            arith,
            length-append (clear_header p ++ cipher) tag,
            length-append (clear_header p) cipher,
            twelve,
            n,
          ))
          inner outer cut (take-append 12 (clear_header p) cipher twelve)
          (drop-append 12 (clear_header p) cipher twelve)
          (subst (λ (h : List ℕ). seq_of h ≡ p.sequence_number) (append-nil (clear_header p)) at)
          (subst (λ (h : List ℕ). ssrc_of h ≡ p.ssrc) (append-nil (clear_header p)) source))

  verify-sealed :
      (r bound : SrtpSession) (p : RtpPacket)
      → SameKeys t r
      → estimate_roc r p.sequence_number ≡ t.roc
      → bind_ssrc r p.ssrc ≡ ok bound
      → check_replay bound (packet_index t.roc p.sequence_number) ≡ ok tt
      → verify c r (sealed c t p) ≡ (ok tt, bound)
  unfolding tag_of
  verify-sealed r bound p keys roc b fresh =
      verify-parts c r bound (sealed c t p) t.roc roc
        (rw (keys.authentication, keys.tag_length) refl) b fresh

  opened :
      (r : SrtpSession) (x q : ℕ) (payload : List ℕ)
      → SameKeys t r
      → (let cipher = ciphertext_of c t x q payload in
          xor_bytes cipher (aes_cm_keystream c r.k_e (packet_iv r.k_s x t.roc q) (length cipher))
          ≡ payload)
  opened r x q payload keys =
      rw (keys.encryption, keys.salt, length-ciphertext_of x q payload) (recover)
    where
      recover :
          xor_bytes
            (ciphertext_of c t x q payload)
            (aes_cm_keystream c t.k_e (packet_iv t.k_s x t.roc q) (length payload))
          ≡ payload
      recover =
          unfold ciphertext_of keystream_of in
          xor_bytes_involutive payload _ (
            omega
              (arith, length-keystream c t.k_e (packet_iv t.k_s x t.roc q) (length payload) sound))

  decrypt-sealed :
      (r bound : SrtpSession) (p : RtpPacket)
      → IsValid p
      → SameKeys t r
      → estimate_roc r p.sequence_number ≡ t.roc
      → decrypt c r bound (sealed c t p)
        ≡ (ok p, update_state bound p.sequence_number t.roc (packet_index t.roc p.sequence_number))
  decrypt-sealed r bound p v keys roc =
      decrypt-parts c r bound (sealed c t p) t.roc p.payload p roc
        (opened r p.ssrc p.sequence_number p.payload keys)
        (subst (λ (w : List ℕ). parse w ≡ ok p) (pack-clear p) (parse-pack p v))

  -- What the receiver makes of a sealed packet that is new in its window.
  pub unprotect-seal :
      (r bound : SrtpSession) (p : RtpPacket)
      → IsValid p
      → SameKeys t r
      → estimate_roc r p.sequence_number ≡ t.roc
      → bind_ssrc r p.ssrc ≡ ok bound
      → check_replay bound (packet_index t.roc p.sequence_number) ≡ ok tt
      → unprotect c r (seal c t p.ssrc p.sequence_number (clear_header p) p.payload)
        ≡ (ok p, update_state bound p.sequence_number t.roc (packet_index t.roc p.sequence_number))
  unprotect-seal r bound p v keys roc b fresh =
      let wire = seal c t p.ssrc p.sequence_number (clear_header p) p.payload in
      unprotect-parts c r bound wire (sealed c t p)
        (subst (λ (n : ℕ). receive n wire ≡ ok (sealed c t p)) (sym keys.tag_length)
          (sealed_parts p v))
        (verify-sealed r bound p keys roc b fresh)
      ∙ decrypt-sealed r bound p v keys roc
