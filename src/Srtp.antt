-- ===== src/Srtp.antt =====
-- src/hermes_voip/media/srtp.py: the SRTP packet transform (RFC 3711). AES counter mode and the
-- HMAC come from other packages and are the record `Crypto`. `_seq_top` is -1 before the first
-- packet: here an `Option`. A method returns the new session.
pub mod Roc
pub mod Replay
pub mod Trace
pub mod Sealed
pub mod Link
pub mod Session
use Prim.Native.Nat.{bit_and, bit_or, bit_xor}
use hermes_voip.Base.{
  ℕ, zero, suc, ◌+◌, ◌-◌, ◌*◌, ◌/◌, ◌%◌, ◌^◌, ◌≡◌, Bool, true, false, not, ◌&&◌, ◌==◌, ltb, leb,
  if◌then◌else◌, List, [], ◌∷◌, ◌++◌, length, get_or, take, drop, replicate, Option, none, some,
  Result, ok, err, guard, ◌>>=◌, ◌>>◌,
}
use hermes_voip.Base.Bytes.{be32, from_be}
use hermes_voip.Rtp.Packet.{RtpPacket, RtpError, pack, parse}

-- `cryptography` (AES-CTR: the key, the counter block, the number of zero bytes that are encrypted)
-- and the standard library's `hmac`.
pub record Crypto : Type 0 where
  pub aes_ctr : List ℕ → List ℕ → ℕ → List ℕ
  pub hmac_sha1 : List ℕ → List ℕ → List ℕ

pub data SrtpError : Type 0 where
  short_header short_csrc short_extension short_extension_data : SrtpError
  wrong_ssrc too_short bad_tag too_old replayed : SrtpError
  bad_rtp : RtpError → SrtpError
  unsupported_suite mki_unsupported lifetime_unsupported undecodable_key : SrtpError
  bad_key_length bad_salt_length : SrtpError

pub record SrtpSession : Type 0 where
  pub k_e : List ℕ
  pub k_s : List ℕ
  pub k_a : List ℕ
  pub tag_len : ℕ
  pub ssrc : Option ℕ
  pub roc : ℕ
  pub seq_top : Option ℕ
  pub replay_mask : ℕ

abbrev pub roc_mod : ℕ
roc_mod = 4294967296

abbrev pub seq_half : ℕ
seq_half = 32768

abbrev pub seq_max : ℕ
seq_max = 65535

abbrev pub replay_window : ℕ
replay_window = 64

unfoldable pub aes_cm_keystream : Crypto → List ℕ → List ℕ → ℕ → List ℕ
aes_cm_keystream c key iv n = if n == 0 then [] else c.aes_ctr key iv n

-- `int.to_bytes(n, "big")`.
abbrev to_be : ℕ → ℕ → List ℕ
to_be zero x = []
to_be (suc n) x = to_be n (x / 256) ++ x % 256 ∷ []

-- `_kdf` in `_derive_session_keys`: `label * 2 ** 64` is added without carry to the salt.
kdf : Crypto → List ℕ → List ℕ → ℕ → ℕ → List ℕ
unfolding aes_cm_keystream
kdf c master_key master_salt label n =
    aes_cm_keystream c master_key
      (to_be 16 (bit_xor (label * 2 ^ 64) (from_be 0 (master_salt ++ 0 ∷ 0 ∷ [])))) n

-- `(k_e, k_s, k_a)`.
unfoldable pub derive_session_keys : Crypto → List ℕ → List ℕ → List ℕ × List ℕ × List ℕ
unfolding kdf
derive_session_keys c key salt = (kdf c key salt 0 16, kdf c key salt 2 14, kdf c key salt 1 20)

unfoldable pub packet_iv : List ℕ → ℕ → ℕ → ℕ → List ℕ
packet_iv session_salt ssrc roc seq =
    let salt_int = from_be 0 (session_salt ++ 0 ∷ 0 ∷ []) in
    let index = bit_or (roc * 2 ^ 16) seq * 2 ^ 16 in
    to_be 16 (bit_xor (bit_xor salt_int (ssrc * 2 ^ 64)) index)

unfoldable pub auth_tag : Crypto → List ℕ → List ℕ → List ℕ → ℕ → ℕ → List ℕ
auth_tag c auth_key header ciphertext roc tag_len =
    take tag_len (c.hmac_sha1 auth_key (header ++ (ciphertext ++ be32 (roc % roc_mod))))

-- `_rtp_header_len`.
unfoldable pub rtp_header_len : List ℕ → Result SrtpError ℕ
rtp_header_len wire = do
  guard (leb 12 (length wire)) short_header
  let byte0 = get_or wire 0 0
  let offset = 12 + bit_and byte0 15 * 4
  guard (leb offset (length wire)) short_csrc
  if bit_and byte0 16 == 0 then ok offset else do
    guard (leb (offset + 4) (length wire)) short_extension
    let words = from_be 0 (take 2 (drop (offset + 2) wire))
    let stop = offset + (4 + words * 4)
    guard (leb stop (length wire)) short_extension_data
    ok stop

-- `bytes(p ^ k for p, k in zip(payload, ks, strict=True))`, of two strings of one length.
unfoldable pub xor_bytes : List ℕ → List ℕ → List ℕ
xor_bytes [] ks = []
xor_bytes (p ∷ ps) [] = []
xor_bytes (p ∷ ps) (k ∷ ks) = bit_xor p k ∷ xor_bytes ps ks

unfoldable pub bind_ssrc : SrtpSession → ℕ → Result SrtpError SrtpSession
bind_ssrc s x = elim s.ssrc [
  | none ↦ ok (record s { ssrc = some x })
  | some home ↦ if x == home then ok s else err wrong_ssrc
]

abbrev pub is_last : Option ℕ → Bool
is_last none = false
is_last (some top) = top == seq_max

-- The sender's counter, as `protect_wire` moves it.
unfoldable pub advance_sender : SrtpSession → ℕ → SrtpSession
advance_sender s seq = record s {
  roc = if is_last s.seq_top && seq == 0 then (s.roc + 1) % roc_mod else s.roc;
  seq_top = some seq;
}

unfoldable pub seq_of : List ℕ → ℕ
seq_of wire = from_be 0 (take 2 (drop 2 wire))

unfoldable pub ssrc_of : List ℕ → ℕ
ssrc_of wire = from_be 0 (take 4 (drop 8 wire))

-- The wire form of a payload under the session's counter.
unfoldable pub seal : Crypto → SrtpSession → ℕ → ℕ → List ℕ → List ℕ → List ℕ
unfolding aes_cm_keystream xor_bytes packet_iv auth_tag
seal c s ssrc seq header payload =
    let ks = aes_cm_keystream c s.k_e (packet_iv s.k_s ssrc s.roc seq) (length payload) in
    let ciphertext = xor_bytes payload ks in
    header ++ (ciphertext ++ auth_tag c s.k_a header ciphertext s.roc s.tag_len)

-- `protect_wire`: on an error the session is as it was.
unfoldable pub protect_wire :
    Crypto → SrtpSession → List ℕ → Result SrtpError (List ℕ × SrtpSession)
unfolding rtp_header_len bind_ssrc advance_sender seq_of ssrc_of seal
protect_wire c s wire = do
  n ← rtp_header_len wire
  bound ← bind_ssrc s (ssrc_of wire)
  let sender = advance_sender bound (seq_of wire)
  ok (seal c sender (ssrc_of wire) (seq_of wire) (take n wire) (drop n wire), sender)

unfoldable pub protect : Crypto → SrtpSession → RtpPacket → Result SrtpError (List ℕ × SrtpSession)
unfolding protect_wire pack
protect c s p = protect_wire c s (pack p)

-- `_estimate_roc`: `seq - s_l > _SEQ_HALF` on integers is `s_l + _SEQ_HALF < seq`.
unfoldable pub estimate_roc : SrtpSession → ℕ → ℕ
estimate_roc s seq = elim s.seq_top [
  | none ↦ 0
  | some top ↦
      if ltb top seq_half
      then (if ltb (top + seq_half) seq then (s.roc + roc_mod - 1) % roc_mod else s.roc)
      else if ltb (seq + seq_half) top
      then (s.roc + 1) % roc_mod
      else s.roc
]

-- `(roc << 16) | seq` of a 16-bit sequence number.
abbrev pub packet_index : ℕ → ℕ → ℕ
packet_index roc seq = roc * 65536 + seq

-- `_replay_top`.
unfoldable pub replay_top : SrtpSession → Option ℕ
replay_top s = elim s.seq_top [ none ↦ none | some top ↦ some (packet_index s.roc top) ]

-- `_check_replay` with the window's top.
unfoldable pub check_replay_at : ℕ → ℕ → ℕ → Result SrtpError (Unit {0})
check_replay_at mask top index =
    if leb (index + replay_window) top
    then err too_old
    else if leb index top && not (bit_and mask (2 ^ ((top - index) % replay_window)) == 0)
    then err replayed
    else ok tt

unfoldable pub check_replay : SrtpSession → ℕ → Result SrtpError (Unit {0})
unfolding check_replay_at replay_top
check_replay s index = elim (replay_top s) [
  | none ↦ ok tt
  | some top ↦ check_replay_at s.replay_mask top index
]

-- `_update_state` where the packet is the highest so far, `shift` above the top.
shift_window : SrtpSession → ℕ → ℕ → ℕ → SrtpSession
shift_window s seq roc shift = record s {
  replay_mask = bit_or (s.replay_mask * 2 ^ shift) 1 % 2 ^ replay_window;
  seq_top = some seq;
  roc = roc;
}

update_state_at : SrtpSession → ℕ → ℕ → ℕ → ℕ → SrtpSession
unfolding shift_window
update_state_at s top seq roc index =
    if ltb top index
    then shift_window s seq roc (index - top)
    else record s { replay_mask = bit_or s.replay_mask (2 ^ ((top - index) % replay_window)) }

unfoldable pub update_state : SrtpSession → ℕ → ℕ → ℕ → SrtpSession
unfolding update_state_at shift_window replay_top
update_state s seq roc index = elim (replay_top s) [
  | none ↦ shift_window s seq roc 0
  | some top ↦ update_state_at s top seq roc index
]

-- A received datagram, cut at the tag and at the end of the clear header.
pub record Received : Type 0 where
  pub header : List ℕ
  pub ciphertext : List ℕ
  pub tag : List ℕ
  pub seq : ℕ
  pub ssrc : ℕ

unfoldable pub receive : ℕ → List ℕ → Result SrtpError Received
unfolding rtp_header_len seq_of ssrc_of
receive tag_len wire = do
  guard (leb (12 + tag_len) (length wire)) too_short
  let body = take (length wire - tag_len) wire
  n ← rtp_header_len body
  ok (record {
    header = take n body;
    ciphertext = drop n body;
    tag = drop (length wire - tag_len) wire;
    seq = seq_of (take n body);
    ssrc = ssrc_of (take n body);
  })

-- `hmac.compare_digest`.
abbrev pub same_bytes : List ℕ → List ℕ → Bool
same_bytes [] [] = true
same_bytes [] (y ∷ ys) = false
same_bytes (x ∷ xs) [] = false
same_bytes (x ∷ xs) (y ∷ ys) = x == y && same_bytes xs ys

-- A call that raises keeps what was written so far, and what follows it is not done.
abbrev pub and_then :
    Result SrtpError (Unit {0}) × SrtpSession
    → (SrtpSession → Result SrtpError (Unit {0}) × SrtpSession)
    → Result SrtpError (Unit {0}) × SrtpSession
and_then (ok u, s) next = next s
and_then (err e, s) next = (err e, s)

-- The call of `_bind_ssrc`.
abbrev pub bind_source : SrtpSession → ℕ → Result SrtpError (Unit {0}) × SrtpSession
bind_source s ssrc = elim (bind_ssrc s ssrc) [ ok bound ↦ (ok tt, bound) | err e ↦ (err e, s) ]

-- The tests of `unprotect` behind the cut, with the session that they leave: the tag first, then the
-- source, which stays bound also where the replay window refuses the packet.
unfoldable pub verify : Crypto → SrtpSession → Received → Result SrtpError (Unit {0}) × SrtpSession
verify c s r =
    let roc = estimate_roc s r.seq in
    let expected = auth_tag c s.k_a r.header r.ciphertext roc s.tag_len in
    and_then (guard (same_bytes expected r.tag) bad_tag, s)
      (λ authentic.
        and_then (bind_source authentic r.ssrc)
          (λ bound. (check_replay bound (packet_index roc r.seq), bound)))

abbrev pub open_rtp : Result RtpError RtpPacket → Result SrtpError RtpPacket
open_rtp (ok p) = ok p
open_rtp (err e) = err (bad_rtp e)

-- The rest of `unprotect`: a packet that passed the tests updates the state also where its
-- decrypted bytes are no RTP packet. `bound` is `s` with its source bound.
unfoldable pub decrypt :
    Crypto → SrtpSession → SrtpSession → Received → Result SrtpError RtpPacket × SrtpSession
decrypt c s bound r =
    let roc = estimate_roc s r.seq in
    let ks = aes_cm_keystream c s.k_e (packet_iv s.k_s r.ssrc roc r.seq) (length r.ciphertext) in
    (
      open_rtp (parse (r.header ++ xor_bytes r.ciphertext ks)),
      update_state bound r.seq roc (packet_index roc r.seq),
    )

abbrev pub decrypt_verified :
    Crypto
    → SrtpSession
    → Received
    → Result SrtpError (Unit {0}) × SrtpSession
    → Result SrtpError RtpPacket × SrtpSession
decrypt_verified c s r (ok u, bound) = decrypt c s bound r
decrypt_verified c s r (err e, left) = (err e, left)

-- `unprotect`.
unfoldable pub unprotect : Crypto → SrtpSession → List ℕ → Result SrtpError RtpPacket × SrtpSession
unprotect c s wire = elim (receive s.tag_len wire) [
  | err e ↦ (err e, s)
  | ok r ↦ decrypt_verified c s r (verify c s r)
]
