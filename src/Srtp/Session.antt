-- ===== src/Srtp/Session.antt =====
-- src/hermes_voip/media/srtp.py: the two constructors of a session, from an SDES attribute and from
-- the key and the salt of a DTLS handshake. That `cryptography` is installed is taken for granted.
pub mod Delivery
use hermes_voip.Base.{
  ℕ, Bool, true, false, ◌||◌, ◌==◌, if◌then◌else◌, List, [], ◌∷◌, length, take, drop, Option, none,
  some, Result, ok, err, guard, or_fail, ◌>>=◌, ◌>>◌,
}
use hermes_voip.Base.Text.{Text, same_text, split, any}
use hermes_voip.Base.Base64.{b64decode}
use hermes_voip.Sdp.Crypto.{CryptoAttribute, suite_80, suite_32}
use hermes_voip.Srtp.{
  Crypto, SrtpError, SrtpSession, unsupported_suite, mki_unsupported, lifetime_unsupported,
  undecodable_key, bad_key_length, bad_salt_length, derive_session_keys,
}

-- `_AUTH_TAG_LEN`.
abbrev pub auth_tag_len : Text → Option ℕ
auth_tag_len suite =
    if same_text suite suite_80 then some 10 else if same_text suite suite_32 then some 4 else none

abbrev has_colon : List Text → Bool
has_colon [] = false
has_colon (t ∷ ts) = any (λ (c : ℕ). c == 58) t || has_colon ts

-- `_reject_session_params`, where there are any.
unfoldable pub reject_session_params : List Text → Result SrtpError (Unit {0})
reject_session_params [] = ok tt
reject_session_params (p ∷ ps) =
    err (if has_colon (p ∷ ps) then mki_unsupported else lifetime_unsupported)

-- A session that has sent and received nothing.
unfoldable pub new_session : Crypto → List ℕ → List ℕ → ℕ → Option ℕ → SrtpSession
new_session c master_key master_salt tag_len ssrc =
    let (k_e, k_s, k_a) = derive_session_keys c master_key master_salt in
    record {
      k_e = k_e;
      k_s = k_s;
      k_a = k_a;
      tag_len = tag_len;
      ssrc = ssrc;
      roc = 0;
      seq_top = none;
      replay_mask = 0;
    }

-- `SrtpSession(crypto, ssrc=…)`.
unfoldable pub from_attribute : Crypto → CryptoAttribute → Option ℕ → Result SrtpError SrtpSession
from_attribute c a ssrc = do
  tag_len ← or_fail (auth_tag_len a.suite) unsupported_suite
  let segments = split 124 (drop 7 a.key_params)
  reject_session_params segments.1
  raw ← or_fail (b64decode false segments.0) undecodable_key
  ok (new_session c (take 16 raw) (take 14 (drop 16 raw)) tag_len ssrc)

-- `SrtpSession.from_raw_keys`.
unfoldable pub from_raw_keys :
    Crypto → List ℕ → List ℕ → Text → Option ℕ → Result SrtpError SrtpSession
from_raw_keys c master_key master_salt suite ssrc = do
  guard (length master_key == 16) bad_key_length
  guard (length master_salt == 14) bad_salt_length
  tag_len ← or_fail (auth_tag_len suite) unsupported_suite
  ok (new_session c master_key master_salt tag_len ssrc)
