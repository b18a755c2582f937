-- ===== src/Srtp/Session/Delivery.antt =====
-- src/hermes_voip/media/srtp.py with the SDES keys of src/hermes_voip/sdp.py: the sessions of the two
-- ends of a call.
use hermes_voip.Base.{
  ℕ, ◌≤◌, ◌≡◌, refl, ap, ◌∙◌, Bool, true, false, List, ◌∷◌, ◌++◌, length, take, drop, Option, none,
  some, ok, arith, All, ◌⊎◌, inl, inr,
}
use hermes_voip.Base.Text.{Text}
use hermes_voip.Base.Text.Laws.{split-whole}
use hermes_voip.Base.Base64.{b64encode, b64decode-b64encode, b64encode-plain, IsByte}
use hermes_voip.Rtp.Packet.{RtpPacket, IsValid}
use hermes_voip.Sdp.Crypto.{
  CryptoAttribute, validate_crypto, parse_crypto, render_crypto, generate_answer_crypto,
  inline_prefix, suite_80, suite_32,
}
use hermes_voip.Sdp.Crypto.RoundTrip.{validate_crypto-IsValid, generate_answer_crypto-keyed}
use hermes_voip.Srtp.{Crypto, SrtpSession, bind_ssrc}
use hermes_voip.Srtp.Sealed.{IsSound, SameKeys}
use hermes_voip.Srtp.Link.{link, arrived, InOrder, IsUnused, link_new}
use hermes_voip.Srtp.Session.{auth_tag_len, new_session, from_attribute, reject_session_params}

auth_tag_len-short :
    (suite : Text)
    → (suite ≡ suite_80) ⊎ (suite ≡ suite_32)
    → (n : ℕ) × (auth_tag_len suite ≡ some n) × (n ≤ 20)
auth_tag_len-short suite (inl e) = (10, rw e refl, omega arith)
auth_tag_len-short suite (inr e) = (4, rw e refl, omega arith)

-- The session of an attribute with one key and no session parameters.
from_attribute-ok :
    (c : Crypto) (a : CryptoAttribute) (token : List ℕ) (n : ℕ) (ssrc : Option ℕ)
    → auth_tag_len a.suite ≡ some n
    → a.key_params ≡ inline_prefix ++ b64encode token
    → All IsByte token
    → from_attribute c a ssrc ≡ ok (new_session c (take 16 token) (take 14 (drop 16 token)) n ssrc)
unfolding from_attribute reject_session_params
from_attribute-ok c a token n ssrc tag key bytes =
    rw
      (
        tag,
        key,
        split-whole 124 (b64encode token) (b64encode-plain token).0,
        b64decode-b64encode false token bytes,
      )
      refl

module _ (c : Crypto) (key salt : List ℕ) (n x : ℕ) where
  new_session-IsUnused : IsUnused (new_session c key salt n none) x
  unfolding new_session bind_ssrc
  new_session-IsUnused = record { binds = refl; counter_zero = refl; no_top = refl }

  bound_session-IsUnused : IsUnused (new_session c key salt n (some x)) x
  unfolding new_session bind_ssrc
  bound_session-IsUnused = record { binds = ground arith; counter_zero = refl; no_top = refl }

  new_session-SameKeys :
      n ≤ 20 → SameKeys (new_session c key salt n none) (new_session c key salt n (some x))
  unfolding new_session
  new_session-SameKeys short = record {
    encryption = refl;
    salt = refl;
    authentication = refl;
    tag_length = refl;
    tag_short = short;
  }

-- From the answer's key to the last packet: for 30 random bytes and a valid offer the answer is keyed,
-- the peer reads the attribute from its text, both ends make a session from it, the answerer
-- for sending and the peer for receiving, and a stream of valid packets in order is received as
-- it was sent, less the packets that are lost on the way, if the first arrives, never 32767
-- in a row are lost, and the rollover counter stays below its last value.
pub generate_answer_crypto-delivers :
    (c : Crypto) (token : List ℕ) (accepted : CryptoAttribute) (p : RtpPacket)
    (ps : List (RtpPacket × Bool))
    → IsSound c
    → length token ≡ 30
    → All IsByte token
    → validate_crypto accepted ≡ ok accepted
    → IsValid p
    → InOrder p.ssrc p.sequence_number 0 ps
    → (answer heard : CryptoAttribute) × (s r : SrtpSession) × (generate_answer_crypto token
          accepted
        ≡ ok answer)
      × (parse_crypto (render_crypto answer) ≡ ok heard)
      × (from_attribute c answer none ≡ ok s)
      × (from_attribute c heard (some p.ssrc) ≡ ok r)
      × (link c s r ((p, true) ∷ ps) ≡ ok p ∷ arrived ps)
generate_answer_crypto-delivers c token accepted p ps sound thirty bytes valid v order =
    let (answer, made, _, suite, key, heard, _) =
      generate_answer_crypto-keyed token accepted thirty bytes valid in
    let (known, _) = validate_crypto-IsValid accepted accepted valid in
    let (n, tag, short) = auth_tag_len-short accepted.suite known.suite_known in
    let tag' : auth_tag_len answer.suite ≡ some n = ap auth_tag_len suite ∙ tag in
    let master = take 16 token in
    let salt = take 14 (drop 16 token) in
    (
      answer,
      answer,
      new_session c master salt n none,
      new_session c master salt n (some p.ssrc),
      made,
      heard,
      from_attribute-ok c answer token n none tag' key bytes,
      from_attribute-ok c answer token n (some p.ssrc) tag' key bytes,
      link_new c sound (new_session c master salt n none)
          (new_session c master salt n (some p.ssrc)) p ps
          (new_session-IsUnused c master salt n p.ssrc)
          (bound_session-IsUnused c master salt n p.ssrc)
          (new_session-SameKeys c master salt n p.ssrc short) v order,
    )
