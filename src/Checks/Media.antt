-- ===== src/Checks/Media.antt =====
-- src/hermes_voip/sdp.py, src/hermes_voip/media/srtp.py, src/hermes_voip/rtcp.py: a small negotiation,
-- a stream and a compound datagram.
use hermes_voip.Base.{
  ℕ, zero, suc, ap, ◌≤◌, ◌<◌, ◌≡◌, ◌⊎◌, ◌↔◌, refl, Bool, true, false, List, [], ◌∷◌, ◌++◌,
  replicate, length, All, Option, none, some, Result, ok, err, arith,
}
use hermes_voip.Base.Text.{Text, split}
use hermes_voip.Base.Base64.{b64decode, IsByte}
use mathlib.Core.List.{Memᴰ, Permᴰ}
use hermes_voip.Rtp.Packet.{IsValid}
use hermes_voip.Srtp.{SrtpSession}
use hermes_voip.Srtp.Sealed.{IsSound}
use hermes_voip.Srtp.Link.{link}
use hermes_voip.Srtp.Session.{from_attribute}
use hermes_voip.Srtp.Session.Delivery.{generate_answer_crypto-delivers}
use hermes_voip.Sdp.{SdpError}
use hermes_voip.Sdp.Crypto.{
  CryptoAttribute, suite_80, suite_32, validate_crypto, negotiate_answer_crypto, coerce_crypto,
  attribute, generate_answer_crypto, parse_crypto, render_crypto, strongest,
}
use hermes_voip.Sdp.Crypto.Choice.{NoneStronger, negotiate_answer_crypto-NoneStronger}
use hermes_voip.Sdp.Audio.{
  AudioMedia, Codec, MediaSecurity, plain, dtls, sdes, negotiate_media_security, has_savp,
  has_crypto, is_webrtc, has_fingerprint, sip_dtls_profile, plain_profile, sendrecv,
  negotiate_ptime, negotiate_audio, has_ptime, is_usable, within_cap, codecs_of, common, rank_of,
  has_voice, voice_of, rate_fits, event_of,
}
use hermes_voip.Sdp.Audio.Limits.{negotiate_ptime-fits, NoneLarger}
use hermes_voip.Sdp.Audio.Security.{HasTier, negotiate_media_security-HasTier}
use hermes_voip.Sdp.Audio.Ranks.{HasVoice}
use hermes_voip.Sdp.Audio.Codecs.{Selection, EventFits, negotiate_audio-agreed, IsSorted}
use hermes_voip.Rtcp.{negsuc, ReportBlock}
use hermes_voip.Rtcp.Packets.{
  RtcpPacket, receiver_report, source_description, bye, parse_compound, build_compound,
}
use hermes_voip.Rtcp.Blocks
use hermes_voip.Rtcp.Items.{IsItem, length-replicate}
use hermes_voip.Rtcp.Compound.{parse_compound-build_compound}
use hermes_voip.Checks.Security.{shape}
use hermes_voip.Checks.Playout.{voice, voice-IsValid}

shape-IsSound : IsSound shape
shape-IsSound = record {
  stream_length = λ (key iv : List ℕ) (n : ℕ). length-replicate n 0;
  digest_length = λ (key message : List ℕ). refl;
}

-- `inline:` with 30 bytes 0: forty letters A.
abbrev key_params : Text
key_params = 105 ∷ 110 ∷ 108 ∷ 105 ∷ 110 ∷ 101 ∷ 58 ∷ replicate 40 65

abbrev weak : CryptoAttribute
weak = record { tag = 1; suite = suite_32; key_params = key_params }

abbrev strong : CryptoAttribute
strong = record { tag = 2; suite = suite_80; key_params = key_params }

voice_zero : IsValid (voice 7 0)
voice_zero = record {
  payload_type_le = omega arith;
  sequence_le = omega arith;
  timestamp_le = omega arith;
  ssrc_le = omega arith;
}

voice_one : IsValid (voice 7 1)
voice_one = record {
  payload_type_le = omega arith;
  sequence_le = omega arith;
  timestamp_le = omega arith;
  ssrc_le = omega arith;
}

sevens : (n : ℕ) → All IsByte (replicate n 7)
sevens zero = tt
sevens (suc n) = (omega arith, sevens n)

generate_answer_crypto-delivers_example :
    (answer heard : CryptoAttribute) × (s r : SrtpSession) × (generate_answer_crypto
        (replicate 30 7)
        strong
      ≡ ok answer)
    × (parse_crypto (render_crypto answer) ≡ ok heard)
    × (from_attribute shape answer none ≡ ok s)
    × (from_attribute shape heard (some 7) ≡ ok r)
    × (link shape s r ((voice 7 65535, true) ∷ (voice 7 0, false) ∷ (voice 7 1, true) ∷ [])
        ≡ ok (voice 7 65535) ∷ ok (voice 7 1) ∷ [])
unfolding validate_crypto hermes_voip.Sdp.Crypto.crypto_suite_strength b64decode
    hermes_voip.Base.Base64.a2b split hermes_voip.Base.Base64.from_digit
generate_answer_crypto-delivers_example =
    generate_answer_crypto-delivers shape (replicate 30 7) strong (voice 7 65535)
      ((voice 7 0, false) ∷ (voice 7 1, true) ∷ []) shape-IsSound refl (sevens 30) refl
      voice-IsValid
      (
        voice_zero,
        refl,
        refl,
        omega arith,
        omega arith,
        (voice_one, refl, refl, omega arith, omega arith, tt),
      )

negotiate_answer_crypto-NoneStronger_example :
    (best our_attr : CryptoAttribute) × Memᴰ best (weak ∷ strong ∷ [])
    × NoneStronger best (weak ∷ strong ∷ [])
    × (coerce_crypto (attribute weak) ≡ ok (some our_attr))
    × (strong ≡ record { tag = best.tag; suite = best.suite; key_params = our_attr.key_params })
    × (validate_crypto strong ≡ ok strong)
unfolding negotiate_answer_crypto validate_crypto coerce_crypto strongest
    hermes_voip.Sdp.Crypto.crypto_suite_strength b64decode hermes_voip.Base.Base64.a2b split
    hermes_voip.Base.Base64.from_digit
negotiate_answer_crypto-NoneStronger_example =
    negotiate_answer_crypto-NoneStronger (weak ∷ strong ∷ []) (attribute weak) strong refl

abbrev pcmu : Codec
pcmu = record { payload_type = 0; encoding = 80 ∷ []; clock_rate = 8000; channels = 1; fmtp = none }

abbrev opus : Codec
opus = record {
  payload_type = 96;
  encoding = 79 ∷ [];
  clock_rate = 48000;
  channels = 2;
  fmtp = none;
}

abbrev offer : AudioMedia
offer = record {
  protocol = plain_profile;
  codecs = pcmu ∷ opus ∷ [];
  direction = sendrecv;
  crypto_attrs = [];
  fingerprint = none;
  setup = none;
  rtcp_mux = false;
  ptime = some 30;
  maxptime = none;
}

negotiate_media_security-HasTier_example :
    (negotiate_media_security offer ≡ plain) ↔ HasTier offer plain
negotiate_media_security-HasTier_example = negotiate_media_security-HasTier offer plain

abbrev same : Text → Text
same text = text

abbrev preferred : List Text
preferred = (79 ∷ []) ∷ (80 ∷ []) ∷ []

abbrev ten : ℕ
ten = 10

abbrev thirty : Option ℕ
thirty = some 30

negotiate_ptime-fits_example :
    (has_ptime 10 (20 ∷ 10 ∷ []) ≡ true)
    × (is_usable thirty (some 15) (20 ∷ 10 ∷ []) ≡ true → thirty ≡ some 10)
    × ((within_cap (some 15) 10 ≡ true)
        ⊎ All (λ (q : ℕ). within_cap (some 15) q ≡ false) (20 ∷ 10 ∷ []))
    × (is_usable thirty (some 15) (20 ∷ 10 ∷ []) ≡ false
        → within_cap (some 15) 20 ≡ true
        → ten ≡ 20)
    × (is_usable thirty (some 15) (20 ∷ 10 ∷ []) ≡ false
        → within_cap (some 15) 20 ≡ false
        → within_cap (some 15) 10 ≡ true
        → NoneLarger (some 15) 10 (20 ∷ 10 ∷ []))
unfolding negotiate_ptime hermes_voip.Sdp.Audio.largest_fitting
negotiate_ptime-fits_example = negotiate_ptime-fits thirty (some 15) (20 ∷ 10 ∷ []) 20 10 refl

negotiate_audio-agreed_example :
    (found entries : List (ℕ × Codec)) × Selection same preferred offer.codecs found
    × Permᴰ entries found
    × (true ≡ true → IsSorted entries)
    × (true ≡ false → entries ≡ found)
    × ((opus ∷ pcmu ∷ []) ≡ codecs_of entries)
    × HasVoice same (opus ∷ pcmu ∷ []) (λ v. Unit {0})
    × EventFits same preferred same (opus ∷ pcmu ∷ [])
unfolding negotiate_audio voice_of hermes_voip.Sdp.Audio.sort_codecs common rank_of
    hermes_voip.Sdp.Audio.rank_from hermes_voip.Sdp.Audio.insert_codec event_of
negotiate_audio-agreed_example =
    negotiate_audio-agreed same preferred same offer true (opus ∷ pcmu ∷ []) refl

abbrev block : ReportBlock
block = record {
  ssrc = 7;
  fraction_lost = 3;
  cumulative_lost = negsuc 4;
  extended_highest_seq = 65540;
  jitter = 9;
  lsr = 0;
  dlsr = 0;
}

block-IsValid : Blocks.IsValid block
block-IsValid = record {
  ssrc_le = omega arith;
  fraction_le = omega arith;
  cumulative_range = omega arith;
  highest_le = omega arith;
  jitter_le = omega arith;
  lsr_le = omega arith;
  dlsr_le = omega arith;
}

-- A receiver report with a block, a name, and a goodbye with a reason.
abbrev report : RtcpPacket
report = receiver_report (record { ssrc = 8; report_blocks = block ∷ [] })

abbrev others : List RtcpPacket
others =
    source_description (record { ssrc = 8; cname = 97 ∷ 98 ∷ [] } ∷ [])
    ∷ bye (record { ssrcs = 8 ∷ []; reason = some (120 ∷ []) })
    ∷ []

cname_IsItem : IsItem (97 ∷ 98 ∷ [])
cname_IsItem = record { ascii = refl; short = omega arith }

reason_IsItem : IsItem (120 ∷ [])
reason_IsItem = record { ascii = refl; short = omega arith }

parse_compound-build_compound_example :
    parse_compound (build_compound (report ∷ others)) ≡ ok (report ∷ others)
parse_compound-build_compound_example = parse_compound-build_compound report others (
  (omega arith, (block-IsValid, tt), omega arith),
  (
    (((omega arith, cname_IsItem), tt), omega arith, omega arith),
    (((omega arith, tt), omega arith, omega arith, reason_IsItem), tt),
  ),
)
