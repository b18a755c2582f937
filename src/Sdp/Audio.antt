-- ===== src/Sdp/Audio.antt =====
-- src/hermes_voip/sdp.py: the audio description of an offer and what is negotiated from it: codecs,
-- direction, packet time, RTCP multiplexing and the tier of media security. The case mappings of
-- Python's `str` are parameters.
pub mod Ranks
pub mod Codecs
pub mod Limits
pub mod Security
use hermes_voip.Base.{
  ℕ, suc, Bool, true, false, not, ◌&&◌, ◌||◌, ◌==◌, ltb, leb, if◌then◌else◌, List, [], ◌∷◌, ◌++◌,
  length, Option, none, some, Result, ok, err, guard, or_fail, ◌>>=◌, ◌>>◌,
}
use hermes_voip.Base.Text.{Text, same_text, strip, is_empty, split, partition, lower}
use hermes_voip.Message.Parse.{starts_with}
use hermes_voip.Sdp.{Fingerprint, SetupRole}
use hermes_voip.Sdp.Crypto.{CryptoAttribute}

pub record Codec : Type 0 where
  pub payload_type : ℕ
  pub encoding : Text
  pub clock_rate : ℕ
  pub channels : ℕ
  pub fmtp : Option Text

-- The fields of `AudioMedia` that the negotiation reads.
pub record AudioMedia : Type 0 where
  pub protocol : Text
  pub codecs : List Codec
  pub direction : Text
  pub crypto_attrs : List CryptoAttribute
  pub fingerprint : Option Fingerprint
  pub setup : Option SetupRole
  pub rtcp_mux : Bool
  pub ptime : Option ℕ
  pub maxptime : Option ℕ

pub data NegotiationError : Type 0 where
  no_common_codec rate_mismatch bad_direction : NegotiationError
  no_ptimes zero_ptime bad_default : NegotiationError

abbrev pub telephone_event : Text
telephone_event =
    116 ∷ 101 ∷ 108 ∷ 101 ∷ 112 ∷ 104 ∷ 111 ∷ 110 ∷ 101 ∷ 45 ∷ 101 ∷ 118 ∷ 101 ∷ 110 ∷ 116 ∷ []

-- `rank`: a name that is listed twice has the last index.
unfoldable pub rank_from : (Text → Text) → ℕ → List Text → Text → Option ℕ
rank_from upper i [] name = none
rank_from upper i (s ∷ supported) name = elim (rank_from upper (suc i) supported name) [
  | some later ↦ some later
  | none ↦ if same_text (upper s) name then some i else none
]

unfoldable pub rank_of : (Text → Text) → List Text → Codec → Option ℕ
rank_of upper supported c = rank_from upper 0 supported (upper c.encoding)

-- The codecs of the offer that are supported, each with its rank.
unfoldable pub common : (Text → Text) → List Text → List Codec → List (ℕ × Codec)
common upper supported [] = []
common upper supported (c ∷ codecs) =
    let rest = common upper supported codecs in
    elim (rank_of upper supported c) [ none ↦ rest | some r ↦ (r, c) ∷ rest ]

-- `sorted`, which keeps the order of equals.
unfoldable pub insert_codec : ℕ × Codec → List (ℕ × Codec) → List (ℕ × Codec)
insert_codec entry [] = entry ∷ []
insert_codec entry (e ∷ entries) =
    let rest = insert_codec entry entries in
    if leb entry.0 e.0 then entry ∷ e ∷ entries else e ∷ rest

unfoldable pub sort_codecs : List (ℕ × Codec) → List (ℕ × Codec)
sort_codecs [] = []
sort_codecs (e ∷ entries) = insert_codec e (sort_codecs entries)

abbrev pub codecs_of : List (ℕ × Codec) → List Codec
codecs_of [] = []
codecs_of ((r, c) ∷ entries) = c ∷ codecs_of entries

module _ (to_lower : Text → Text) where
  abbrev pub is_event : Codec → Bool
  is_event c = same_text (to_lower c.encoding) telephone_event

  unfoldable pub voice_of : List Codec → List Codec
  voice_of [] = []
  voice_of (c ∷ codecs) = if is_event c then voice_of codecs else c ∷ voice_of codecs

  unfoldable pub event_of : List Codec → Option Codec
  event_of [] = none
  event_of (c ∷ codecs) = if is_event c then some c else event_of codecs

abbrev pub has_rate : ℕ → List Codec → Bool
has_rate r [] = false
has_rate r (c ∷ codecs) = c.clock_rate == r || has_rate r codecs

abbrev pub rate_fits : Option Codec → List Codec → Bool
rate_fits none voice = true
rate_fits (some event) voice = has_rate event.clock_rate voice

abbrev pub has_voice : List Codec → Bool
has_voice [] = false
has_voice (c ∷ codecs) = true

-- `negotiate_audio`.
unfoldable pub negotiate_audio :
    (Text → Text)
    → (Text → Text)
    → AudioMedia
    → List Text
    → Bool
    → Result NegotiationError (List Codec)
negotiate_audio upper to_lower offer supported prefer_local = do
  let found = common upper supported offer.codecs
  let chosen = codecs_of (if prefer_local then sort_codecs found else found)
  let voice = voice_of to_lower chosen
  guard (has_voice voice) no_common_codec
  guard (rate_fits (event_of to_lower chosen) voice) rate_mismatch
  ok chosen

abbrev pub sendrecv : Text
sendrecv = 115 ∷ 101 ∷ 110 ∷ 100 ∷ 114 ∷ 101 ∷ 99 ∷ 118 ∷ []

abbrev pub sendonly : Text
sendonly = 115 ∷ 101 ∷ 110 ∷ 100 ∷ 111 ∷ 110 ∷ 108 ∷ 121 ∷ []

abbrev pub recvonly : Text
recvonly = 114 ∷ 101 ∷ 99 ∷ 118 ∷ 111 ∷ 110 ∷ 108 ∷ 121 ∷ []

abbrev pub inactive : Text
inactive = 105 ∷ 110 ∷ 97 ∷ 99 ∷ 116 ∷ 105 ∷ 118 ∷ 101 ∷ []

-- `_mirror_direction`.
unfoldable pub mirror_direction : Text → Result NegotiationError Text
mirror_direction direction =
    if same_text direction sendrecv
    then ok sendrecv
    else if same_text direction sendonly
    then ok recvonly
    else if same_text direction recvonly
    then ok sendonly
    else if same_text direction inactive
    then ok inactive
    else err bad_direction

abbrev pub has_ptime : ℕ → List ℕ → Bool
has_ptime p [] = false
has_ptime p (q ∷ qs) = q == p || has_ptime p qs

abbrev pub all_positive : List ℕ → Bool
all_positive [] = true
all_positive (q ∷ qs) = ltb 0 q && all_positive qs

abbrev pub is_given : List ℕ → Bool
is_given [] = false
is_given (q ∷ qs) = true

-- `_within_cap`.
abbrev pub within_cap : Option ℕ → ℕ → Bool
within_cap none value = true
within_cap (some cap_ms) value = leb value cap_ms

abbrev pub larger : ℕ → Option ℕ → ℕ
larger q none = q
larger q (some m) = if ltb q m then m else q

-- `max` of the values that fit, if any fits.
unfoldable pub largest_fitting : Option ℕ → List ℕ → Option ℕ
largest_fitting cap_ms [] = none
largest_fitting cap_ms (q ∷ qs) =
    let rest = largest_fitting cap_ms qs in
    if within_cap cap_ms q then some (larger q rest) else rest

abbrev pub or_default : Option ℕ → ℕ → ℕ
or_default none d = d
or_default (some v) d = v

abbrev pub is_usable : Option ℕ → Option ℕ → List ℕ → Bool
is_usable none cap_ms supported = false
is_usable (some p) cap_ms supported = has_ptime p supported && within_cap cap_ms p

-- `negotiate_ptime`, on numbers that are not negative.
unfoldable pub negotiate_ptime : Option ℕ → Option ℕ → List ℕ → ℕ → Result NegotiationError ℕ
negotiate_ptime offer_ptime offer_maxptime supported default = do
  guard (is_given supported) no_ptimes
  guard (all_positive supported) zero_ptime
  guard (ltb 0 default) bad_default
  guard (has_ptime default supported) bad_default
  if is_usable offer_ptime offer_maxptime supported
      then ok (or_default offer_ptime default)
      else if within_cap offer_maxptime default
      then ok default
      else ok (or_default (largest_fitting offer_maxptime supported) default)

unfoldable pub negotiate_rtcp_mux : AudioMedia → Bool
negotiate_rtcp_mux offer = offer.rtcp_mux

abbrev pub savp : Text
savp = 83 ∷ 65 ∷ 86 ∷ 80 ∷ []

-- `savp in protocol`.
unfoldable pub has_savp : Text → Bool
has_savp [] = false
has_savp (c ∷ cs) = starts_with savp (c ∷ cs) || has_savp cs

abbrev pub is_srtp : AudioMedia → Bool
is_srtp offer = has_savp offer.protocol

abbrev pub webrtc_profile : Text
webrtc_profile =
    85 ∷ 68 ∷ 80 ∷ 47 ∷ 84 ∷ 76 ∷ 83 ∷ 47 ∷ 82 ∷ 84 ∷ 80 ∷ 47 ∷ 83 ∷ 65 ∷ 86 ∷ 80 ∷ 70 ∷ []

abbrev pub sip_dtls_profile : Text
sip_dtls_profile =
    85 ∷ 68 ∷ 80 ∷ 47 ∷ 84 ∷ 76 ∷ 83 ∷ 47 ∷ 82 ∷ 84 ∷ 80 ∷ 47 ∷ 83 ∷ 65 ∷ 86 ∷ 80 ∷ []

abbrev pub plain_profile : Text
plain_profile = 82 ∷ 84 ∷ 80 ∷ 47 ∷ 65 ∷ 86 ∷ 80 ∷ []

abbrev pub is_webrtc : AudioMedia → Bool
is_webrtc offer = same_text offer.protocol webrtc_profile

abbrev pub has_fingerprint : Option Fingerprint → Bool
has_fingerprint none = false
has_fingerprint (some f) = true

abbrev pub is_sip_dtls : AudioMedia → Bool
is_sip_dtls offer = same_text offer.protocol sip_dtls_profile && has_fingerprint offer.fingerprint

abbrev pub has_crypto : List CryptoAttribute → Bool
has_crypto [] = false
has_crypto (a ∷ offered) = true

pub data MediaSecurity : Type 0 where
  dtls sdes plain unsupported : MediaSecurity

-- `negotiate_media_security`.
unfoldable pub negotiate_media_security : AudioMedia → MediaSecurity
negotiate_media_security offer =
    if is_sip_dtls offer
    then dtls
    else if is_srtp offer && (has_crypto offer.crypto_attrs && not (is_webrtc offer))
    then sdes
    else if is_srtp offer
    then unsupported
    else plain

-- `_fmtp_param` of the entries; the key is in lower case.
unfoldable pub fmtp_from : (Text → Text) → List Text → Text → Option Text
fmtp_from to_lower [] key = none
fmtp_from to_lower (entry ∷ entries) key =
    let rest = fmtp_from to_lower entries key in
    elim (partition 61 (strip entry)) [
      | none ↦ rest
      | some (name, value) ↦
          if same_text (to_lower (strip name)) key then some (strip value) else rest
    ]

unfoldable pub fmtp_param : (Text → Text) → Text → Text → Option Text
fmtp_param to_lower fmtp key =
    let entries = split 59 fmtp in fmtp_from to_lower (entries.0 ∷ entries.1) key
