-- ===== src/Sdp/Audio/Security.antt =====
-- src/hermes_voip/sdp.py: the tier of media security that an offer is answered with.
use hermes_voip.Base.{
  ℕ, ◌≡◌, ◌≢◌, refl, sym, ap, ◌∙◌, subst, Bool, true, false, not, ◌&&◌, ◌==◌, ==_iff, List, [], ◌∷◌,
  ◌++◌, Option, none, some, arith, Bool-cases, inl, inr, ◌↔◌,
}
use hermes_voip.Base.Text.{Text, same_text}
use hermes_voip.Base.Text.Laws.{same_text→≡, and_parts}
use hermes_voip.Message.Parse.{starts_with}
use hermes_voip.Sdp.{Fingerprint}
use hermes_voip.Sdp.Crypto.{CryptoAttribute}
use hermes_voip.Sdp.Audio.{
  AudioMedia, MediaSecurity, dtls, sdes, plain, unsupported, negotiate_media_security, is_srtp,
  is_sip_dtls, is_webrtc, has_crypto, has_savp, savp, sip_dtls_profile, webrtc_profile,
  has_fingerprint,
}

-- A profile that contains `SAVP`.
abbrev pub IsSecured : Text → Type 0
IsSecured protocol = (front back : Text) × (protocol ≡ front ++ (savp ++ back))

-- The SIP profile of DTLS, with the peer's fingerprint.
abbrev pub IsDtls : AudioMedia → Type 0
IsDtls offer =
    (f : Fingerprint) × (offer.protocol ≡ sip_dtls_profile) × (offer.fingerprint ≡ some f)

-- A secured profile other than that of WebRTC, with a usable crypto attribute.
abbrev pub IsSdes : AudioMedia → Type 0
IsSdes offer =
    (a : CryptoAttribute) × (others : List CryptoAttribute) × IsSecured offer.protocol
    × (offer.crypto_attrs ≡ a ∷ others)
    × (offer.protocol ≢ webrtc_profile)

-- What is in an offer of each tier.
abbrev pub HasTier : AudioMedia → MediaSecurity → Type 0
HasTier offer dtls = IsDtls offer
HasTier offer sdes = (¬ IsDtls offer) × IsSdes offer
HasTier offer plain = ¬ IsSecured offer.protocol
HasTier offer unsupported = IsSecured offer.protocol × (¬ IsDtls offer) × (¬ IsSdes offer)

starts_with-parts : (p s : Text) → starts_with p s ≡ true → (back : Text) × (s ≡ p ++ back)
starts_with-parts [] s h = (s, refl)
starts_with-parts (c ∷ p) [] h = cc
starts_with-parts (c ∷ p) (d ∷ s) h =
    let (here, rest) = and_parts (d == c) (starts_with p s) h in
    let (back, e) = starts_with-parts p s rest in
    (back, ap (λ (x : ℕ). x ∷ s) ((==_iff d c).0 here) ∙ ap (λ t. c ∷ t) e)

starts_with-joined : (p s : Text) → starts_with p (p ++ s) ≡ true
starts_with-joined [] s = refl
starts_with-joined (c ∷ p) s = ground (arith, starts_with-joined p s)

has_savp-IsSecured : (s : Text) → has_savp s ≡ true → IsSecured s
unfolding has_savp
has_savp-IsSecured [] h = cc
has_savp-IsSecured (c ∷ s) h = elim (Bool-cases (starts_with savp (c ∷ s))) [
  | inl here ↦ let (back, e) = starts_with-parts savp (c ∷ s) here in ([], back, e)
  | inr later ↦
      let (front, back, e) = has_savp-IsSecured s (ground (arith, later, h)) in
      (c ∷ front, back, ap (λ t. c ∷ t) e)
]

part-has_savp : (front back : Text) → has_savp (front ++ (savp ++ back)) ≡ true
unfolding has_savp
part-has_savp [] back = rw (has_savp, starts_with-joined savp back) refl
part-has_savp (c ∷ front) back = let rest = part-has_savp front back in ground (arith, rest)

IsSecured-has_savp : (s : Text) → IsSecured s → has_savp s ≡ true
IsSecured-has_savp s (front, back, e) = rw e (part-has_savp front back)

is_sip_dtls-IsDtls : (offer : AudioMedia) → is_sip_dtls offer ≡ true → IsDtls offer
is_sip_dtls-IsDtls offer h =
    let (profile, known) = and_parts (same_text offer.protocol sip_dtls_profile) _ h in
    let (f, e) = given offer.fingerprint known in
    (f, same_text→≡ offer.protocol sip_dtls_profile profile, e)
  where
    given : (o : Option Fingerprint) → has_fingerprint o ≡ true → (f : Fingerprint) × (o ≡ some f)
    given none k = cc
    given (some f) k = (f, refl)

IsDtls-is_sip_dtls : (offer : AudioMedia) → IsDtls offer → is_sip_dtls offer ≡ true
IsDtls-is_sip_dtls offer (f, profile, e) = rw (profile, e) refl

-- The test for SDES.
abbrev is_sdes : AudioMedia → Bool
is_sdes offer = is_srtp offer && (has_crypto offer.crypto_attrs && not (is_webrtc offer))

is_sdes-IsSdes : (offer : AudioMedia) → is_sdes offer ≡ true → IsSdes offer
is_sdes-IsSdes offer h =
    let (secured, rest) = and_parts (is_srtp offer) _ h in
    let (keyed, other) = and_parts (has_crypto offer.crypto_attrs) _ rest in
    let (a, others, e) = first offer.crypto_attrs keyed in
    (
      a,
      others,
      has_savp-IsSecured offer.protocol secured,
      e,
      (λ same.
          ground (
            arith,
            other,
            subst (λ (p : Text). same_text p webrtc_profile ≡ true) (sym same) refl,
          )),
    )
  where
    first :
        (as_offered : List CryptoAttribute)
        → has_crypto as_offered ≡ true
        → (a : CryptoAttribute) × (others : List CryptoAttribute) × (as_offered ≡ a ∷ others)
    first [] k = cc
    first (a ∷ others) k = (a, others, refl)

IsSdes-is_sdes : (offer : AudioMedia) → IsSdes offer → is_sdes offer ≡ true
IsSdes-is_sdes offer (a, others, secured, e, other) = elim (Bool-cases (is_webrtc offer)) [
  | inl same ↦ absurd (other (same_text→≡ offer.protocol webrtc_profile same))
  | inr differs ↦ rw (IsSecured-has_savp offer.protocol secured, e, differs) refl
]

IsDtls-IsSecured : (offer : AudioMedia) → IsDtls offer → IsSecured offer.protocol
IsDtls-IsSecured offer (f, profile, e) =
    has_savp-IsSecured offer.protocol (rw profile (unfold has_savp in refl))

-- The tier that is chosen is in the offer.
negotiated_HasTier : (offer : AudioMedia) → HasTier offer (negotiate_media_security offer)
unfolding negotiate_media_security
negotiated_HasTier offer = elim (Bool-cases (is_sip_dtls offer)) [
  | inl d ↦ rw (negotiate_media_security, d) (is_sip_dtls-IsDtls offer d)
  | inr d ↦
      let no_dtls : ¬ IsDtls offer = λ k. cc_false (IsDtls-is_sip_dtls offer k) d in
      elim (Bool-cases (is_sdes offer)) [
        | inl s ↦ rw (negotiate_media_security, d, s) (no_dtls, is_sdes-IsSdes offer s)
        | inr s ↦ elim (Bool-cases (is_srtp offer)) [
          | inl k ↦
              rw (negotiate_media_security, d, s, k)
                (
                  has_savp-IsSecured offer.protocol k,
                  no_dtls,
                  (λ m. cc_false (IsSdes-is_sdes offer m) s),
                )
          | inr k ↦
              rw (negotiate_media_security, d, s, k)
                (λ m. cc_false (IsSecured-has_savp offer.protocol m) k)
        ]
      ]
]
  where
    cc_false : {b : Bool} → b ≡ true → b ≡ false → ⊥
    cc_false h k = cc

-- An offer has one tier.
HasTier-unique :
    (offer : AudioMedia) (t u : MediaSecurity) → HasTier offer t → HasTier offer u → t ≡ u
HasTier-unique offer dtls dtls h k = refl
HasTier-unique offer dtls sdes h (no_dtls, k) = absurd (no_dtls h)
HasTier-unique offer dtls plain h k = absurd (k (IsDtls-IsSecured offer h))
HasTier-unique offer dtls unsupported h (secured, no_dtls, no_sdes) = absurd (no_dtls h)
HasTier-unique offer sdes dtls (no_dtls, h) k = absurd (no_dtls k)
HasTier-unique offer sdes sdes h k = refl
HasTier-unique offer sdes plain (no_dtls, (a, others, secured, e, o)) k = absurd (k secured)
HasTier-unique offer sdes unsupported (no_dtls, h) (secured, none_dtls, no_sdes) =
    absurd (no_sdes h)
HasTier-unique offer plain dtls h k = absurd (h (IsDtls-IsSecured offer k))
HasTier-unique offer plain sdes h (no_dtls, (a, others, secured, e, o)) = absurd (h secured)
HasTier-unique offer plain plain h k = refl
HasTier-unique offer plain unsupported h (secured, no_dtls, no_sdes) = absurd (h secured)
HasTier-unique offer unsupported dtls (secured, no_dtls, no_sdes) k = absurd (no_dtls k)
HasTier-unique offer unsupported sdes (secured, no_dtls, no_sdes) (none_dtls, k) =
    absurd (no_sdes k)
HasTier-unique offer unsupported plain (secured, no_dtls, no_sdes) k = absurd (k secured)
HasTier-unique offer unsupported unsupported h k = refl

-- The tier of an offer, exactly: DTLS for its SIP profile with a fingerprint, whatever else is offered;
-- else SDES for every secured profile but WebRTC's that has a usable crypto attribute, which
-- includes the DTLS profile without a fingerprint; plain for a profile that is not secured, and only
-- then; and unsupported for all other secured offers.
pub negotiate_media_security-HasTier :
    (offer : AudioMedia) (tier : MediaSecurity)
    → (negotiate_media_security offer ≡ tier) ↔ HasTier offer tier
negotiate_media_security-HasTier offer tier = (
  (λ e. subst (HasTier offer) e (negotiated_HasTier offer)),
  (λ h. HasTier-unique offer (negotiate_media_security offer) tier (negotiated_HasTier offer) h),
)
