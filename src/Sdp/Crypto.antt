-- ===== src/Sdp/Crypto.antt =====
-- src/hermes_voip/sdp.py: the SDES attribute `a=crypto` (RFC 4568), its validation, its text, and the
-- choice of the answer's attribute; `crypto_suite_strength` of src/hermes_voip/media/srtp.py.
pub mod RoundTrip
pub mod Choice
use hermes_voip.Base.{
  ℕ, ◌^◌, Bool, true, false, not, ◌&&◌, ◌||◌, ◌==◌, ltb, leb, if◌then◌else◌, List, [], ◌∷◌, ◌++◌,
  length, drop, Option, none, some, Result, ok, err, guard, or_fail, ◌>>=◌, ◌>>◌,
}
use hermes_voip.Base.Text.{Text, same_text, is_empty, is_digit, all, split, decimal, skip_spaces}
use hermes_voip.Base.Base64.{b64encode, b64decode}
use hermes_voip.Message.{parse_decimal}
use hermes_voip.Message.Parse.{starts_with}
use hermes_voip.Sdp.{
  SdpError, malformed_crypto, tag_not_decimal, leading_zero, tag_out_of_range, unsupported_suite,
  not_inline, bad_base64, wrong_key_length, no_our_crypto, no_offered_crypto, split_words, first_of,
}

-- `_AES_CM_128_HMAC_SHA1_80` and `_AES_CM_128_HMAC_SHA1_32`.
abbrev pub suite_80 : Text
suite_80 =
    65 ∷ 69 ∷ 83 ∷ 95 ∷ 67 ∷ 77 ∷ 95 ∷ 49 ∷ 50 ∷ 56 ∷ 95 ∷ 72 ∷ 77 ∷ 65 ∷ 67 ∷ 95 ∷ 83 ∷ 72 ∷ 65
    ∷ 49 ∷ 95 ∷ 56 ∷ 48 ∷ []

abbrev pub suite_32 : Text
suite_32 =
    65 ∷ 69 ∷ 83 ∷ 95 ∷ 67 ∷ 77 ∷ 95 ∷ 49 ∷ 50 ∷ 56 ∷ 95 ∷ 72 ∷ 77 ∷ 65 ∷ 67 ∷ 95 ∷ 83 ∷ 72 ∷ 65
    ∷ 49 ∷ 95 ∷ 51 ∷ 50 ∷ []

-- `_SUPPORTED_CRYPTO_SUITES`.
abbrev pub is_supported : Text → Bool
is_supported suite = same_text suite suite_80 || same_text suite suite_32

abbrev pub inline_prefix : Text
inline_prefix = 105 ∷ 110 ∷ 108 ∷ 105 ∷ 110 ∷ 101 ∷ 58 ∷ []

-- `_SRTP_KEY_SALT_OCTETS` of a supported suite.
abbrev pub key_salt_octets : ℕ
key_salt_octets = 30

unfoldable pub crypto_suite_strength : Text → ℕ
crypto_suite_strength suite =
    if same_text suite suite_80 then 10 else if same_text suite suite_32 then 4 else 0

pub record CryptoAttribute : Type 0 where
  pub tag : ℕ
  pub suite : Text
  pub key_params : Text

-- The base64 text of the key: in front of the first `|`.
abbrev pub key_text : Text → Text
key_text key_params = (split 124 (drop 7 key_params)).0

-- `_validate_crypto`.
unfoldable pub validate_crypto : CryptoAttribute → Result SdpError CryptoAttribute
validate_crypto a = do
  guard (leb 1 a.tag && leb a.tag 999999999) tag_out_of_range
  guard (is_supported a.suite) unsupported_suite
  guard (starts_with inline_prefix a.key_params) not_inline
  decoded ← or_fail (b64decode true (key_text a.key_params)) bad_base64
  guard (length decoded == key_salt_octets) wrong_key_length
  ok a

abbrev pub has_leading_zero : Text → Bool
has_leading_zero [] = false
has_leading_zero (c ∷ []) = false
has_leading_zero (c ∷ d ∷ cs) = c == 48

-- `CryptoAttribute.parse` of the fields.
unfoldable pub parse_fields : List Text → Result SdpError CryptoAttribute
parse_fields (tag_text ∷ suite ∷ key_params ∷ session_params) = do
  tag ← or_fail (parse_decimal tag_text) tag_not_decimal
  guard (not (has_leading_zero tag_text)) leading_zero
  validate_crypto (record { tag = tag; suite = suite; key_params = key_params })
parse_fields _ = err malformed_crypto

unfoldable pub parse_crypto : Text → Result SdpError CryptoAttribute
parse_crypto body = parse_fields (split_words body)

unfoldable pub render_crypto : CryptoAttribute → Text
render_crypto a = decimal a.tag ++ (32 ∷ (a.suite ++ (32 ∷ a.key_params)))

-- `generate_answer_crypto`; the bytes of `secrets.token_bytes` are passed.
unfoldable pub generate_answer_crypto : List ℕ → CryptoAttribute → Result SdpError CryptoAttribute
generate_answer_crypto token accepted = validate_crypto (record {
  tag = accepted.tag;
  suite = accepted.suite;
  key_params = inline_prefix ++ b64encode token;
})

-- The key of the builder: an attribute, or its text with or without a tag.
pub data OurCrypto : Type 0 where
  no_crypto : OurCrypto
  attribute : CryptoAttribute → OurCrypto
  written : Text → OurCrypto

-- The first token is a run of ASCII decimals.
abbrev pub is_tagged : Text → Bool
is_tagged text =
    let token = (first_of (skip_spaces text)).0 in not (is_empty token) && all is_digit token

-- `_coerce_crypto`.
unfoldable pub coerce_crypto : OurCrypto → Result SdpError (Option CryptoAttribute)
coerce_crypto no_crypto = ok none
coerce_crypto (attribute a) = ok (some a)
coerce_crypto (written text) = do
  a ← parse_crypto (if is_tagged text then text else 49 ∷ 32 ∷ text)
  ok (some a)

-- `max(…, key=…)`: the first of the strongest.
unfoldable pub strongest : CryptoAttribute → List CryptoAttribute → CryptoAttribute
strongest best [] = best
strongest best (a ∷ as_offered) =
    strongest
      (if ltb (crypto_suite_strength best.suite) (crypto_suite_strength a.suite) then a else best)
      as_offered

abbrev pub offered_best : List CryptoAttribute → Result SdpError CryptoAttribute
offered_best [] = err no_offered_crypto
offered_best (a ∷ as_offered) = ok (strongest a as_offered)

abbrev pub given : Option CryptoAttribute → Result SdpError CryptoAttribute
given none = err no_our_crypto
given (some a) = ok a

abbrev pub is_given : OurCrypto → Bool
is_given no_crypto = false
is_given (attribute a) = true
is_given (written text) = true

-- `_negotiate_answer_crypto`.
unfoldable pub negotiate_answer_crypto :
    List CryptoAttribute → OurCrypto → Result SdpError CryptoAttribute
negotiate_answer_crypto crypto_attrs our_crypto = do
  guard (is_given our_crypto) no_our_crypto
  accepted ← offered_best crypto_attrs
  coerced ← coerce_crypto our_crypto
  our_attr ← given coerced
  validate_crypto
      (record { tag = accepted.tag; suite = accepted.suite; key_params = our_attr.key_params })
