-- ===== src/Sdp.antt =====
-- src/hermes_voip/sdp.py: the attributes of a session description that stand for themselves, and the
-- splitting of their text. The errors of the module are one constructor for each message.
pub mod Crypto
pub mod Audio
use hermes_voip.Base.{
  ℕ, Bool, true, false, not, ◌&&◌, ◌||◌, ◌==◌, ltb, leb, if◌then◌else◌, List, [], ◌∷◌, ◌++◌, Option,
  none, some, Result, ok, err, guard, or_fail, ◌>>=◌, ◌>>◌,
}
use hermes_voip.Base.Text.{Text, is_space, skip_spaces, strip, lower, same_text, is_empty}

pub data SdpError : Type 0 where
  malformed_crypto tag_not_decimal leading_zero tag_out_of_range unsupported_suite : SdpError
  not_inline bad_base64 wrong_key_length no_our_crypto no_offered_crypto : SdpError
  malformed_fingerprint unknown_role : SdpError

abbrev pub push_word : Text → List Text → List Text
push_word w ws = if is_empty w then ws else w ∷ ws

-- The word that begins the text, and the words behind it.
unfoldable pub words : Text → Text × List Text
words [] = ([], [])
words (c ∷ cs) =
    let rest = words cs in
    if is_space c then ([], push_word rest.0 rest.1) else (c ∷ rest.0, rest.1)

-- `body.split()`.
unfoldable pub split_words : Text → List Text
split_words s = let parts = words s in push_word parts.0 parts.1

-- A word, and what is behind it.
unfoldable pub first_of : Text → Text × Text
first_of [] = ([], [])
first_of (c ∷ cs) =
    let rest = first_of cs in if is_space c then ([], c ∷ cs) else (c ∷ rest.0, rest.1)

pub record Fingerprint : Type 0 where
  pub algorithm : Text
  pub value : Text

-- `Fingerprint.parse`: `body.split(maxsplit=1)`; the rest keeps the white space at its end until it
-- is stripped.
unfoldable pub parse_fingerprint : (Text → Text) → Text → Result SdpError Fingerprint
parse_fingerprint to_lower body = do
  let (algorithm, rest) = first_of (skip_spaces body)
  guard (not (is_empty algorithm) && not (is_empty (strip rest))) malformed_fingerprint
  ok (record { algorithm = to_lower algorithm; value = strip rest })

unfoldable pub render_fingerprint : Fingerprint → Text
render_fingerprint f = f.algorithm ++ (32 ∷ f.value)

pub data SetupRole : Type 0 where
  actpass active passive : SetupRole

unfoldable pub render_setup : SetupRole → Text
render_setup actpass = 97 ∷ 99 ∷ 116 ∷ 112 ∷ 97 ∷ 115 ∷ 115 ∷ []
render_setup active = 97 ∷ 99 ∷ 116 ∷ 105 ∷ 118 ∷ 101 ∷ []
render_setup passive = 112 ∷ 97 ∷ 115 ∷ 115 ∷ 105 ∷ 118 ∷ 101 ∷ []

unfoldable pub parse_setup : Text → Result SdpError SetupRole
parse_setup body =
    let role = strip body in
    if same_text role (97 ∷ 99 ∷ 116 ∷ 112 ∷ 97 ∷ 115 ∷ 115 ∷ [])
    then ok actpass
    else if same_text role (97 ∷ 99 ∷ 116 ∷ 105 ∷ 118 ∷ 101 ∷ [])
    then ok active
    else if same_text role (112 ∷ 97 ∷ 115 ∷ 115 ∷ 105 ∷ 118 ∷ 101 ∷ [])
    then ok passive
    else err unknown_role
