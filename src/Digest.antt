-- ===== src/Digest.antt =====
-- src/hermes_voip/digest.py: the challenge, the choice among several, and the answer. The hashes of
-- the standard library and the word characters of `re` are parameters; the client nonce is passed.
pub mod Choice
pub mod Answer
pub mod Rendered
pub mod Plain
pub mod RoundTrip
use hermes_voip.Base.{
  ℕ, zero, suc, ◌+◌, ◌-◌, ◌^◌, ◌/◌, ◌%◌, Bool, true, false, not, ◌&&◌, ◌||◌, ◌==◌, ltb, leb,
  if◌then◌else◌, List, [], ◌∷◌, ◌++◌, length, drop, take, Option, none, some, Result, ok, err,
  guard, or_fail, ◌>>=◌, ◌>>◌,
}
use hermes_voip.Base.Text.{Text, is_space, strip, lower, same_text, is_empty, split, any}
use hermes_voip.Message.{is_control}

pub data DigestError : Type 0 where
  control_character missing_nonce missing_realm no_challenge unsupported_algorithm : DigestError
  no_auth bad_nonce_count needs_auth : DigestError

-- `value.replace(c, with)`.
unfoldable pub replace : ℕ → Text → Text → Text
replace c with_text [] = []
replace c with_text (d ∷ ds) =
    let rest = replace c with_text ds in if d == c then with_text ++ rest else d ∷ rest

-- The escaping of `_quoted`.
unfoldable pub escape : Text → Text
escape value = replace 34 (92 ∷ 34 ∷ []) (replace 92 (92 ∷ 92 ∷ []) value)

unfoldable pub quoted : Text → Result DigestError Text
quoted value = do guard (not (any is_control value)) control_character; ok (escape value)

unfoldable pub unescape : Text → Text
unescape [] = []
unescape (c ∷ []) = c ∷ []
unescape (c ∷ d ∷ ds) =
    let behind = unescape ds in
    let next = unescape (d ∷ ds) in if c == 92 && not (d == 10) then d ∷ behind else c ∷ next

pub record DigestChallenge : Type 0 where
  pub realm : Text
  pub nonce : Text
  pub algorithm : Text
  pub qop : List Text
  pub opaque : Option Text

pub record DigestCredentials : Type 0 where
  pub username : Text
  pub password : Text

abbrev pub md5 : Text
md5 = 109 ∷ 100 ∷ 53 ∷ []

abbrev pub md5_sess : Text
md5_sess = 109 ∷ 100 ∷ 53 ∷ 45 ∷ 115 ∷ 101 ∷ 115 ∷ 115 ∷ []

abbrev pub sha_256 : Text
sha_256 = 115 ∷ 104 ∷ 97 ∷ 45 ∷ 50 ∷ 53 ∷ 54 ∷ []

abbrev pub sha_256_sess : Text
sha_256_sess = 115 ∷ 104 ∷ 97 ∷ 45 ∷ 50 ∷ 53 ∷ 54 ∷ 45 ∷ 115 ∷ 101 ∷ 115 ∷ 115 ∷ []

-- `_ALGORITHM_PREFERENCE.index`; these are also the members of `_SUPPORTED_ALGORITHMS`.
unfoldable pub rank : Text → Option ℕ
rank algorithm =
    if same_text sha_256_sess algorithm
    then some 0
    else if same_text sha_256 algorithm
    then some 1
    else if same_text md5_sess algorithm
    then some 2
    else if same_text md5 algorithm
    then some 3
    else none

-- The rank of a challenge.
abbrev pub rank_of : DigestChallenge → Option ℕ
rank_of ch = rank (lower ch.algorithm)

-- The loop of `pick_best_challenge`.
unfoldable pub pick_from :
    Option DigestChallenge → ℕ → List DigestChallenge → Option DigestChallenge
pick_from best best_rank [] = best
pick_from best best_rank (ch ∷ chs) = elim (rank_of ch) [
  | none ↦ pick_from best best_rank chs
  | some r ↦ elim (ltb r best_rank) [
    | true ↦ pick_from (some ch) r chs
    | false ↦ pick_from best best_rank chs
  ]
]

unfoldable pub pick_best_challenge : List DigestChallenge → Result DigestError DigestChallenge
pick_best_challenge [] = err no_challenge
pick_best_challenge (ch ∷ chs) = or_fail (pick_from none 4 (ch ∷ chs)) unsupported_algorithm

-- The body of a quoted string, up to its closing quote, and what is behind.
unfoldable pub quoted_body : Text → Option (Text × Text)
quoted_body [] = none
quoted_body (c ∷ []) = if c == 34 then some ([], []) else none
quoted_body (c ∷ d ∷ ds) =
    let behind = quoted_body ds in
    let next = quoted_body (d ∷ ds) in
    if c == 34
    then some ([], d ∷ ds)
    else if c == 92
    then if d == 10
      then none
      else elim behind [ none ↦ none | some (body, rest) ↦ some (c ∷ d ∷ body, rest) ]
    else elim next [ none ↦ none | some (body, rest) ↦ some (c ∷ body, rest) ]

-- The characters at the front that pass a test, and the rest.
unfoldable pub span : (ℕ → Bool) → Text → Text × Text
span p [] = ([], [])
span p (c ∷ cs) = let rest = span p cs in if p c then (c ∷ rest.0, rest.1) else ([], c ∷ cs)

abbrev pub is_bare : ℕ → Bool
is_bare c = not (c == 44 || (c == 59 || is_space c))

-- A value of `_PARAM`, unescaped if it is quoted.
unfoldable pub bare_value : Text → Option (Text × Text)
bare_value s = let value = span is_bare s in if is_empty value.0 then none else some value

unfoldable pub param_value : Text → Option (Text × Text)
param_value [] = none
param_value (c ∷ cs) =
    if c == 34
    then elim (quoted_body cs) [
      | some (body, rest) ↦ some (unescape body, rest)
      | none ↦ bare_value (c ∷ cs)
    ]
    else bare_value (c ∷ cs)

-- The last of the parameters with a name.
unfoldable pub param : Text → List (Text × Text) → Option Text
param name [] = none
param name ((n, v) ∷ ps) = elim (param name ps) [
  | some w ↦ some w
  | none ↦ if same_text name n then some v else none
]

abbrev pub keep_tokens : List Text → List Text
keep_tokens [] = []
keep_tokens (t ∷ ts) = if is_empty (strip t) then keep_tokens ts else strip t ∷ keep_tokens ts

abbrev pub or_else : Option Text → Text → Text
or_else none t = t
or_else (some s) t = s

-- `if not value: raise`.
abbrev pub filled : Option Text → DigestError → Result DigestError Text
filled none e = err e
filled (some []) e = err e
filled (some (c ∷ cs)) e = ok (c ∷ cs)

-- What `parse` makes of the parameters.
unfoldable pub challenge_of : List (Text × Text) → Result DigestError DigestChallenge
challenge_of ps = do
  nonce ← filled (param (110 ∷ 111 ∷ 110 ∷ 99 ∷ 101 ∷ []) ps) missing_nonce
  realm ← filled (param (114 ∷ 101 ∷ 97 ∷ 108 ∷ 109 ∷ []) ps) missing_realm
  let tokens = split 44 (or_else (param (113 ∷ 111 ∷ 112 ∷ []) ps) [])
  ok (record {
    realm = realm;
    nonce = nonce;
    algorithm =
        or_else (param (97 ∷ 108 ∷ 103 ∷ 111 ∷ 114 ∷ 105 ∷ 116 ∷ 104 ∷ 109 ∷ []) ps)
          (77 ∷ 68 ∷ 53 ∷ []);
    qop = keep_tokens (tokens.0 ∷ tokens.1);
    opaque = param (111 ∷ 112 ∷ 97 ∷ 113 ∷ 117 ∷ 101 ∷ []) ps;
  })

-- A match of `_PARAM` behind its name.
unfoldable pub param_behind : Text → Text → Option ((Text × Text) × Text)
param_behind name [] = none
param_behind name (c ∷ cs) =
    if c == 61
    then elim (param_value cs) [
      | none ↦ none
      | some (value, rest) ↦ some ((lower name, value), rest)
    ]
    else none

module _ (is_word : ℕ → Bool) where
  -- A match of `_PARAM` at the front: the name in lower case, the value, and what is behind.
  unfoldable pub param_here : Text → Option ((Text × Text) × Text)
  param_here [] = none
  param_here (c ∷ cs) =
      let name = span (λ (d : ℕ). is_word d || d == 45) (c ∷ cs) in
      if is_word c then param_behind name.0 name.1 else none

  -- `_PARAM.finditer`.
  unfoldable pub find_params : ℕ → Text → List (Text × Text)
  find_params zero s = []
  find_params (suc fuel) [] = []
  find_params (suc fuel) (c ∷ cs) = elim (param_here (c ∷ cs)) [
    | none ↦ find_params fuel cs
    | some (p, rest) ↦ p ∷ find_params fuel rest
  ]

  -- `DigestChallenge.parse`; a match is at least three characters long, so the fuel is enough.
  unfoldable pub parse_challenge : Text → Result DigestError DigestChallenge
  parse_challenge value = challenge_of (find_params (length value) value)

abbrev pub hex_digit : ℕ → ℕ
hex_digit d = if ltb d 10 then 48 + d else 87 + d

-- `f"{nc:08x}"`, for a count of at most eight digits.
unfoldable pub hex : ℕ → ℕ → Text
hex zero n = []
hex (suc places) n = hex places (n / 16) ++ hex_digit (n % 16) ∷ []

-- `_quoted` or as it is, by the flag.
unfoldable pub render_one : Text → Text → Bool → Result DigestError Text
render_one name value true = do v ← quoted value; ok (name ++ (61 ∷ 34 ∷ (v ++ 34 ∷ [])))
render_one name value false = ok (name ++ (61 ∷ value))

-- `", ".join` of the parameters.
unfoldable pub render : List (Text × Text × Bool) → Result DigestError Text
render [] = ok []
render ((name, value, flag) ∷ []) = render_one name value flag
render ((name, value, flag) ∷ p ∷ ps) = do
  first ← render_one name value flag
  rest ← render (p ∷ ps)
  ok (first ++ (44 ∷ 32 ∷ rest))

abbrev pub is_sess : Text → Bool
is_sess algorithm = same_text md5_sess algorithm || same_text sha_256_sess algorithm

abbrev pub auth : Text
auth = 97 ∷ 117 ∷ 116 ∷ 104 ∷ []

abbrev pub has_token : Text → List Text → Bool
has_token t [] = false
has_token t (s ∷ ss) = same_text t s || has_token t ss

abbrev pub no_tokens : List Text → Bool
no_tokens [] = true
no_tokens (t ∷ ts) = false

abbrev pub colon : Text → Text → Text
colon a b = a ++ (58 ∷ b)

abbrev pub opaque_param : Option Text → List (Text × Text × Bool)
opaque_param none = []
opaque_param (some text) = (111 ∷ 112 ∷ 97 ∷ 113 ∷ 117 ∷ 101 ∷ [], text, true) ∷ []

module _ (md5_hex sha256_hex : Text → Text) where
  -- `_hash_hex`, on the four supported algorithms.
  abbrev pub hash_hex : Text → Text → Text
  hash_hex algorithm value =
      if same_text sha_256 algorithm || same_text sha_256_sess algorithm
      then sha256_hex value
      else md5_hex value

  unfoldable pub compute_ha1 : Text → Text → Text → Text → Text → Text → Text
  compute_ha1 algorithm username realm password nonce cnonce =
      let base = hash_hex algorithm (colon username (colon realm password)) in
      if is_sess algorithm then hash_hex algorithm (colon base (colon nonce cnonce)) else base

  -- The parameters behind the algorithm.
  unfoldable pub response_params :
      DigestChallenge → DigestCredentials → Text → Text → Text → ℕ → List (Text × Text × Bool)
  response_params ch credentials method uri cnonce nc =
      let algorithm = lower ch.algorithm in
      let use_auth = has_token auth ch.qop in
      let client_nonce = if use_auth then cnonce else [] in
      let ha1 =
        compute_ha1 algorithm credentials.username ch.realm credentials.password ch.nonce
          client_nonce in
      let ha2 = hash_hex algorithm (colon method uri) in
      let count = hex 8 nc in
      if use_auth
      then (113 ∷ 111 ∷ 112 ∷ [], auth, false)
        ∷ (110 ∷ 99 ∷ [], count, false)
        ∷ (99 ∷ 110 ∷ 111 ∷ 110 ∷ 99 ∷ 101 ∷ [], client_nonce, true)
        ∷ (
          114 ∷ 101 ∷ 115 ∷ 112 ∷ 111 ∷ 110 ∷ 115 ∷ 101 ∷ [],
          hash_hex algorithm
              (colon ha1 (colon ch.nonce (colon count (colon client_nonce (colon auth ha2))))),
          true,
        )
        ∷ []
      else (
        114 ∷ 101 ∷ 115 ∷ 112 ∷ 111 ∷ 110 ∷ 115 ∷ 101 ∷ [],
        hash_hex algorithm (colon ha1 (colon ch.nonce ha2)),
        true,
      )
        ∷ []

  unfoldable pub answer_params :
      DigestChallenge → DigestCredentials → Text → Text → Text → ℕ → List (Text × Text × Bool)
  answer_params ch credentials method uri cnonce nc =
      (117 ∷ 115 ∷ 101 ∷ 114 ∷ 110 ∷ 97 ∷ 109 ∷ 101 ∷ [], credentials.username, true)
      ∷ (114 ∷ 101 ∷ 97 ∷ 108 ∷ 109 ∷ [], ch.realm, true)
      ∷ (110 ∷ 111 ∷ 110 ∷ 99 ∷ 101 ∷ [], ch.nonce, true)
      ∷ (117 ∷ 114 ∷ 105 ∷ [], uri, true)
      ∷ (97 ∷ 108 ∷ 103 ∷ 111 ∷ 114 ∷ 105 ∷ 116 ∷ 104 ∷ 109 ∷ [], ch.algorithm, false)
      ∷ (response_params ch credentials method uri cnonce nc ++ opaque_param ch.opaque)

  -- `build_authorization`; `cnonce` is the one that is passed or drawn.
  unfoldable pub build_authorization :
      DigestChallenge → DigestCredentials → Text → Text → Text → ℕ → Result DigestError Text
  build_authorization ch credentials method uri cnonce nc = do
    r ← or_fail (rank_of ch) unsupported_algorithm
    guard (no_tokens ch.qop || has_token auth ch.qop) no_auth
    guard (leb 1 nc && leb nc (2 ^ 32 - 1)) bad_nonce_count
    guard (has_token auth ch.qop || same_text md5 (lower ch.algorithm)) needs_auth
    text ← render (answer_params ch credentials method uri cnonce nc)
    ok (68 ∷ 105 ∷ 103 ∷ 101 ∷ 115 ∷ 116 ∷ [] ++ (32 ∷ text))
