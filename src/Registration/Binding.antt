-- ===== src/Registration/Binding.antt =====
-- src/hermes_voip/registration.py: the parts of an address of record and of a Contact, and the match of
-- two Contacts. `str.lower` is the parameter `lower_text`.
use hermes_voip.Base.{
  ℕ, Bool, true, false, not, ◌&&◌, ◌||◌, ◌==◌, leb, ◌+◌, if◌then◌else◌, List, [], ◌∷◌, ◌++◌, Option,
  none, some, Result, ok, guard, or_fail, ◌>>=◌, ◌>>◌,
}
use hermes_voip.Base.Text.{
  Text, is_space, skip_spaces, strip, same_text, is_empty, partition, split,
}
use hermes_voip.Message.{parse_decimal}
use hermes_voip.Address.{find_name_addr, split_header_list}
use hermes_voip.Digest.{span}

-- `rest.rpartition(c)`: `none` if the separator is not there.
unfoldable pub rpartition : ℕ → Text → Option (Text × Text)
rpartition sep [] = none
rpartition sep (c ∷ cs) = elim (rpartition sep cs) [
  | some (front, behind) ↦ some (c ∷ front, behind)
  | none ↦ if c == sep then some ([], cs) else none
]

unfoldable pub binding_uri : Text → Text
binding_uri binding = elim (find_name_addr binding) [
  | some (spec, trailing) ↦ strip spec
  | none ↦ strip (split 59 binding).0
]

-- What stands behind the closing bracket of an IPv6 address.
abbrev pub port_behind : Text → Text → Option (Text × Text)
port_behind host [] = some (host, [])
port_behind host (c ∷ cs) = if c == 58 then some (host, cs) else none

abbrev pub plain_host_port : Text → Text × Text
plain_host_port s = elim (partition 58 s) [ none ↦ (s, []) | some parts ↦ parts ]

unfoldable pub split_host_port : Text → Option (Text × Text)
split_host_port [] = some (plain_host_port [])
split_host_port (c ∷ cs) =
    if c == 91
    then elim (partition 93 (c ∷ cs)) [
      | none ↦ none
      | some (front, behind) ↦ port_behind (front ++ 93 ∷ []) behind
    ]
    else some (plain_host_port (c ∷ cs))

pub record Binding : Type 0 where
  pub scheme : Text
  pub userinfo : Text
  pub host : Text
  pub port : Option ℕ

-- The host and the port of a binding, behind its userinfo.
abbrev pub with_port : Text → Text → Text × Text → Option Binding
with_port scheme userinfo (host, port_text) =
    if is_empty host
    then none
    else if is_empty port_text
    then some (record { scheme = scheme; userinfo = userinfo; host = host; port = none })
    else elim (parse_decimal port_text) [
      | none ↦ none
      | some n ↦ some (record { scheme = scheme; userinfo = userinfo; host = host; port = some n })
    ]

abbrev pub with_host : Text → Text → Text → Option Binding
with_host scheme userinfo hostport =
    if is_empty hostport then none else elim (split_host_port hostport) [
      | none ↦ none
      | some parts ↦ with_port scheme userinfo parts
    ]

-- `_split_contact_binding_uri`.
unfoldable pub split_binding : Text → Option Binding
split_binding uri = elim (partition 58 uri) [
  | none ↦ none
  | some (scheme, rest) ↦
      if is_empty scheme || is_empty rest then none else elim (rpartition 64 rest) [
        | none ↦ with_host scheme [] (split 59 rest).0
        | some (userinfo, behind) ↦ with_host scheme userinfo (split 59 behind).0
      ]
]

abbrev pub same_port : Option ℕ → Option ℕ → Bool
same_port none none = true
same_port (some a) (some b) = a == b
same_port _ _ = false

-- The first of the two that is there.
abbrev pub or_port : Option ℕ → Option ℕ → Option ℕ
or_port (some a) other = some a
or_port none other = other

abbrev pub sip : Text
sip = 115 ∷ 105 ∷ 112 ∷ []

abbrev pub sips : Text
sips = 115 ∷ 105 ∷ 112 ∷ 115 ∷ []

-- `_DEFAULT_PORT.get`.
abbrev pub scheme_port : Text → Option ℕ
scheme_port scheme =
    if same_text sip scheme then some 5060 else if same_text sips scheme then some 5061 else none

pub data AorError : Type 0 where
  bad_scheme no_host insecure_scheme : AorError

module _ (lower_text : Text → Text) where
  abbrev pub effective_port : Option ℕ → Binding → Option ℕ
  effective_port default b = or_port b.port (or_port default (scheme_port (lower_text b.scheme)))

  -- The comparison of two parsed bindings.
  unfoldable pub same_binding : Option ℕ → Binding → Binding → Bool
  same_binding default a b =
      same_text (lower_text a.scheme) (lower_text b.scheme)
      && (same_text a.userinfo b.userinfo
          && (same_text (lower_text a.host) (lower_text b.host)
              && same_port (effective_port default a) (effective_port default b)))

  unfoldable pub contact_binding_matches : Text → Text → Option ℕ → Bool
  contact_binding_matches a b default = same_text a b || (elim (split_binding a) [
    | none ↦ false
    | some x ↦ elim (split_binding b) [ none ↦ false | some y ↦ same_binding default x y ]
  ])

  -- `rest.split(";", 1)[0].split("@", 1)[-1]`.
  abbrev pub host_of : Text → Text
  host_of rest = elim (partition 64 (split 59 rest).0) [
    | none ↦ (split 59 rest).0
    | some (user, host) ↦ host
  ]

  unfoldable pub split_aor : Text → Result AorError (Text × Text)
  split_aor aor = do
    (scheme, rest) ← or_fail (partition 58 aor) bad_scheme
    guard (same_text sip (lower_text scheme) || same_text sips (lower_text scheme)) bad_scheme
    guard (not (is_empty (host_of rest))) no_host
    ok (scheme, host_of rest)

-- A letter of `expires` under IGNORECASE.
abbrev pub fold_char : ℕ → ℕ
fold_char c =
    if c == 304 || c == 305
    then 105
    else if c == 383
    then 115
    else if leb 65 c && leb c 90
    then c + 32
    else c

-- What stands behind a word that a text begins with.
unfoldable pub behind_word : Text → Text → Option Text
behind_word [] s = some s
behind_word (w ∷ ws) [] = none
behind_word (w ∷ ws) (c ∷ cs) = if fold_char c == w then behind_word ws cs else none

abbrev pub is_value_char : ℕ → Bool
is_value_char c = not (c == 59 || (c == 44 || is_space c))

-- The token behind an equals sign.
abbrev pub token_behind : Text → Option Text
token_behind [] = none
token_behind (c ∷ cs) =
    let token = (span is_value_char (skip_spaces cs)).0 in
    if c == 61 && not (is_empty token) then some token else none

-- `_EXPIRES_TOKEN.search`.
unfoldable pub expires_token : Text → Option Text
expires_token [] = none
expires_token (c ∷ cs) =
    let rest = expires_token cs in
    if c == 59
    then elim (behind_word (101 ∷ 120 ∷ 112 ∷ 105 ∷ 114 ∷ 101 ∷ 115 ∷ []) (skip_spaces cs)) [
      | none ↦ rest
      | some behind ↦ elim (token_behind (skip_spaces behind)) [
        | none ↦ rest
        | some token ↦ some token
      ]
    ]
    else rest

-- The bindings of all Contact headers.
unfoldable pub bindings : List Text → List Text
bindings [] = []
bindings (h ∷ hs) = split_header_list h ++ bindings hs
