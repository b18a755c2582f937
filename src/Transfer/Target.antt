-- ===== src/Transfer/Target.antt =====
-- src/hermes_voip/refer.py: `_validate_transfer_target`, the guard of what is written into a Refer-To.
-- An IPv4 literal is a host name to the pattern `_HOSTNAME` too, so `_AUTHORITY` is a host name
-- or a bracketed IPv6 literal, with an optional port.
pub mod Safe
use hermes_voip.Base.{
  ℕ, ◌+◌, ◌-◌, Bool, true, false, not, ◌&&◌, ◌||◌, ◌==◌, ltb, leb, if◌then◌else◌, List, [], ◌∷◌,
  ◌++◌, length, drop, Option, none, some, Result, ok, err, guard, ◌>>=◌, ◌>>◌,
}
use hermes_voip.Base.Text.{
  Text, is_space, lower, same_text, is_empty, is_digit, split, partition, any, all,
}
use hermes_voip.Base.Percent.{unquote}
use hermes_voip.Message.{is_control}
use hermes_voip.Message.Parse.{starts_with}

pub data TargetError : Type 0 where
  empty_target too_long has_control has_space has_angle not_ascii has_query bad_shape : TargetError

abbrev pub is_letter : ℕ → Bool
is_letter c = (leb 65 c && leb c 90) || (leb 97 c && leb c 122)

abbrev pub is_alnum : ℕ → Bool
is_alnum c = is_digit c || is_letter c

abbrev pub is_angle : ℕ → Bool
is_angle c = c == 60 || c == 62

abbrev pub is_wide : ℕ → Bool
is_wide c = leb 128 c

-- The loop over the target and what a gateway makes of it.
unfoldable pub check_characters : Text → Result TargetError (Unit {0})
check_characters s = do
  guard (not (any is_control s)) has_control
  guard (not (any is_space s)) has_space
  guard (not (any is_angle s)) has_angle
  guard (not (any is_wide s)) not_ascii
  ok tt

abbrev pub is_dial_char : ℕ → Bool
is_dial_char c = is_digit c || (c == 42 || c == 35)

abbrev pub is_dial : Text → Bool
is_dial s = not (is_empty s) && all is_dial_char s

-- `_DIALABLE_TARGET.fullmatch`.
unfoldable pub is_dialable : Text → Bool
is_dialable [] = false
is_dialable (c ∷ cs) = if c == 43 then is_dial cs else is_dial (c ∷ cs)

-- A character of `_URI_USER`, and of `_URI_PARAM_CHARS`.
abbrev pub is_user_char : ℕ → Bool
is_user_char c = not (
    is_space c
    || (c == 64
        || (is_angle c
            || (c == 59
                || (c == 63 || (c == 58 || (c == 47 || (c == 34 || (c == 39 || c == 44)))))))))

abbrev pub is_param_char : ℕ → Bool
is_param_char c =
    is_alnum c
    || (c == 45
        || (c == 46
            || (c == 33
                || (c == 37
                    || (c == 42 || (c == 95 || (c == 43 || (c == 96 || (c == 39 || c == 126)))))))))

abbrev pub is_param_word : Text → Bool
is_param_word s = not (is_empty s) && all is_param_char s

abbrev pub is_port : Text → Bool
is_port s = not (is_empty s) && (all is_digit s && leb (length s) 5)

abbrev pub ends_alnum : Text → Bool
ends_alnum [] = false
ends_alnum (c ∷ []) = is_alnum c
ends_alnum (c ∷ d ∷ cs) = ends_alnum (d ∷ cs)

abbrev pub begins_alnum : Text → Bool
begins_alnum [] = false
begins_alnum (c ∷ cs) = is_alnum c

-- `_HOST_LABEL`: letters, digits and inner hyphens, 63 at most.
abbrev pub is_label : Text → Bool
is_label s =
    begins_alnum s
    && (ends_alnum s && (all (λ (c : ℕ). is_alnum c || c == 45) s && leb (length s) 63))

-- The labels behind the first; the last may be empty.
abbrev pub are_labels : List Text → Bool
are_labels [] = true
are_labels (l ∷ []) = is_empty l || is_label l
are_labels (l ∷ k ∷ ls) = is_label l && are_labels (k ∷ ls)

-- `_HOSTNAME`.
abbrev pub is_hostname : Text → Bool
is_hostname s = let labels = split 46 s in is_label labels.0 && are_labels labels.1

abbrev pub is_ipv6_char : ℕ → Bool
is_ipv6_char c =
    is_digit c || ((leb 65 c && leb c 70) || ((leb 97 c && leb c 102) || (c == 58 || c == 46)))

abbrev pub is_port_part : Text → Bool
is_port_part [] = true
is_port_part (c ∷ cs) = c == 58 && is_port cs

abbrev pub is_ipv6_authority : Text → Bool
is_ipv6_authority s = elim (partition 93 s) [
  | none ↦ false
  | some (inner, behind) ↦ not (is_empty inner) && (all is_ipv6_char inner && is_port_part behind)
]

abbrev pub is_name_authority : Text → Bool
is_name_authority s = elim (partition 58 s) [
  | none ↦ is_hostname s
  | some (host, port) ↦ is_hostname host && is_port port
]

-- `_AUTHORITY`.
unfoldable pub is_authority : Text → Bool
is_authority [] = false
is_authority (c ∷ cs) = if c == 91 then is_ipv6_authority cs else is_name_authority (c ∷ cs)

abbrev pub is_param : Text → Bool
is_param s = elim (partition 61 s) [
  | none ↦ is_param_word s
  | some (name, value) ↦ is_param_word name && is_param_word value
]

abbrev pub are_params : List Text → Bool
are_params [] = true
are_params (p ∷ ps) = is_param p && are_params ps

-- What is behind `sip:` or `sips:`.
abbrev pub after_scheme : Text → Option Text
after_scheme s =
    if starts_with (115 ∷ 105 ∷ 112 ∷ 58 ∷ []) (lower s)
    then some (drop 4 s)
    else if starts_with (115 ∷ 105 ∷ 112 ∷ 115 ∷ 58 ∷ []) (lower s)
    then some (drop 5 s)
    else none

-- The user, the authority and the parameters of a URI.
pub record UriParts : Type 0 where
  pub user : Text
  pub authority : Text
  pub params : List Text

unfoldable pub uri_parts : Text → Option UriParts
uri_parts s = elim (after_scheme s) [
  | none ↦ none
  | some rest ↦ elim (partition 64 rest) [
    | none ↦ none
    | some (user, after_at) ↦
        let fields = split 59 after_at in
        some (record { user = user; authority = fields.0; params = fields.1 })
  ]
]

-- `_ALLOWED_URI_PARAMS`.
abbrev pub is_allowed_param : Text → Bool
is_allowed_param name =
    same_text name (116 ∷ 114 ∷ 97 ∷ 110 ∷ 115 ∷ 112 ∷ 111 ∷ 114 ∷ 116 ∷ [])
    || (same_text name (117 ∷ 115 ∷ 101 ∷ 114 ∷ [])
        || (same_text name (109 ∷ 101 ∷ 116 ∷ 104 ∷ 111 ∷ 100 ∷ [])
            || (same_text name (116 ∷ 116 ∷ 108 ∷ []) || same_text name (108 ∷ 114 ∷ []))))

abbrev pub param_name : Text → Text
param_name p = (split 61 p).0

-- `_uri_params_allowed`.
abbrev pub are_allowed : List Text → Bool
are_allowed [] = true
are_allowed (p ∷ ps) = is_allowed_param (lower (param_name p)) && are_allowed ps

-- `_SIP_URI.fullmatch`, with `_uri_params_allowed`.
unfoldable pub is_clean_uri : Text → Bool
is_clean_uri s = elim (uri_parts s) [
  | none ↦ false
  | some u ↦
      (not (is_empty u.user) && all is_user_char u.user)
      && (is_authority u.authority && (are_params u.params && are_allowed u.params))
]

-- `_validate_transfer_target`.
unfoldable pub validate_transfer_target : Text → Result TargetError (Unit {0})
validate_transfer_target target = do
  guard (not (is_empty target)) empty_target
  guard (leb (length target) 256) too_long
  check_characters target
  check_characters (unquote target)
  if is_dialable target then ok tt else do
    guard (not (any (λ (c : ℕ). c == 63) target)) has_query
    guard (is_clean_uri target) bad_shape
    ok tt
