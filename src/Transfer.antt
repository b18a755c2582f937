-- ===== src/Transfer.antt =====
-- src/hermes_voip/refer.py: call transfer (RFC 3515, RFC 3891). This module has the values of the
-- headers; the messages stand in `Requests` and the guard of a transfer target in `Target`.
pub mod Target
pub mod Requests
pub mod Replaces
pub mod Progress
pub mod Deliver
pub mod Blind
use hermes_voip.Base.{
  ℕ, ◌+◌, ◌-◌, Bool, true, false, not, ◌&&◌, ◌||◌, ◌==◌, ltb, leb, if◌then◌else◌, List, [], ◌∷◌,
  ◌++◌, length, Option, none, some, Result, ok, err, guard, or_fail, ◌>>=◌, ◌>>◌,
}
use hermes_voip.Base.Text.{Text, strip, lower, same_text, is_empty, split, partition}
use hermes_voip.Base.Percent.{unquote}
use hermes_voip.Address.{find_name_addr}

pub data ReferError : Type 0 where
  not_one_refer_to bad_target embedded_header duplicate_replaces : ReferError
  no_call_id no_to_tag no_from_tag no_subscription_state no_status_line : ReferError

pub record ReplacesSpec : Type 0 where
  pub call_id : Text
  pub to_tag : Text
  pub from_tag : Text
  pub early_only : Bool

pub record ReferRequest : Type 0 where
  pub refer_to : Text
  pub replaces : Option ReplacesSpec
  pub referred_by : Option Text

pub record NotifyProgress : Type 0 where
  pub status_code : ℕ
  pub reason : Text
  pub terminated : Bool

pub data TransferOutcomeClass : Type 0 where
  completed failed outcome_unknown : TransferOutcomeClass

-- `classify_transfer_progress` of a NOTIFY.
unfoldable pub classify_progress : NotifyProgress → TransferOutcomeClass
classify_progress progress =
    if not progress.terminated
    then outcome_unknown
    else if leb 200 progress.status_code && ltb progress.status_code 300
    then completed
    else if leb 300 progress.status_code && leb progress.status_code 699
    then failed
    else outcome_unknown

unfoldable pub classify_transfer_progress : Option NotifyProgress → TransferOutcomeClass
classify_transfer_progress none = outcome_unknown
classify_transfer_progress (some progress) = classify_progress progress

abbrev pub to_tag_word : Text
to_tag_word = 116 ∷ 111 ∷ 45 ∷ 116 ∷ 97 ∷ 103 ∷ []

abbrev pub from_tag_word : Text
from_tag_word = 102 ∷ 114 ∷ 111 ∷ 109 ∷ 45 ∷ 116 ∷ 97 ∷ 103 ∷ []

abbrev pub early_only_word : Text
early_only_word = 101 ∷ 97 ∷ 114 ∷ 108 ∷ 121 ∷ 45 ∷ 111 ∷ 110 ∷ 108 ∷ 121 ∷ []

abbrev pub replaces_word : Text
replaces_word = 114 ∷ 101 ∷ 112 ∷ 108 ∷ 97 ∷ 99 ∷ 101 ∷ 115 ∷ []

-- `ReplacesSpec.header_value`.
unfoldable pub header_value : ReplacesSpec → Text
header_value s =
    s.call_id
    ++ (59
        ∷ (to_tag_word
            ++ (61
                ∷ (s.to_tag
                    ++ (59
                        ∷ (from_tag_word
                            ++ (61
                                ∷ (s.from_tag
                                    ++ (if s.early_only then 59 ∷ early_only_word else [])))))))))

-- `to_tags`, `from_tags` and `early_only` of `_parse_replaces_value`.
pub record ReplacesParts : Type 0 where
  pub to_tags : List Text
  pub from_tags : List Text
  pub early : Bool

abbrev pub no_parts : ReplacesParts
no_parts = record { to_tags = []; from_tags = []; early = false }

-- A part with `=`, and one without.
abbrev pub add_pair : Text → Text → ReplacesParts → ReplacesParts
add_pair name value parts =
    if same_text name to_tag_word
    then record parts { to_tags = value ∷ parts.to_tags }
    else if same_text name from_tag_word
    then record parts { from_tags = value ∷ parts.from_tags }
    else if same_text name early_only_word
    then record parts { early = true }
    else parts

abbrev pub add_flag : Text → ReplacesParts → ReplacesParts
add_flag name parts =
    if same_text name early_only_word then record parts { early = true } else parts

unfoldable pub collect_parts : List Text → ReplacesParts
collect_parts [] = no_parts
collect_parts (part ∷ rest) =
    let parts = collect_parts rest in
    elim (partition 61 part) [
      | none ↦ add_flag (lower (strip part)) parts
      | some (key, value) ↦ add_pair (lower (strip key)) (strip value) parts
    ]

-- `_single_tag`.
abbrev pub single_tag : List Text → ReferError → Result ReferError Text
single_tag (tag ∷ []) e = if is_empty tag then err e else ok tag
single_tag _ e = err e

-- `_parse_replaces_value`.
unfoldable pub parse_replaces_value : Text → Result ReferError ReplacesSpec
parse_replaces_value value = do
  let fields = split 59 value
  let parts = collect_parts fields.1
  guard (not (is_empty (strip fields.0))) no_call_id
  to_tag ← single_tag parts.to_tags no_to_tag
  from_tag ← single_tag parts.from_tags no_from_tag
  ok (record {
    call_id = strip fields.0;
    to_tag = to_tag;
    from_tag = from_tag;
    early_only = parts.early;
  })

-- `_wrap_uri`.
unfoldable pub wrap_uri : Text → Text
wrap_uri [] = 60 ∷ 62 ∷ []
wrap_uri (c ∷ cs) = if c == 60 then c ∷ cs else 60 ∷ ((c ∷ cs) ++ 62 ∷ [])

-- `_bracketed_uri`.
unfoldable pub bracketed_uri : Text → Text
bracketed_uri value = elim (find_name_addr value) [
  | some (spec, trailing) ↦ strip spec
  | none ↦ strip value
]

-- `pair.partition("=")` with an empty value where there is no `=`.
abbrev pub name_and_value : Text → Text × Text
name_and_value pair = elim (partition 61 pair) [ none ↦ (pair, []) | some parts ↦ parts ]

unfoldable pub is_replaces : Text → Bool
is_replaces pair = same_text (lower (strip (name_and_value pair).0)) replaces_word

abbrev pub all_replaces : List Text → Bool
all_replaces [] = true
all_replaces (pair ∷ pairs) = is_replaces pair && all_replaces pairs

-- `query.split("&")`.
unfoldable pub pairs_of : Text → List Text
pairs_of query = let parts = split 38 query in parts.0 ∷ parts.1

-- `_validate_refer_to_query`.
unfoldable pub validate_refer_to_query : Text → Result ReferError (Unit {0})
validate_refer_to_query query = if is_empty query then ok tt else do
  guard (all_replaces (pairs_of query)) embedded_header
  guard (leb (length (pairs_of query)) 1) duplicate_replaces
  ok tt

abbrev pub parsed : Result ReferError ReplacesSpec → Result ReferError (Option ReplacesSpec)
parsed (ok spec) = ok (some spec)
parsed (err e) = err e

unfoldable pub replaces_from_pairs : List Text → Result ReferError (Option ReplacesSpec)
replaces_from_pairs [] = ok none
replaces_from_pairs (pair ∷ pairs) =
    if is_replaces pair
    then parsed (parse_replaces_value (unquote (name_and_value pair).1))
    else replaces_from_pairs pairs

-- `_replaces_from_uri_query`.
unfoldable pub replaces_from_uri_query : Text → Result ReferError (Option ReplacesSpec)
replaces_from_uri_query query =
    if is_empty query then ok none else replaces_from_pairs (pairs_of query)
