-- ===== src/Message/Parse.antt =====
-- src/hermes_voip/message.py: `_parse_headers`, `SipRequest.parse` and `SipResponse.parse`.
pub mod Lines
pub mod RoundTrip
use hermes_voip.Base.{
  ℕ, ◌+◌, ◌*◌, Bool, true, false, not, ◌&&◌, ◌||◌, ◌==◌, leb, if◌then◌else◌, List, [], ◌∷◌, ◌++◌,
  drop, Option, none, some, Result, ok, err, guard, or_fail, ◌>>=◌, ◌>>◌,
}
use hermes_voip.Base.Text.{
  Text, is_space, strip, same_text, is_digit, is_empty, read, partition, any, all,
}
use hermes_voip.Message.{Headers, is_token, crlf}

pub record SipRequest : Type 0 where
  pub method : Text
  pub request_uri : Text
  pub headers : Headers
  pub body : Text

pub record SipResponse : Type 0 where
  pub status_code : ℕ
  pub reason : Text
  pub headers : Headers
  pub body : Text

pub data ParseError : Type 0 where
  not_request_line not_status_line bad_status no_header_to_continue no_colon : ParseError

-- Whether a text begins with another.
abbrev pub starts_with : Text → Text → Bool
starts_with [] s = true
starts_with (p ∷ ps) [] = false
starts_with (p ∷ ps) (c ∷ cs) = c == p && starts_with ps cs

abbrev pub head_end : Text
head_end = 13 ∷ 10 ∷ 13 ∷ 10 ∷ []

-- The first `"\r\n\r\n"`: what is in front of it, and what is behind it.
unfoldable pub find_end : Text → Option (Text × Text)
find_end [] = none
find_end (c ∷ cs) =
    let rest = find_end cs in
    if starts_with head_end (c ∷ cs)
    then some ([], drop 3 cs)
    else elim rest [ none ↦ none | some (head, body) ↦ some (c ∷ head, body) ]

-- `raw.partition("\r\n\r\n")`, without the separator.
unfoldable pub cut : Text → Text × Text
cut raw = elim (find_end raw) [ none ↦ (raw, []) | some parts ↦ parts ]

-- `head.split("\r\n")`: the first line and the others.
unfoldable pub split_lines : Text → Text × List Text
split_lines [] = ([], [])
split_lines (c ∷ []) = (c ∷ [], [])
split_lines (c ∷ d ∷ cs) =
    let behind = split_lines cs in
    let next = split_lines (d ∷ cs) in
    if c == 13 && d == 10 then ([], behind.0 ∷ behind.1) else (c ∷ next.0, next.1)

-- `line[:1] in (" ", "\t")`.
abbrev pub is_folded : Text → Bool
is_folded [] = false
is_folded (c ∷ cs) = c == 32 || c == 9

-- The loop that collects the lines of each header; the first lines of the current one are `parts`.
unfoldable pub unfold_from : List Text → List Text → List (List Text)
unfold_from parts [] = parts ∷ []
unfold_from parts (line ∷ lines) =
    let more = unfold_from (parts ++ strip line ∷ []) lines in
    let next = unfold_from (line ∷ []) lines in if is_folded line then more else parts ∷ next

unfoldable pub unfold_lines : List Text → Result ParseError (List (List Text))
unfolding unfold_from
unfold_lines [] = ok []
unfold_lines (line ∷ lines) =
    if is_folded line then err no_header_to_continue else ok (unfold_from (line ∷ []) lines)

-- `" ".join(parts)`.
abbrev pub join : List Text → Text
join [] = []
join (s ∷ []) = s
join (s ∷ t ∷ ts) = s ++ (32 ∷ join (t ∷ ts))

-- The loop over the unfolded lines.
unfoldable pub read_headers : List (List Text) → Result ParseError Headers
read_headers [] = ok []
read_headers (parts ∷ others) =
    let rest = read_headers others in
    elim (partition 58 (join parts)) [
      | some (name, value) ↦ (do hs ← rest; ok ((strip name, strip value) ∷ hs))
      | none ↦ if is_empty (join parts) then rest else err no_colon
    ]

unfoldable pub parse_headers : List Text → Result ParseError Headers
unfolding unfold_lines read_headers
parse_headers lines = do groups ← unfold_lines lines; read_headers groups

-- `SIP/2.0`.
abbrev pub sip_two : Text
sip_two = 83 ∷ 73 ∷ 80 ∷ 47 ∷ 50 ∷ 46 ∷ 48 ∷ []

-- The match of `_REQUEST_LINE`. The method is a token and the URI has no white space, so the first
-- two spaces are the separators.
unfoldable pub request_line : Text → Option (Text × Text)
request_line line = elim (partition 32 line) [
  | none ↦ none
  | some (method, more) ↦ elim (partition 32 more) [
    | none ↦ none
    | some (uri, version) ↦
        if is_token method
          && (not (is_empty uri) && (not (any is_space uri) && same_text sip_two version))
        then some (method, uri)
        else none
  ]
]

-- `SipRequest.parse`.
unfoldable pub parse_request : Text → Result ParseError SipRequest
unfolding request_line parse_headers
parse_request raw = do
  let lines = split_lines (cut raw).0
  (method, uri) ← or_fail (request_line lines.0) not_request_line
  headers ← parse_headers lines.1
  ok (record { method = method; request_uri = uri; headers = headers; body = (cut raw).1 })

-- Behind the version of a status line: three ASCII digits, a space, and a reason with no line feed.
unfoldable pub status_digits : Text → Option (ℕ × Text)
status_digits (a ∷ b ∷ c ∷ s ∷ reason) =
    if is_digit a
      && (is_digit b && (is_digit c && (s == 32 && not (any (λ (x : ℕ). x == 10) reason))))
    then some (read 0 (a ∷ b ∷ c ∷ []), reason)
    else none
status_digits _ = none

-- The match of `_STATUS_LINE`.
unfoldable pub status_line : Text → Option (ℕ × Text)
unfolding status_digits
status_line line =
    if starts_with (sip_two ++ 32 ∷ []) line then status_digits (drop 8 line) else none

-- `SipResponse.parse`.
unfoldable pub parse_response : Text → Result ParseError SipResponse
unfolding status_line parse_headers
parse_response raw = do
  let lines = split_lines (cut raw).0
  (status, reason) ← or_fail (status_line lines.0) not_status_line
  guard (leb 100 status && leb status 699) bad_status
  headers ← parse_headers lines.1
  ok (record { status_code = status; reason = strip reason; headers = headers; body = (cut raw).1 })
