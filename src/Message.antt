-- ===== src/Message.antt =====
-- src/hermes_voip/message.py: the look-up of a header and the writing of a request, and the reading
-- of a decimal (src/hermes_voip/_decimal.py). A text is the list of its code points.
pub mod Framing
pub mod Parse
pub mod Response
use hermes_voip.Base.{
  ℕ, suc, ◌+◌, ◌-◌, ◌*◌, Bool, true, false, not, ◌&&◌, ◌||◌, ◌==◌, ltb, leb, if◌then◌else◌, List,
  [], ◌∷◌, ◌++◌, length, Option, none, some, Result, ok, err, guard, ◌>>=◌, ◌>>◌,
}
use hermes_voip.Base.Text.{Text, all, any, decimal, is_digit, is_empty, lower, read, same_text}

abbrev pub Headers : Type 0
Headers = List (Text × Text)

pub data MessageError : Type 0 where
  control_character bad_method bad_uri bad_header_name own_content_length bad_body : MessageError

-- `contains_control`.
abbrev pub is_control : ℕ → Bool
is_control c = leb c 31 || c == 127

-- `_header_value` on names that are written in ASCII and without a `k`.
unfoldable pub header : Headers → Text → Option Text
header [] name = none
header ((n, v) ∷ hs) name = if same_text (lower n) (lower name) then some v else header hs name

-- `_header_values`, on the same names.
unfoldable pub headers_all : Headers → Text → List Text
headers_all [] name = []
headers_all ((n, v) ∷ hs) name =
    let rest = headers_all hs name in if same_text (lower n) (lower name) then v ∷ rest else rest

-- A character of `_HEADER_NAME`.
abbrev pub is_token_char : ℕ → Bool
is_token_char c =
    is_digit c
    || ((leb 65 c && leb c 90)
        || ((leb 97 c && leb c 122)
            || (c == 33
                || ((leb 35 c && leb c 39)
                    || (c == 42
                        || (c == 43
                            || (c == 45
                                || (c == 46
                                    || (c == 94
                                        || (c == 95 || (c == 96 || (c == 124 || c == 126))))))))))))

abbrev pub is_token : Text → Bool
is_token s = not (is_empty s) && all is_token_char s

abbrev pub content_length : Text
content_length = 67 ∷ 111 ∷ 110 ∷ 116 ∷ 101 ∷ 110 ∷ 116 ∷ 45 ∷ 76 ∷ 101 ∷ 110 ∷ 103 ∷ 116 ∷ 104 ∷ []

abbrev pub crlf : Text
crlf = 13 ∷ 10 ∷ []

-- The bytes of a text in UTF-8.
unfoldable pub utf8_length : Text → ℕ
utf8_length [] = 0
utf8_length (c ∷ cs) =
    (if ltb c 128 then 1 else if ltb c 2048 then 2 else if ltb c 65536 then 3 else 4)
    + utf8_length cs

abbrev pub is_surrogate : ℕ → Bool
is_surrogate c = leb 55296 c && leb c 57343

-- The loop of `build_request`: the lines of the headers, each with the line break in front of it.
unfoldable pub header_lines : Headers → Result MessageError Text
header_lines [] = ok []
header_lines ((name, value) ∷ hs) = do
  guard (is_token name) bad_header_name
  guard (not (same_text (lower name) (lower content_length))) own_content_length
  guard (not (any is_control value)) control_character
  rest ← header_lines hs
  ok (crlf ++ (name ++ (58 ∷ 32 ∷ (value ++ rest))))

-- ` SIP/2.0`.
abbrev pub sip_version : Text
sip_version = 32 ∷ 83 ∷ 73 ∷ 80 ∷ 47 ∷ 50 ∷ 46 ∷ 48 ∷ []

unfoldable pub build_request : Text → Text → Headers → Text → Result MessageError Text
unfolding utf8_length header_lines
build_request method uri headers body = do
  guard (not (any is_control method)) control_character
  guard (is_token method) bad_method
  guard (not (any is_control uri)) control_character
  guard (not (is_empty uri) && not (any (λ (c : ℕ). c == 32 || c == 9) uri)) bad_uri
  lines ← header_lines headers
  guard (not (any is_surrogate body)) bad_body
  ok (
      method
      ++ (32
          ∷ (uri
              ++ (sip_version
                  ++ (lines
                      ++ (crlf
                          ++ (content_length
                              ++ (58
                                  ∷ 32
                                  ∷ (decimal (utf8_length body) ++ (crlf ++ (crlf ++ body)))))))))))

-- `_parse_decimal` with no upper bound. `int` refuses more than 4300 digits.
unfoldable pub parse_decimal : Text → Option ℕ
unfolding read
parse_decimal token =
    if not (is_empty token) && (all is_digit token && leb (length token) 4300)
    then some (read 0 token)
    else none
