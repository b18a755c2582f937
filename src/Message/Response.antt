-- ===== src/Message/Response.antt =====
-- src/hermes_voip/message.py: `build_response`.
pub mod RoundTrip
use hermes_voip.Base.{
  ℕ, Bool, true, false, not, ◌&&◌, leb, if◌then◌else◌, List, [], ◌∷◌, ◌++◌, map, Option, none, some,
  Result, ok, err, guard, or_fail, ◌>>=◌, ◌>>◌,
}
use hermes_voip.Base.Text.{Text, any, decimal, lower, same_text}
use hermes_voip.Message.{
  Headers, header, headers_all, is_token, is_control, is_surrogate, crlf, content_length,
  utf8_length,
}
use hermes_voip.Message.Parse.{SipRequest, sip_two}
use hermes_voip.Address.{find_name_addr, params_after_addr, tag_param}

pub data ResponseError : Type 0 where
  status_out_of_range control_character own_content_length no_via missing_header bad_header_name :
      ResponseError
  bad_body : ResponseError

abbrev pub is_there : Option Text → Bool
is_there none = false
is_there (some t) = true

-- `_has_tag`.
unfoldable pub has_tag : Text → Bool
has_tag value = elim (find_name_addr value) [
  | some (spec, trailing) ↦ is_there (tag_param trailing)
  | none ↦ is_there (tag_param (params_after_addr value))
]

-- `_require_echo`.
abbrev pub require_echo : Headers → Text → Result ResponseError Text
require_echo hs name = or_fail (header hs name) missing_header

-- The test of the headers that the caller adds.
unfoldable pub check_extra : Headers → Result ResponseError (Unit {0})
check_extra [] = ok tt
check_extra ((name, value) ∷ hs) = do
  guard (not (same_text (lower name) (lower content_length))) own_content_length
  check_extra hs

-- The value of To, with our tag if it has none.
unfoldable pub tagged : Text → Option Text → Text
tagged value none = value
tagged value (some tag) =
    if has_tag value then value else value ++ (59 ∷ 116 ∷ 97 ∷ 103 ∷ 61 ∷ [] ++ tag)

abbrev pub filled_vias : List Text → Result ResponseError (List Text)
filled_vias [] = err no_via
filled_vias (v ∷ vs) = ok (v ∷ vs)

abbrev pub via_field : Text → Text × Text
via_field via = (86 ∷ 105 ∷ 97 ∷ [], via)

-- The headers of a response.
unfoldable pub response_headers : SipRequest → Option Text → Headers → Result ResponseError Headers
response_headers request to_tag extra_headers = do
  vias ← filled_vias (headers_all request.headers (86 ∷ 105 ∷ 97 ∷ []))
  from ← require_echo request.headers (70 ∷ 114 ∷ 111 ∷ 109 ∷ [])
  to ← require_echo request.headers (84 ∷ 111 ∷ [])
  call_id ← require_echo request.headers (67 ∷ 97 ∷ 108 ∷ 108 ∷ 45 ∷ 73 ∷ 68 ∷ [])
  cseq ← require_echo request.headers (67 ∷ 83 ∷ 101 ∷ 113 ∷ [])
  ok (
      map via_field vias
      ++ ((70 ∷ 114 ∷ 111 ∷ 109 ∷ [], from)
          ∷ (84 ∷ 111 ∷ [], tagged to to_tag)
          ∷ (67 ∷ 97 ∷ 108 ∷ 108 ∷ 45 ∷ 73 ∷ 68 ∷ [], call_id)
          ∷ (67 ∷ 83 ∷ 101 ∷ 113 ∷ [], cseq)
          ∷ extra_headers))

-- The loop over the headers: their lines, each with the line break in front of it.
unfoldable pub field_lines : Headers → Result ResponseError Text
field_lines [] = ok []
field_lines ((name, value) ∷ hs) = do
  guard (is_token name) bad_header_name
  guard (not (any is_control value)) control_character
  rest ← field_lines hs
  ok (crlf ++ (name ++ (58 ∷ 32 ∷ (value ++ rest))))

abbrev pub status_line_of : ℕ → Text → Text
status_line_of status reason = sip_two ++ (32 ∷ (decimal status ++ (32 ∷ reason)))

unfoldable pub build_response :
    SipRequest → ℕ → Text → Option Text → Headers → Text → Result ResponseError Text
build_response request status reason to_tag extra_headers body = do
  guard (leb 100 status && leb status 699) status_out_of_range
  guard (not (any is_control reason)) control_character
  check_extra extra_headers
  hs ← response_headers request to_tag extra_headers
  lines ← field_lines hs
  guard (not (any is_surrogate body)) bad_body
  ok (
      status_line_of status reason
      ++ (lines
          ++ (crlf
              ++ (content_length
                  ++ (58 ∷ 32 ∷ (decimal (utf8_length body) ++ (crlf ++ (crlf ++ body))))))))
