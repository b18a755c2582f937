-- ===== src/Checks/Transport.antt =====
-- src/hermes_voip/transport/framing.py, src/hermes_voip/message.py: small runs.
use hermes_voip.Address.{
  params_from, params_after_addr, advance, split_from, split_params, find_tag, tag_param,
  name_addr_from, name_addr_parts, find_name_addr,
}
use hermes_voip.Base.{ℕ, ◌+◌, ◌≡◌, ◌≢◌, refl, List, [], ◌∷◌, ◌++◌, ok, arith}
use hermes_voip.Base.Text.{show, partition, Text}
use hermes_voip.Message.{utf8_length, header, headers_all, build_request}
use hermes_voip.Message.Parse.{parse_request}
use hermes_voip.Message.Parse.RoundTrip.{parse_request-build_request, length_header}
use hermes_voip.Message.Parse.{SipRequest, parse_response}
use hermes_voip.Message.{Headers}
use hermes_voip.Base.{some}
use hermes_voip.Message.Response.{
  has_tag, tagged, field_lines, check_extra, build_response, response_headers,
}
use hermes_voip.Message.Response.RoundTrip.{parse_response-build_response}
use hermes_voip.Framer.{drain, frames, run, waiting, out_of_fuel}
use hermes_voip.Framer.Drain.{drain_ends}
use hermes_voip.Framer.Refine.{run_refines, concat}

-- A codec that leaves the bytes of ASCII as they are.
abbrev ascii_codec : List ℕ → Text
ascii_codec bytes = bytes

abbrev first_chunk : List ℕ
first_chunk = 13 ∷ 10 ∷ 65 ∷ 13 ∷ 10 ∷ 108 ∷ 58 ∷ 32 ∷ 49 ∷ 13 ∷ 10 ∷ 13 ∷ []

abbrev second_chunk : List ℕ
second_chunk = 10 ∷ 120 ∷ 66 ∷ []

run_refines_example :
    run ascii_codec [] (first_chunk ∷ second_chunk ∷ [])
    ≡ frames ascii_codec (concat (first_chunk ∷ second_chunk ∷ []))
unfolding run frames drain hermes_voip.Framer.next_message hermes_voip.Message.Parse.find_end
    hermes_voip.Framer.skip_keepalive hermes_voip.Framer.declared_length
    hermes_voip.Message.Parse.unfold_lines hermes_voip.Message.Parse.split_lines
    hermes_voip.Base.Text.partition hermes_voip.Base.Text.strip hermes_voip.Framer.length_value
    hermes_voip.Base.Text.read
run_refines_example = run_refines ascii_codec first_chunk (second_chunk ∷ []) refl

drain_ends_example : (drain ascii_codec 9 (65 ∷ 13 ∷ [])).stop ≢ out_of_fuel
drain_ends_example = drain_ends ascii_codec 9 (65 ∷ 13 ∷ []) (omega arith)

abbrev options : Text
options =
    79 ∷ 80 ∷ 84 ∷ 73 ∷ 79 ∷ 78 ∷ 83 ∷ 32 ∷ 115 ∷ 105 ∷ 112 ∷ 58 ∷ 97 ∷ 32 ∷ 83 ∷ 73 ∷ 80 ∷ 47 ∷ 50
    ∷ 46 ∷ 48 ∷ 13 ∷ 10 ∷ 84 ∷ 111 ∷ 58 ∷ 32 ∷ 98 ∷ 13 ∷ 10 ∷ 67 ∷ 111 ∷ 110 ∷ 116 ∷ 101 ∷ 110 ∷ 116
    ∷ 45 ∷ 76 ∷ 101 ∷ 110 ∷ 103 ∷ 116 ∷ 104 ∷ 58 ∷ 32 ∷ 50 ∷ 13 ∷ 10 ∷ 13 ∷ 10 ∷ 104 ∷ 105 ∷ []

abbrev options_headers : List (Text × Text)
options_headers = (84 ∷ 111 ∷ [], 98 ∷ []) ∷ []

parse_request-build_request_example :
    parse_request options
    ≡ ok (record {
      method = 79 ∷ 80 ∷ 84 ∷ 73 ∷ 79 ∷ 78 ∷ 83 ∷ [];
      request_uri = 115 ∷ 105 ∷ 112 ∷ 58 ∷ 97 ∷ [];
      headers = options_headers ++ length_header (104 ∷ 105 ∷ []) ∷ [];
      body = 104 ∷ 105 ∷ [];
    })
unfolding build_request hermes_voip.Base.Text.show hermes_voip.Base.Text.strip
parse_request-build_request_example =
    parse_request-build_request (79 ∷ 80 ∷ 84 ∷ 73 ∷ 79 ∷ 78 ∷ 83 ∷ [])
      (115 ∷ 105 ∷ 112 ∷ 58 ∷ 97 ∷ []) options_headers (104 ∷ 105 ∷ []) options refl refl (refl, tt)

abbrev bye_request : SipRequest
bye_request = record {
  method = (66 ∷ 89 ∷ 69 ∷ []);
  request_uri = (115 ∷ 105 ∷ 112 ∷ 58 ∷ 98 ∷ []);
  headers =
      ((86 ∷ 105 ∷ 97 ∷ []), (118 ∷ []))
      ∷ (
        (70 ∷ 114 ∷ 111 ∷ 109 ∷ []),
        (60 ∷ 115 ∷ 105 ∷ 112 ∷ 58 ∷ 97 ∷ 62 ∷ 59 ∷ 116 ∷ 97 ∷ 103 ∷ 61 ∷ 120 ∷ []),
      )
      ∷ ((84 ∷ 111 ∷ []), (60 ∷ 115 ∷ 105 ∷ 112 ∷ 58 ∷ 98 ∷ 62 ∷ []))
      ∷ ((67 ∷ 97 ∷ 108 ∷ 108 ∷ 45 ∷ 73 ∷ 68 ∷ []), (105 ∷ []))
      ∷ ((67 ∷ 83 ∷ 101 ∷ 113 ∷ []), (49 ∷ 32 ∷ 66 ∷ 89 ∷ 69 ∷ []))
      ∷ [];
  body = [];
}

abbrev echoed : Headers
echoed =
    ((86 ∷ 105 ∷ 97 ∷ []), (118 ∷ []))
    ∷ (
      (70 ∷ 114 ∷ 111 ∷ 109 ∷ []),
      (60 ∷ 115 ∷ 105 ∷ 112 ∷ 58 ∷ 97 ∷ 62 ∷ 59 ∷ 116 ∷ 97 ∷ 103 ∷ 61 ∷ 120 ∷ []),
    )
    ∷ ((84 ∷ 111 ∷ []), (60 ∷ 115 ∷ 105 ∷ 112 ∷ 58 ∷ 98 ∷ 62 ∷ 59 ∷ 116 ∷ 97 ∷ 103 ∷ 61 ∷ 121 ∷ []))
    ∷ ((67 ∷ 97 ∷ 108 ∷ 108 ∷ 45 ∷ 73 ∷ 68 ∷ []), (105 ∷ []))
    ∷ ((67 ∷ 83 ∷ 101 ∷ 113 ∷ []), (49 ∷ 32 ∷ 66 ∷ 89 ∷ 69 ∷ []))
    ∷ ((83 ∷ 101 ∷ 114 ∷ 118 ∷ 101 ∷ 114 ∷ []), (115 ∷ []))
    ∷ []

abbrev answer : Text
answer =
    (83 ∷ 73 ∷ 80 ∷ 47 ∷ 50 ∷ 46 ∷ 48 ∷ 32 ∷ 50 ∷ 48 ∷ 48 ∷ 32 ∷ 79 ∷ 75 ∷ 13 ∷ 10 ∷ 86 ∷ 105 ∷ 97
      ∷ 58 ∷ 32 ∷ 118 ∷ 13 ∷ 10 ∷ 70 ∷ 114 ∷ 111 ∷ 109 ∷ 58 ∷ 32 ∷ 60 ∷ 115 ∷ 105 ∷ 112 ∷ 58 ∷ 97
      ∷ 62 ∷ 59 ∷ 116 ∷ 97 ∷ 103 ∷ 61 ∷ 120 ∷ 13 ∷ 10 ∷ 84 ∷ 111 ∷ 58 ∷ 32 ∷ 60 ∷ 115 ∷ 105 ∷ 112
      ∷ 58 ∷ 98 ∷ 62 ∷ 59 ∷ 116 ∷ 97 ∷ 103 ∷ 61 ∷ 121 ∷ 13 ∷ 10 ∷ 67 ∷ 97 ∷ 108 ∷ 108 ∷ 45 ∷ 73 ∷ 68
      ∷ 58 ∷ 32 ∷ 105 ∷ 13 ∷ 10 ∷ 67 ∷ 83 ∷ 101 ∷ 113 ∷ 58 ∷ 32 ∷ 49 ∷ 32 ∷ 66 ∷ 89 ∷ 69 ∷ 13 ∷ 10
      ∷ 83 ∷ 101 ∷ 114 ∷ 118 ∷ 101 ∷ 114 ∷ 58 ∷ 32 ∷ 115 ∷ 13 ∷ 10 ∷ 67 ∷ 111 ∷ 110 ∷ 116 ∷ 101
      ∷ 110 ∷ 116 ∷ 45 ∷ 76 ∷ 101 ∷ 110 ∷ 103 ∷ 116 ∷ 104 ∷ 58 ∷ 32 ∷ 50 ∷ 13 ∷ 10 ∷ 13 ∷ 10 ∷ 104
      ∷ 105 ∷ [])

parse_response-build_response_example :
    parse_response answer
    ≡ ok (record {
      status_code = 200;
      reason = (79 ∷ 75 ∷ []);
      headers = echoed ++ length_header ((104 ∷ 105 ∷ [])) ∷ [];
      body = (104 ∷ 105 ∷ []);
    })
unfolding build_response check_extra response_headers headers_all header field_lines tagged has_tag
    find_name_addr name_addr_parts name_addr_from partition tag_param find_tag split_params
    split_from show advance params_after_addr params_from utf8_length hermes_voip.Base.Text.strip
parse_response-build_response_example =
    parse_response-build_response bye_request 200 ((79 ∷ 75 ∷ [])) (some ((121 ∷ [])))
      (((83 ∷ 101 ∷ 114 ∷ 118 ∷ 101 ∷ 114 ∷ []), (115 ∷ [])) ∷ []) echoed ((104 ∷ 105 ∷ [])) answer
      refl refl refl (refl, (refl, (refl, (refl, (refl, (refl, tt))))))
