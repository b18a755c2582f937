-- ===== src/Checks/Calls.antt =====
-- src/hermes_voip/registration.py, src/hermes_voip/digest.py, src/hermes_voip/dialog.py: small runs.
use hermes_voip.Transaction.{first_word}
use hermes_voip.Base.{
  ℕ, ◌+◌, ◌≤◌, ◌<◌, ◌≡◌, ◌⊎◌, refl, Bool, true, false, List, [], ◌∷◌, ◌++◌, length, All, Option,
  none, some, Result, ok, err, arith,
}
use hermes_voip.Base.Text.{
  span_digits, split, show, read, partition, drop_end, strip, skip_spaces, Text,
}
use hermes_voip.Message.{
  utf8_length, header_lines, build_request, parse_decimal, header, Headers, headers_all,
}
use hermes_voip.Message.Parse.{SipRequest, SipResponse, parse_request}
use hermes_voip.Address.{
  params_from, params_after_addr, split_from, split_params, find_tag, tag_param, scan_entries,
  name_addr_from, find_name_addr, advance_entry, advance, split_header_list, name_addr_parts,
}
use hermes_voip.Address.Quoting.{name_addr_parts-escape}
use hermes_voip.Digest.{
  unescape, span, response_params, replace, render_one, render, rank, quoted_body, quoted,
  pick_from, param_value, param_here, param_behind, param, hex, find_params, compute_ha1,
  challenge_of, bare_value, answer_params, DigestChallenge, DigestCredentials, DigestError, rank_of,
  pick_best_challenge, parse_challenge, escape, build_authorization,
}
use hermes_voip.Digest.Choice.{IsStrongest, pick_best_challenge-IsStrongest}
use hermes_voip.Digest.RoundTrip.{is_ascii_word, echo, parse_challenge-build_authorization}
use hermes_voip.Registration.Binding.{
  split_host_port, split_binding, same_binding, rpartition, expires_token, contact_binding_matches,
  binding_uri, behind_word, bindings,
}
use hermes_voip.Registration.Flow.{
  strongest_challenge, retry_expires, register_headers, parse_all, next_request, min_expires,
  handle_challenge, handle_brief, build, begin_with, answer, find_ours, chosen, handle_success,
  behind_first, cseq_matches, check_cseq, handle_at, tls, RegistrationConfig, RegistrationFlow,
  start, handle, granted_expires, is_ours, expires_of, expires_name,
}
use hermes_voip.Registration.Traffic.{
  Reply, Event, started, deregistered, received, replies, run, Increasing, start-replies,
  run-Increasing,
}
use hermes_voip.Registration.Steps.{handle_registered}
use hermes_voip.Registration.Grant.{granted_expires-is_ours, IsOwn, is_ours-IsOwn, IsOwn-is_ours}
use hermes_voip.Dialog.{
  split_routes, record_route_set, cseq_parts, cseq, via_parts, via_transport_sent_by, tag_of,
  addr_spec, Dialog, uri_and_tag, from_invite_2xx, from_inbound_invite, reverse,
  build_in_dialog_request, request_headers, max_cseq,
}
use hermes_voip.Dialog.{dialog_id}
use hermes_voip.Routing.{Manager, add_call, route_request, in_dialog}
use hermes_voip.Routing.Calls.{route_request-request_headers}
use hermes_voip.Dialog.Ends.{from_invite_2xx-from_inbound_invite}
use hermes_voip.Dialog.Received.{IsFromDialog, build_in_dialog_request-IsFromDialog}
use hermes_voip.Dialog.Requests.{Order, Numbered, send_all, send_all-Numbered}

-- A hash that gives one letter.
abbrev short_hash : Text → Text
short_hash text = 97 ∷ []

abbrev same_case : Text → Text
same_case text = text

abbrev cfg : RegistrationConfig
cfg = record {
  aor = (115 ∷ 105 ∷ 112 ∷ 115 ∷ 58 ∷ 97 ∷ 64 ∷ 104 ∷ []);
  username = (117 ∷ []);
  password = (112 ∷ []);
  contact = (60 ∷ 115 ∷ 105 ∷ 112 ∷ 58 ∷ 97 ∷ 64 ∷ 104 ∷ 62 ∷ []);
  local_sent_by = (104 ∷ []);
  transport = tls;
  expires = 300;
  user_agent = (118 ∷ []);
}

abbrev waiting_flow : RegistrationFlow
waiting_flow = record {
  cfg = cfg;
  registrar = (115 ∷ 105 ∷ 112 ∷ 115 ∷ 58 ∷ 104 ∷ []);
  contact_uri = (115 ∷ 105 ∷ 112 ∷ 58 ∷ 97 ∷ 64 ∷ 104 ∷ []);
  call_id = (105 ∷ []);
  from_tag = (120 ∷ []);
  cseq = 1;
  is_registered = false;
  txn = some (record { cseq = 1; requested_expires = 300; challenged = false });
  interval_retried = false;
}

abbrev too_brief : SipResponse
too_brief = record {
  status_code = 423;
  reason = (110 ∷ 111 ∷ []);
  headers =
      ((77 ∷ 105 ∷ 110 ∷ 45 ∷ 69 ∷ 120 ∷ 112 ∷ 105 ∷ 114 ∷ 101 ∷ 115 ∷ []), (54 ∷ 48 ∷ 48 ∷ []))
      ∷ [];
  body = [];
}

abbrev asked : SipResponse
asked = record {
  status_code = 401;
  reason = (110 ∷ 111 ∷ []);
  headers =
      (
        (87 ∷ 87 ∷ 87 ∷ 45 ∷ 65 ∷ 117 ∷ 116 ∷ 104 ∷ 101 ∷ 110 ∷ 116 ∷ 105 ∷ 99 ∷ 97 ∷ 116 ∷ 101
            ∷ []),
        (68 ∷ 105 ∷ 103 ∷ 101 ∷ 115 ∷ 116 ∷ 32 ∷ 114 ∷ 101 ∷ 97 ∷ 108 ∷ 109 ∷ 61 ∷ 34 ∷ 114 ∷ 34
            ∷ 44 ∷ 32 ∷ 110 ∷ 111 ∷ 110 ∷ 99 ∷ 101 ∷ 61 ∷ 34 ∷ 110 ∷ 34 ∷ []),
      )
      ∷ [];
  body = [];
}

abbrev answers : List Reply
answers = (too_brief, (98 ∷ []), (99 ∷ [])) ∷ (asked, (98 ∷ []), (99 ∷ [])) ∷ []

start-replies_example :
    length (
      replies is_ascii_word short_hash short_hash same_case
        (start waiting_flow ((122 ∷ []))).0
        answers)
    ≤ 3
start-replies_example =
    start-replies is_ascii_word short_hash short_hash same_case waiting_flow ((122 ∷ [])) answers

abbrev events : List Event
events =
    started ((122 ∷ [])) ∷ received (asked, (98 ∷ []), (99 ∷ [])) ∷ deregistered ((121 ∷ [])) ∷ []

run-Increasing_example :
    Increasing 1 (run is_ascii_word short_hash short_hash same_case waiting_flow events)
run-Increasing_example =
    run-Increasing is_ascii_word short_hash short_hash same_case waiting_flow events

abbrev granted : SipResponse
granted = record {
  status_code = 200;
  reason = (79 ∷ 75 ∷ []);
  headers =
      ((67 ∷ 83 ∷ 101 ∷ 113 ∷ []), (49 ∷ 32 ∷ 82 ∷ 69 ∷ 71 ∷ 73 ∷ 83 ∷ 84 ∷ 69 ∷ 82 ∷ []))
      ∷ (
        (67 ∷ 111 ∷ 110 ∷ 116 ∷ 97 ∷ 99 ∷ 116 ∷ []),
        (60 ∷ 115 ∷ 105 ∷ 112 ∷ 58 ∷ 98 ∷ 64 ∷ 104 ∷ 62 ∷ 59 ∷ 101 ∷ 120 ∷ 112 ∷ 105 ∷ 114 ∷ 101
            ∷ 115 ∷ 61 ∷ 57 ∷ 44 ∷ 32 ∷ 60 ∷ 115 ∷ 105 ∷ 112 ∷ 58 ∷ 97 ∷ 64 ∷ 104 ∷ 58 ∷ 53 ∷ 48
            ∷ 54 ∷ 49 ∷ 62 ∷ 59 ∷ 101 ∷ 120 ∷ 112 ∷ 105 ∷ 114 ∷ 101 ∷ 115 ∷ 61 ∷ 54 ∷ 48 ∷ []),
      )
      ∷ [];
  body = [];
}

abbrev after_grant : RegistrationFlow
after_grant = (handle is_ascii_word short_hash short_hash same_case waiting_flow granted [] []).0

handle_registered_example : (0 < 60) × (after_grant.is_registered ≡ true) × (after_grant.txn ≡ none)
unfolding handle handle_at check_cseq header cseq_matches parse_decimal first_word skip_spaces
    behind_first handle_success granted_expires chosen find_ours bindings headers_all
    split_header_list strip advance advance_entry find_name_addr name_addr_from name_addr_parts
    scan_entries drop_end partition read show split answer_params bare_value build_authorization
    challenge_of compute_ha1 escape find_params hex param param_behind param_here param_value
    parse_challenge pick_best_challenge pick_from quoted quoted_body rank render render_one replace
    response_params span unescape build_request header_lines utf8_length behind_word binding_uri
    contact_binding_matches expires_token rpartition same_binding split_binding split_host_port
    answer begin_with build handle_brief handle_challenge min_expires next_request parse_all
    register_headers retry_expires strongest_challenge
handle_registered_example =
    handle_registered is_ascii_word short_hash short_hash same_case waiting_flow
      (record { cseq = 1; requested_expires = 300; challenged = false }) granted [] [] 60 refl
      (omega arith) refl

-- The Contacts of another device and of the flow, which has the port of TLS written out.
abbrev other_contact : Text
other_contact =
    (60 ∷ 115 ∷ 105 ∷ 112 ∷ 58 ∷ 98 ∷ 64 ∷ 104 ∷ 62 ∷ 59 ∷ 101 ∷ 120 ∷ 112 ∷ 105 ∷ 114 ∷ 101 ∷ 115
      ∷ 61 ∷ 57 ∷ [])

abbrev own_contact : Text
own_contact =
    (60 ∷ 115 ∷ 105 ∷ 112 ∷ 58 ∷ 97 ∷ 64 ∷ 104 ∷ 58 ∷ 53 ∷ 48 ∷ 54 ∷ 49 ∷ 62 ∷ 59 ∷ 101 ∷ 120 ∷ 112
      ∷ 105 ∷ 114 ∷ 101 ∷ 115 ∷ 61 ∷ 54 ∷ 48 ∷ [])

other_contact_lem : ¬ IsOwn same_case waiting_flow other_contact
unfolding bindings headers_all split_header_list strip scan_entries advance_entry
    contact_binding_matches binding_uri find_name_addr name_addr_parts name_addr_from partition
    split_binding rpartition split split_host_port same_binding advance drop_end read skip_spaces
    parse_decimal expires_token behind_word span
other_contact_lem own =
    let taken : is_ours same_case waiting_flow other_contact ≡ true =
      IsOwn-is_ours same_case waiting_flow other_contact own in
    cc

own_contact-IsOwn : IsOwn same_case waiting_flow own_contact
unfolding bindings headers_all split_header_list strip scan_entries advance_entry
    contact_binding_matches binding_uri find_name_addr name_addr_parts name_addr_from partition
    split_binding rpartition split split_host_port same_binding advance drop_end read skip_spaces
    parse_decimal expires_token behind_word span
own_contact-IsOwn = is_ours-IsOwn same_case waiting_flow own_contact refl

granted_expires-is_ours_example :
    ((token : Text)
      → expires_token own_contact ≡ some token
      → granted_expires same_case waiting_flow granted ≡ parse_decimal token)
    × (expires_token own_contact ≡ none
        → granted_expires same_case waiting_flow granted
          ≡ some (expires_of (header granted.headers expires_name) 300))
unfolding bindings headers_all split_header_list strip scan_entries advance_entry
    contact_binding_matches binding_uri find_name_addr name_addr_parts name_addr_from partition
    split_binding rpartition split split_host_port same_binding advance drop_end read skip_spaces
    parse_decimal expires_token behind_word span
granted_expires-is_ours_example =
    granted_expires-is_ours same_case waiting_flow granted (other_contact ∷ []) [] own_contact refl
      (other_contact_lem, tt) own_contact-IsOwn

abbrev weak : DigestChallenge
weak = record {
  realm = (114 ∷ []);
  nonce = (110 ∷ []);
  algorithm = (77 ∷ 68 ∷ 53 ∷ []);
  qop = (97 ∷ 117 ∷ 116 ∷ 104 ∷ []) ∷ [];
  opaque = some ((111 ∷ []));
}

abbrev strong : DigestChallenge
strong = record {
  realm = (114 ∷ []);
  nonce = (110 ∷ []);
  algorithm = (83 ∷ 72 ∷ 65 ∷ 45 ∷ 50 ∷ 53 ∷ 54 ∷ []);
  qop = (97 ∷ 117 ∷ 116 ∷ 104 ∷ []) ∷ [];
  opaque = none;
}

abbrev offers : List DigestChallenge
offers = weak ∷ strong ∷ []

pick_best_challenge-IsStrongest_example :
    ((ch : DigestChallenge) × (pick_best_challenge offers ≡ ok ch) × IsStrongest 4 offers ch)
    ⊎ ((e : DigestError) × (pick_best_challenge offers ≡ err e)
        × All (λ (ch : DigestChallenge). rank_of ch ≡ none) offers)
pick_best_challenge-IsStrongest_example = pick_best_challenge-IsStrongest offers

abbrev authorization : Text
authorization =
    (68 ∷ 105 ∷ 103 ∷ 101 ∷ 115 ∷ 116 ∷ 32 ∷ 117 ∷ 115 ∷ 101 ∷ 114 ∷ 110 ∷ 97 ∷ 109 ∷ 101 ∷ 61 ∷ 34
      ∷ 117 ∷ 34 ∷ 44 ∷ 32 ∷ 114 ∷ 101 ∷ 97 ∷ 108 ∷ 109 ∷ 61 ∷ 34 ∷ 114 ∷ 34 ∷ 44 ∷ 32 ∷ 110 ∷ 111
      ∷ 110 ∷ 99 ∷ 101 ∷ 61 ∷ 34 ∷ 110 ∷ 34 ∷ 44 ∷ 32 ∷ 117 ∷ 114 ∷ 105 ∷ 61 ∷ 34 ∷ 115 ∷ 105 ∷ 112
      ∷ 58 ∷ 104 ∷ 34 ∷ 44 ∷ 32 ∷ 97 ∷ 108 ∷ 103 ∷ 111 ∷ 114 ∷ 105 ∷ 116 ∷ 104 ∷ 109 ∷ 61 ∷ 77 ∷ 68
      ∷ 53 ∷ 44 ∷ 32 ∷ 113 ∷ 111 ∷ 112 ∷ 61 ∷ 97 ∷ 117 ∷ 116 ∷ 104 ∷ 44 ∷ 32 ∷ 110 ∷ 99 ∷ 61 ∷ 48
      ∷ 48 ∷ 48 ∷ 48 ∷ 48 ∷ 48 ∷ 48 ∷ 49 ∷ 44 ∷ 32 ∷ 99 ∷ 110 ∷ 111 ∷ 110 ∷ 99 ∷ 101 ∷ 61 ∷ 34 ∷ 99
      ∷ 34 ∷ 44 ∷ 32 ∷ 114 ∷ 101 ∷ 115 ∷ 112 ∷ 111 ∷ 110 ∷ 115 ∷ 101 ∷ 61 ∷ 34 ∷ 97 ∷ 34 ∷ 44 ∷ 32
      ∷ 111 ∷ 112 ∷ 97 ∷ 113 ∷ 117 ∷ 101 ∷ 61 ∷ 34 ∷ 111 ∷ 34 ∷ [])

parse_challenge-build_authorization_example :
    parse_challenge is_ascii_word authorization ≡ ok (echo weak)
unfolding build_authorization hermes_voip.Digest.rank hermes_voip.Digest.render
    hermes_voip.Digest.answer_params hermes_voip.Digest.render_one hermes_voip.Digest.quoted
    hermes_voip.Digest.response_params escape hermes_voip.Digest.replace hermes_voip.Digest.hex
parse_challenge-build_authorization_example =
    parse_challenge-build_authorization is_ascii_word short_hash short_hash weak
      (record { username = (117 ∷ []); password = (112 ∷ []) })
      ((82 ∷ 69 ∷ 71 ∷ 73 ∷ 83 ∷ 84 ∷ 69 ∷ 82 ∷ [])) ((115 ∷ 105 ∷ 112 ∷ 58 ∷ 104 ∷ [])) ((99 ∷ []))
      1 authorization (λ c h. refl) refl refl refl

abbrev display : Text
display = (60 ∷ 98 ∷ 62 ∷ 32 ∷ 34 ∷ 92 ∷ [])

name_addr_parts-escape_example :
    name_addr_parts (
      34
      ∷ (escape display
          ++ (34
              ∷ 32
              ∷ 60
              ∷ ((115 ∷ 105 ∷ 112 ∷ 58 ∷ 97 ∷ [])
                  ++ (62 ∷ (59 ∷ 116 ∷ 97 ∷ 103 ∷ 61 ∷ 120 ∷ []))))))
    ≡ some (
      34 ∷ (escape display ++ (34 ∷ 32 ∷ [])),
      (115 ∷ 105 ∷ 112 ∷ 58 ∷ 97 ∷ []),
      (59 ∷ 116 ∷ 97 ∷ 103 ∷ 61 ∷ 120 ∷ []),
    )
name_addr_parts-escape_example =
    name_addr_parts-escape display ((115 ∷ 105 ∷ 112 ∷ 58 ∷ 97 ∷ []))
      ((59 ∷ 116 ∷ 97 ∷ 103 ∷ 61 ∷ 120 ∷ [])) refl

abbrev routes : Text × Text
routes = (
  (82 ∷ 101 ∷ 99 ∷ 111 ∷ 114 ∷ 100 ∷ 45 ∷ 82 ∷ 111 ∷ 117 ∷ 116 ∷ 101 ∷ []),
  (60 ∷ 115 ∷ 105 ∷ 112 ∷ 58 ∷ 112 ∷ 59 ∷ 108 ∷ 114 ∷ 62 ∷ 44 ∷ 32 ∷ 60 ∷ 115 ∷ 105 ∷ 112 ∷ 58 ∷ 113
      ∷ 59 ∷ 108 ∷ 114 ∷ 62 ∷ []),
)

abbrev invite : SipRequest
invite = record {
  method = (73 ∷ 78 ∷ 86 ∷ 73 ∷ 84 ∷ 69 ∷ []);
  request_uri = (115 ∷ 105 ∷ 112 ∷ 58 ∷ 98 ∷ 64 ∷ 104 ∷ []);
  headers =
      (
        (86 ∷ 105 ∷ 97 ∷ []),
        (83 ∷ 73 ∷ 80 ∷ 47 ∷ 50 ∷ 46 ∷ 48 ∷ 47 ∷ 84 ∷ 76 ∷ 83 ∷ 32 ∷ 104 ∷ 58 ∷ 53 ∷ 48 ∷ 54 ∷ 49
            ∷ 59 ∷ 98 ∷ 114 ∷ 97 ∷ 110 ∷ 99 ∷ 104 ∷ 61 ∷ 122 ∷ []),
      )
      ∷ (
        (70 ∷ 114 ∷ 111 ∷ 109 ∷ []),
        (60 ∷ 115 ∷ 105 ∷ 112 ∷ 58 ∷ 97 ∷ 64 ∷ 104 ∷ 62 ∷ 59 ∷ 116 ∷ 97 ∷ 103 ∷ 61 ∷ 120 ∷ []),
      )
      ∷ ((84 ∷ 111 ∷ []), (60 ∷ 115 ∷ 105 ∷ 112 ∷ 58 ∷ 98 ∷ 64 ∷ 104 ∷ 62 ∷ []))
      ∷ ((67 ∷ 97 ∷ 108 ∷ 108 ∷ 45 ∷ 73 ∷ 68 ∷ []), (105 ∷ []))
      ∷ ((67 ∷ 83 ∷ 101 ∷ 113 ∷ []), (55 ∷ 32 ∷ 73 ∷ 78 ∷ 86 ∷ 73 ∷ 84 ∷ 69 ∷ []))
      ∷ (
        (67 ∷ 111 ∷ 110 ∷ 116 ∷ 97 ∷ 99 ∷ 116 ∷ []),
        (60 ∷ 115 ∷ 105 ∷ 112 ∷ 58 ∷ 97 ∷ 64 ∷ 104 ∷ 62 ∷ []),
      )
      ∷ routes
      ∷ [];
  body = [];
}

abbrev accepted : SipResponse
accepted = record {
  status_code = 200;
  reason = (79 ∷ 75 ∷ []);
  headers =
      (
        (84 ∷ 111 ∷ []),
        (60 ∷ 115 ∷ 105 ∷ 112 ∷ 58 ∷ 98 ∷ 64 ∷ 104 ∷ 62 ∷ 59 ∷ 116 ∷ 97 ∷ 103 ∷ 61 ∷ 121 ∷ []),
      )
      ∷ (
        (67 ∷ 111 ∷ 110 ∷ 116 ∷ 97 ∷ 99 ∷ 116 ∷ []),
        (60 ∷ 115 ∷ 105 ∷ 112 ∷ 58 ∷ 98 ∷ 64 ∷ 113 ∷ 62 ∷ []),
      )
      ∷ routes
      ∷ [];
  body = [];
}

abbrev caller : Dialog
caller = record {
  call_id = (105 ∷ []);
  local_uri = (115 ∷ 105 ∷ 112 ∷ 58 ∷ 97 ∷ 64 ∷ 104 ∷ []);
  local_tag = (120 ∷ []);
  remote_uri = (115 ∷ 105 ∷ 112 ∷ 58 ∷ 98 ∷ 64 ∷ 104 ∷ []);
  remote_tag = (121 ∷ []);
  remote_target = (115 ∷ 105 ∷ 112 ∷ 58 ∷ 98 ∷ 64 ∷ 113 ∷ []);
  route_set =
      (60 ∷ 115 ∷ 105 ∷ 112 ∷ 58 ∷ 113 ∷ 59 ∷ 108 ∷ 114 ∷ 62 ∷ [])
      ∷ (60 ∷ 115 ∷ 105 ∷ 112 ∷ 58 ∷ 112 ∷ 59 ∷ 108 ∷ 114 ∷ 62 ∷ [])
      ∷ [];
  local_contact = (60 ∷ 115 ∷ 105 ∷ 112 ∷ 58 ∷ 97 ∷ 64 ∷ 104 ∷ 62 ∷ []);
  local_sent_by = (104 ∷ 58 ∷ 53 ∷ 48 ∷ 54 ∷ 49 ∷ []);
  transport = (84 ∷ 76 ∷ 83 ∷ []);
  local_cseq = 7;
  sdp_version = 0;
  user_agent = (104 ∷ 101 ∷ 114 ∷ 109 ∷ 101 ∷ 115 ∷ 45 ∷ 118 ∷ 111 ∷ 105 ∷ 112 ∷ 47 ∷ 48 ∷ []);
}

abbrev callee : Dialog
callee = record {
  call_id = (105 ∷ []);
  local_uri = (115 ∷ 105 ∷ 112 ∷ 58 ∷ 98 ∷ 64 ∷ 104 ∷ []);
  local_tag = (121 ∷ []);
  remote_uri = (115 ∷ 105 ∷ 112 ∷ 58 ∷ 97 ∷ 64 ∷ 104 ∷ []);
  remote_tag = (120 ∷ []);
  remote_target = (115 ∷ 105 ∷ 112 ∷ 58 ∷ 97 ∷ 64 ∷ 104 ∷ []);
  route_set =
      (60 ∷ 115 ∷ 105 ∷ 112 ∷ 58 ∷ 112 ∷ 59 ∷ 108 ∷ 114 ∷ 62 ∷ [])
      ∷ (60 ∷ 115 ∷ 105 ∷ 112 ∷ 58 ∷ 113 ∷ 59 ∷ 108 ∷ 114 ∷ 62 ∷ [])
      ∷ [];
  local_contact = (99 ∷ []);
  local_sent_by = (115 ∷ []);
  transport = (84 ∷ 76 ∷ 83 ∷ []);
  local_cseq = 0;
  sdp_version = 0;
  user_agent = (118 ∷ []);
}

from_invite_2xx-from_inbound_invite_example :
    (caller.call_id ≡ callee.call_id)
    × (caller.local_tag ≡ callee.remote_tag)
    × (caller.remote_tag ≡ callee.local_tag)
    × (caller.local_uri ≡ callee.remote_uri)
    × (caller.route_set ≡ reverse callee.route_set)
unfolding from_invite_2xx header uri_and_tag addr_spec find_name_addr name_addr_parts name_addr_from
    partition strip tag_of tag_param find_tag split_params split_from via_transport_sent_by
    via_parts split advance advance_entry params_after_addr params_from scan_entries
    split_header_list drop_end read skip_spaces span_digits cseq cseq_parts record_route_set
    split_routes span headers_all from_inbound_invite
from_invite_2xx-from_inbound_invite_example =
    from_invite_2xx-from_inbound_invite invite accepted ((121 ∷ [])) ((99 ∷ [])) ((115 ∷ []))
      ((84 ∷ 76 ∷ 83 ∷ [])) ((118 ∷ [])) ((115 ∷ 105 ∷ 112 ∷ 58 ∷ 98 ∷ 64 ∷ 104 ∷ [])) caller callee
      refl refl refl refl

-- A dialog with one route.
abbrev pub routed : Dialog
routed = record caller {
  route_set = (60 ∷ 115 ∷ 105 ∷ 112 ∷ 58 ∷ 112 ∷ 59 ∷ 108 ∷ 114 ∷ 62 ∷ []) ∷ [];
}

abbrev orders : List Order
orders = ((66 ∷ 89 ∷ 69 ∷ []), [], [], (122 ∷ [])) ∷ []

abbrev bye : Text
bye =
    (66 ∷ 89 ∷ 69 ∷ 32 ∷ 115 ∷ 105 ∷ 112 ∷ 58 ∷ 98 ∷ 64 ∷ 113 ∷ 32 ∷ 83 ∷ 73 ∷ 80 ∷ 47 ∷ 50 ∷ 46
      ∷ 48 ∷ 13 ∷ 10 ∷ 86 ∷ 105 ∷ 97 ∷ 58 ∷ 32 ∷ 83 ∷ 73 ∷ 80 ∷ 47 ∷ 50 ∷ 46 ∷ 48 ∷ 47 ∷ 84 ∷ 76
      ∷ 83 ∷ 32 ∷ 104 ∷ 58 ∷ 53 ∷ 48 ∷ 54 ∷ 49 ∷ 59 ∷ 98 ∷ 114 ∷ 97 ∷ 110 ∷ 99 ∷ 104 ∷ 61 ∷ 122 ∷ 59
      ∷ 114 ∷ 112 ∷ 111 ∷ 114 ∷ 116 ∷ 13 ∷ 10 ∷ 77 ∷ 97 ∷ 120 ∷ 45 ∷ 70 ∷ 111 ∷ 114 ∷ 119 ∷ 97 ∷ 114
      ∷ 100 ∷ 115 ∷ 58 ∷ 32 ∷ 55 ∷ 48 ∷ 13 ∷ 10 ∷ 82 ∷ 111 ∷ 117 ∷ 116 ∷ 101 ∷ 58 ∷ 32 ∷ 60 ∷ 115
      ∷ 105 ∷ 112 ∷ 58 ∷ 112 ∷ 59 ∷ 108 ∷ 114 ∷ 62 ∷ 13 ∷ 10 ∷ 70 ∷ 114 ∷ 111 ∷ 109 ∷ 58 ∷ 32 ∷ 60
      ∷ 115 ∷ 105 ∷ 112 ∷ 58 ∷ 97 ∷ 64 ∷ 104 ∷ 62 ∷ 59 ∷ 116 ∷ 97 ∷ 103 ∷ 61 ∷ 120 ∷ 13 ∷ 10 ∷ 84
      ∷ 111 ∷ 58 ∷ 32 ∷ 60 ∷ 115 ∷ 105 ∷ 112 ∷ 58 ∷ 98 ∷ 64 ∷ 104 ∷ 62 ∷ 59 ∷ 116 ∷ 97 ∷ 103 ∷ 61
      ∷ 121 ∷ 13 ∷ 10 ∷ 67 ∷ 97 ∷ 108 ∷ 108 ∷ 45 ∷ 73 ∷ 68 ∷ 58 ∷ 32 ∷ 105 ∷ 13 ∷ 10 ∷ 67 ∷ 83 ∷ 101
      ∷ 113 ∷ 58 ∷ 32 ∷ 56 ∷ 32 ∷ 66 ∷ 89 ∷ 69 ∷ 13 ∷ 10 ∷ 67 ∷ 111 ∷ 110 ∷ 116 ∷ 97 ∷ 99 ∷ 116 ∷ 58
      ∷ 32 ∷ 60 ∷ 115 ∷ 105 ∷ 112 ∷ 58 ∷ 97 ∷ 64 ∷ 104 ∷ 62 ∷ 13 ∷ 10 ∷ 85 ∷ 115 ∷ 101 ∷ 114 ∷ 45
      ∷ 65 ∷ 103 ∷ 101 ∷ 110 ∷ 116 ∷ 58 ∷ 32 ∷ 104 ∷ 101 ∷ 114 ∷ 109 ∷ 101 ∷ 115 ∷ 45 ∷ 118 ∷ 111
      ∷ 105 ∷ 112 ∷ 47 ∷ 48 ∷ 13 ∷ 10 ∷ 67 ∷ 111 ∷ 110 ∷ 116 ∷ 101 ∷ 110 ∷ 116 ∷ 45 ∷ 76 ∷ 101 ∷ 110
      ∷ 103 ∷ 116 ∷ 104 ∷ 58 ∷ 32 ∷ 48 ∷ 13 ∷ 10 ∷ 13 ∷ 10 ∷ [])

send_all-Numbered_example :
    Numbered 7 (bye ∷ [])
    × (length (bye ∷ []) ≡ length orders)
    × (record routed { local_cseq = 8 }
        ≡ record routed { local_cseq = routed.local_cseq + length orders })
unfolding send_all build_in_dialog_request hermes_voip.Dialog.has_lr
    hermes_voip.Base.Text.skip_spaces hermes_voip.Message.build_request request_headers
    hermes_voip.Base.Text.show
send_all-Numbered_example =
    send_all-Numbered is_ascii_word orders routed (record routed { local_cseq = 8 }) (bye ∷ []) refl

build_in_dialog_request-IsFromDialog_example :
    (request : SipRequest) × (parse_request bye ≡ ok request)
    × IsFromDialog routed (66 ∷ 89 ∷ 69 ∷ []) [] [] request
    × (record routed { local_cseq = 8 } ≡ record routed { local_cseq = routed.local_cseq + 1 })
    × (8 < max_cseq)
unfolding build_in_dialog_request hermes_voip.Dialog.has_lr hermes_voip.Base.Text.skip_spaces
    hermes_voip.Message.build_request request_headers hermes_voip.Base.Text.show
    hermes_voip.Base.Text.strip
build_in_dialog_request-IsFromDialog_example =
    build_in_dialog_request-IsFromDialog is_ascii_word routed (record routed { local_cseq = 8 })
      ((66 ∷ 89 ∷ 69 ∷ [])) [] [] ((122 ∷ [])) bye refl refl
      (refl, (refl, (refl, (refl, (refl, (refl, (refl, (refl, (refl, tt)))))))))
      (record { open_angle = refl; full = refl; trimmed = refl; token = refl })
      (record { open_angle = refl; full = refl; trimmed = refl; token = refl })

abbrev manager : Manager
manager = record { calls = []; extensions = ((49 ∷ []), 4) ∷ []; default_extension = (49 ∷ []) }

-- The request of the caller, as the callee gets it.
abbrev hang_up : SipRequest
hang_up = record {
  method = (66 ∷ 89 ∷ 69 ∷ []);
  request_uri = (115 ∷ 105 ∷ 112 ∷ 58 ∷ 98 ∷ 64 ∷ 113 ∷ []);
  headers = request_headers caller ((66 ∷ 89 ∷ 69 ∷ [])) [] ((122 ∷ [])) ++ [];
  body = [];
}

route_request-request_headers_example :
    route_request (add_call manager (dialog_id callee) 9) hang_up ≡ in_dialog 9 hang_up
route_request-request_headers_example =
    route_request-request_headers manager caller callee 9 ((66 ∷ 89 ∷ 69 ∷ [])) [] [] ((122 ∷ []))
      ((115 ∷ 105 ∷ 112 ∷ 58 ∷ 98 ∷ 64 ∷ 113 ∷ [])) [] refl refl refl refl refl refl refl
