-- ===== src/Dialog.antt =====
-- src/hermes_voip/dialog.py: the identity, the routes and the counters of a dialog. The branch of a
-- request, which is drawn at random, is passed.
pub mod Ends
pub mod Requests
pub mod Received
use hermes_voip.Base.{
  ℕ, ◌+◌, ◌^◌, Bool, true, false, not, ◌&&◌, ◌||◌, ◌==◌, ltb, leb, if◌then◌else◌, List, [], ◌∷◌,
  ◌++◌, map, drop, length, Option, none, some, Result, ok, err, guard, or_fail, ◌>>=◌, ◌>>◌,
}
use hermes_voip.Base.Text.{
  Text, is_space, skip_spaces, strip, is_empty, lower_char, is_digit, span_digits, read, split, all,
  decimal,
}
use hermes_voip.Message.{Headers, MessageError, header, headers_all, build_request}
use hermes_voip.Message.Parse.{SipRequest, SipResponse, starts_with}
use hermes_voip.Transaction.{
  via_name, max_forwards_name, route_name, from_name, to_name, call_id_name, cseq_name,
}
use hermes_voip.Address.{
  split_header_list, find_name_addr, params_after_addr, tag_param, is_tag, is_tag_char,
}
use hermes_voip.Digest.{span}

pub data DialogError : Type 0 where
  missing_header empty_addr_spec no_local_tag no_remote_tag malformed_via malformed_cseq :
      DialogError
  too_many_digits cseq_out_of_range strict_router cseq_exhausted : DialogError
  unwritable : MessageError → DialogError

pub record Dialog : Type 0 where
  pub call_id : Text
  pub local_uri : Text
  pub local_tag : Text
  pub remote_uri : Text
  pub remote_tag : Text
  pub remote_target : Text
  pub route_set : List Text
  pub local_contact : Text
  pub local_sent_by : Text
  pub transport : Text
  pub local_cseq : ℕ
  pub sdp_version : ℕ
  pub user_agent : Text

abbrev pub dialog_id : Dialog → Text × Text × Text
dialog_id d = (d.call_id, d.local_tag, d.remote_tag)

unfoldable pub with_next_sdp_version : Dialog → Dialog
with_next_sdp_version d = record d { sdp_version = d.sdp_version + 1 }

unfoldable pub with_remote_target : Dialog → Text → Dialog
with_remote_target d target = record d { remote_target = target }

abbrev pub contact_name : Text
contact_name = 67 ∷ 111 ∷ 110 ∷ 116 ∷ 97 ∷ 99 ∷ 116 ∷ []

abbrev pub record_route_name : Text
record_route_name = 82 ∷ 101 ∷ 99 ∷ 111 ∷ 114 ∷ 100 ∷ 45 ∷ 82 ∷ 111 ∷ 117 ∷ 116 ∷ 101 ∷ []

abbrev pub user_agent_name : Text
user_agent_name = 85 ∷ 115 ∷ 101 ∷ 114 ∷ 45 ∷ 65 ∷ 103 ∷ 101 ∷ 110 ∷ 116 ∷ []

abbrev pub default_user_agent : Text
default_user_agent = 104 ∷ 101 ∷ 114 ∷ 109 ∷ 101 ∷ 115 ∷ 45 ∷ 118 ∷ 111 ∷ 105 ∷ 112 ∷ 47 ∷ 48 ∷ []

-- `_MAX_CSEQ`.
abbrev pub max_cseq : ℕ
max_cseq = 2 ^ 31

-- `_record_route_set`.
unfoldable pub split_routes : List Text → List Text
split_routes [] = []
split_routes (h ∷ hs) = split_header_list h ++ split_routes hs

unfoldable pub record_route_set : Headers → List Text
record_route_set hs = split_routes (headers_all hs record_route_name)

-- `_require`.
abbrev pub require : Headers → Text → Result DialogError Text
require hs name = or_fail (header hs name) missing_header

-- `_addr_spec`.
abbrev pub addr_of : Text → Text
addr_of value = elim (find_name_addr value) [
  | some (spec, trailing) ↦ strip spec
  | none ↦ strip (split 59 value).0
]

unfoldable pub addr_spec : Text → Result DialogError Text
addr_spec value = if is_empty (addr_of value) then err empty_addr_spec else ok (addr_of value)

-- `_uri_and_tag`.
unfoldable pub tag_of : Text → Option Text
tag_of value = elim (find_name_addr value) [
  | some (spec, trailing) ↦ tag_param trailing
  | none ↦ tag_param (params_after_addr value)
]

unfoldable pub uri_and_tag : Text → Result DialogError (Text × Option Text)
uri_and_tag value = do uri ← addr_spec value; ok (uri, tag_of value)

-- The match of `_VIA_TOP`.
unfoldable pub via_parts : Text → Option (Text × Text)
via_parts top =
    let transport = span (λ (c : ℕ). not (is_space c)) (drop 8 top) in
    let sent_by = (span (λ (c : ℕ). not (is_space c || c == 59)) (skip_spaces transport.1)).0 in
    if starts_with (83 ∷ 73 ∷ 80 ∷ 47 ∷ 50 ∷ 46 ∷ 48 ∷ 47 ∷ []) top
      && (not (is_empty transport.0) && not (is_empty sent_by))
    then some (transport.0, sent_by)
    else none

-- `_via_transport_sent_by`.
unfoldable pub via_transport_sent_by : Text → Result DialogError (Text × Text)
via_transport_sent_by value = or_fail (via_parts (strip (split 44 value).0)) malformed_via

-- `\s` with re.ASCII.
abbrev pub is_ascii_space : ℕ → Bool
is_ascii_space c = (leb 9 c && leb c 13) || c == 32

-- The match of `_CSEQ`: the digits and the method.
unfoldable pub cseq_parts : Text → Option (Text × Text)
cseq_parts s =
    let digits = span_digits s in
    let gap = span is_ascii_space digits.1 in
    if not (is_empty digits.0) && (not (is_empty gap.0) && is_tag gap.1)
    then some (digits.0, gap.1)
    else none

-- `_cseq`. `int` refuses more than 4300 digits.
unfoldable pub cseq : Text → Result DialogError (ℕ × Text)
cseq value = do
  (digits, method) ← or_fail (cseq_parts (strip value)) malformed_cseq
  guard (leb (length digits) 4300) too_many_digits
  guard (ltb (read 0 digits) max_cseq) cseq_out_of_range
  ok (read 0 digits, method)

abbrev pub agent_of : Option Text → Text
agent_of none = default_user_agent
agent_of (some text) = if is_empty text then default_user_agent else text

abbrev pub reverse : List Text → List Text
reverse [] = []
reverse (x ∷ xs) = reverse xs ++ x ∷ []

-- `Dialog.from_invite_2xx`.
unfoldable pub from_invite_2xx : SipRequest → SipResponse → Result DialogError Dialog
from_invite_2xx invite response = do
  from ← require invite.headers from_name
  (local_uri, from_tag) ← uri_and_tag from
  to ← require response.headers to_name
  (remote_uri, to_tag) ← uri_and_tag to
  local_tag ← or_fail from_tag no_local_tag
  remote_tag ← or_fail to_tag no_remote_tag
  via ← require invite.headers via_name
  (transport, sent_by) ← via_transport_sent_by via
  cseq_text ← require invite.headers cseq_name
  (number, method) ← cseq cseq_text
  call_id ← require invite.headers call_id_name
  contact ← require response.headers contact_name
  target ← addr_spec contact
  local_contact ← require invite.headers contact_name
  ok (record {
    call_id = call_id;
    local_uri = local_uri;
    local_tag = local_tag;
    remote_uri = remote_uri;
    remote_tag = remote_tag;
    remote_target = target;
    route_set = reverse (record_route_set response.headers);
    local_contact = local_contact;
    local_sent_by = sent_by;
    transport = transport;
    local_cseq = number;
    sdp_version = 0;
    user_agent = agent_of (header invite.headers user_agent_name);
  })

-- `Dialog.from_inbound_invite`.
unfoldable pub from_inbound_invite :
    SipRequest → Text → Text → Text → Text → Text → Result DialogError Dialog
from_inbound_invite invite local_tag local_contact local_sent_by transport user_agent = do
  from ← require invite.headers from_name
  (remote_uri, from_tag) ← uri_and_tag from
  to ← require invite.headers to_name
  (local_uri, to_tag) ← uri_and_tag to
  remote_tag ← or_fail from_tag no_remote_tag
  call_id ← require invite.headers call_id_name
  contact ← require invite.headers contact_name
  target ← addr_spec contact
  ok (record {
    call_id = call_id;
    local_uri = local_uri;
    local_tag = local_tag;
    remote_uri = remote_uri;
    remote_tag = remote_tag;
    remote_target = target;
    route_set = record_route_set invite.headers;
    local_contact = local_contact;
    local_sent_by = local_sent_by;
    transport = transport;
    local_cseq = 0;
    sdp_version = 0;
    user_agent = user_agent;
  })

-- The headers of `build_in_dialog_request`.
unfoldable pub request_headers : Dialog → Text → Headers → Text → Headers
request_headers d method extra_headers branch =
    (
      via_name,
      83 ∷ 73 ∷ 80 ∷ 47 ∷ 50 ∷ 46 ∷ 48 ∷ 47 ∷ []
          ++ (d.transport
              ++ (32
                  ∷ (d.local_sent_by
                      ++ (59 ∷ 98 ∷ 114 ∷ 97 ∷ 110 ∷ 99 ∷ 104 ∷ 61 ∷ []
                          ++ (branch ++ 59 ∷ 114 ∷ 112 ∷ 111 ∷ 114 ∷ 116 ∷ []))))),
    )
    ∷ (max_forwards_name, 55 ∷ 48 ∷ [])
    ∷ (map (λ (route : Text). (route_name, route)) d.route_set
        ++ ((from_name, 60 ∷ (d.local_uri ++ (62 ∷ 59 ∷ 116 ∷ 97 ∷ 103 ∷ 61 ∷ [] ++ d.local_tag)))
            ∷ (to_name, 60 ∷ (d.remote_uri ++ (62 ∷ 59 ∷ 116 ∷ 97 ∷ 103 ∷ 61 ∷ [] ++ d.remote_tag)))
            ∷ (call_id_name, d.call_id)
            ∷ (cseq_name, decimal (d.local_cseq + 1) ++ (32 ∷ method))
            ∷ (contact_name, d.local_contact)
            ∷ (user_agent_name, d.user_agent)
            ∷ extra_headers))

abbrev pub as_dialog : Result MessageError Text → Result DialogError Text
as_dialog (ok text) = ok text
as_dialog (err e) = err (unwritable e)

module _ (is_word : ℕ → Bool) where
  -- Whether nothing of a word follows.
  abbrev pub ends_word : Text → Bool
  ends_word [] = true
  ends_word (c ∷ cs) = not (is_word c)

  abbrev pub lr_here : Text → Bool
  lr_here (l ∷ r ∷ cs) = lower_char l == 108 && (lower_char r == 114 && ends_word cs)
  lr_here _ = false

  -- `_LR_PARAM.search`.
  unfoldable pub has_lr : Text → Bool
  has_lr [] = false
  has_lr (c ∷ cs) = (c == 59 && lr_here (skip_spaces cs)) || has_lr cs

  abbrev pub is_loose : List Text → Bool
  is_loose [] = true
  is_loose (route ∷ routes) = has_lr route

  -- `build_in_dialog_request`: the text and the dialog behind it.
  unfoldable pub build_in_dialog_request :
      Dialog → Text → Headers → Text → Text → Result DialogError (Text × Dialog)
  build_in_dialog_request d method extra_headers body branch = do
    guard (is_loose d.route_set) strict_router
    guard (ltb (d.local_cseq + 1) max_cseq) cseq_exhausted
    text ←
        as_dialog (
          build_request method d.remote_target (request_headers d method extra_headers branch) body)
    ok (text, record d { local_cseq = d.local_cseq + 1 })
