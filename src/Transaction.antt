-- ===== src/Transaction.antt =====
-- src/hermes_voip/transport/transaction.py: the two transactions of an INVITE (RFC 3261, 17). The
-- messages that it is given are those of the parser of message.py.
pub mod Traces
use hermes_voip.Base.{
  ℕ, ◌+◌, Bool, true, false, not, ◌&&◌, ltb, leb, if◌then◌else◌, List, [], ◌∷◌, ◌++◌, map, Option,
  none, some, Result, ok, err, guard, or_fail, ◌>>=◌, ◌>>◌,
}
use hermes_voip.Base.Text.{same_text, Text, decimal, is_empty, is_space, skip_spaces}
use hermes_voip.Message.Parse.{SipRequest, SipResponse, ParseError, parse_request}
use hermes_voip.Message.{Headers, MessageError, header, headers_all, build_request, parse_decimal}

pub data TransactionState : Type 0 where
  calling proceeding completed terminated : TransactionState

pub data TransactionError : Type 0 where
  not_invite missing_header malformed_cseq not_final : TransactionError
  unwritable : MessageError → TransactionError
  unparseable : ParseError → TransactionError

abbrev pub via_name : Text
via_name = 86 ∷ 105 ∷ 97 ∷ []

abbrev pub max_forwards_name : Text
max_forwards_name = 77 ∷ 97 ∷ 120 ∷ 45 ∷ 70 ∷ 111 ∷ 114 ∷ 119 ∷ 97 ∷ 114 ∷ 100 ∷ 115 ∷ []

abbrev pub route_name : Text
route_name = 82 ∷ 111 ∷ 117 ∷ 116 ∷ 101 ∷ []

abbrev pub from_name : Text
from_name = 70 ∷ 114 ∷ 111 ∷ 109 ∷ []

abbrev pub to_name : Text
to_name = 84 ∷ 111 ∷ []

abbrev pub call_id_name : Text
call_id_name = 67 ∷ 97 ∷ 108 ∷ 108 ∷ 45 ∷ 73 ∷ 68 ∷ []

abbrev pub cseq_name : Text
cseq_name = 67 ∷ 83 ∷ 101 ∷ 113 ∷ []

abbrev pub invite_word : Text
invite_word = 73 ∷ 78 ∷ 86 ∷ 73 ∷ 84 ∷ 69 ∷ []

abbrev pub ack_word : Text
ack_word = 65 ∷ 67 ∷ 75 ∷ []

-- `_require`.
abbrev pub require : Headers → Text → Result TransactionError Text
require hs name = or_fail (header hs name) missing_header

-- The characters before the first space.
unfoldable pub first_word : Text → Text
first_word [] = []
first_word (c ∷ cs) = let rest = first_word cs in if is_space c then [] else c ∷ rest

-- `_cseq_number`: of `cseq.split()`, only the first part is read.
unfoldable pub cseq_number : Text → Result TransactionError ℕ
unfolding skip_spaces first_word
cseq_number cseq = or_fail (parse_decimal (first_word (skip_spaces cseq))) malformed_cseq

-- The headers of `_build_ack`, in its order.
unfoldable pub ack_headers : SipRequest → SipResponse → Result TransactionError Headers
unfolding header headers_all
ack_headers invite response = do
  via ← require invite.headers via_name
  from ← require invite.headers from_name
  to ← require response.headers to_name
  call_id ← require invite.headers call_id_name
  cseq ← require invite.headers cseq_name
  number ← cseq_number cseq
  ok (
      (via_name, via)
      ∷ (max_forwards_name, 55 ∷ 48 ∷ [])
      ∷ (map (λ (route : Text). (route_name, route)) (headers_all invite.headers route_name)
          ++ ((from_name, from)
              ∷ (to_name, to)
              ∷ (call_id_name, call_id)
              ∷ (cseq_name, decimal number ++ (32 ∷ ack_word))
              ∷ [])))

abbrev pub as_error : Result MessageError Text → Result TransactionError Text
as_error (ok text) = ok text
as_error (err e) = err (unwritable e)

unfoldable pub build_ack : SipRequest → SipResponse → Result TransactionError Text
build_ack invite response = do
  hs ← ack_headers invite response
  as_error (build_request ack_word invite.request_uri hs [])

pub record InviteClientTransaction : Type 0 where
  pub invite : SipRequest
  pub state : TransactionState
  pub ack : Option Text

unfoldable pub client : SipRequest → InviteClientTransaction
client invite = record { invite = invite; state = calling; ack = none }

abbrev pub as_parsed : Result ParseError SipRequest → Result TransactionError SipRequest
as_parsed (ok invite) = ok invite
as_parsed (err e) = err (unparseable e)

-- `InviteClientTransaction.__init__`.
unfoldable pub open_client : Text → Result TransactionError InviteClientTransaction
unfolding parse_request client
open_client invite_text = do
  invite ← as_parsed (parse_request invite_text)
  guard (same_text invite_word invite.method) not_invite
  ok (client invite)

abbrev pub is_terminated : TransactionState → Bool
is_terminated terminated = true
is_terminated _ = false

abbrev pub seen_provisional : TransactionState → TransactionState
seen_provisional calling = proceeding
seen_provisional s = s

-- `self._ack`, built if it is not there.
unfoldable pub ack_once : InviteClientTransaction → SipResponse → Result TransactionError Text
ack_once t response = elim t.ack [ none ↦ build_ack t.invite response | some text ↦ ok text ]

-- `ack_for_response`: the transaction behind the call and the text that is to be sent. An exception
-- leaves the transaction as it was.
unfoldable pub ack_for_response :
    InviteClientTransaction
    → SipResponse
    → InviteClientTransaction × Result TransactionError (Option Text)
unfolding ack_once
ack_for_response t response =
    if is_terminated t.state
    then (t, ok none)
    else if ltb response.status_code 200
    then (record { invite = t.invite; state = seen_provisional t.state; ack = t.ack }, ok none)
    else if ltb response.status_code 300
    then (record { invite = t.invite; state = terminated; ack = t.ack }, ok none)
    else elim (ack_once t response) [
      | err e ↦ (t, err e)
      | ok text ↦ (record { invite = t.invite; state = completed; ack = some text }, ok (some text))
    ]

-- `InviteServerTransaction`: its state is all it has.
abbrev pub server : TransactionState
server = proceeding

unfoldable pub on_final_sent : TransactionState → ℕ → Result TransactionError TransactionState
on_final_sent s status = do
  guard (leb 200 status) not_final
  ok (if leb 300 status then completed else terminated)

unfoldable pub absorb_ack : TransactionState → TransactionState × Bool
absorb_ack completed = (terminated, true)
absorb_ack s = (s, false)
