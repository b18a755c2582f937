-- ===== src/Checks/Signalling.antt =====
-- src/hermes_voip/session_timer.py, src/hermes_voip/message.py,
-- src/hermes_voip/transport/transaction.py: small runs.
use hermes_voip.Base.{◌≡◌, refl, [], ◌∷◌, Option, none, some, Result, ok, err, arith, All}
use hermes_voip.Base.Text.{Text, show}
use hermes_voip.SessionTimer.{uas, parse, build_session_expires_value}
use hermes_voip.SessionTimer.Header.{parse-build_session_expires_value}
use hermes_voip.Message.{Headers, build_request}
use hermes_voip.Transaction.{
  InviteClientTransaction, TransactionState, TransactionError, completed, terminated, proceeding,
  client, ack_for_response, build_ack, on_final_sent, absorb_ack, via_name, from_name, to_name,
  call_id_name, cseq_name, invite_word, ack_word,
}
use hermes_voip.Message.Parse.{SipRequest, SipResponse}
use hermes_voip.Transaction.Traces.{responses, responses_same_ack, SendsOnly}

parse-build_session_expires_value_example :
    parse (build_session_expires_value 1800 uas)
    ≡ ok (record { delta = 1800; refresher = some uas })
unfolding show
parse-build_session_expires_value_example = parse-build_session_expires_value 1800 uas (omega arith)

-- `INVITE sip:b` with the headers that an ACK repeats.
abbrev sip_b : Text
sip_b = 115 ∷ 105 ∷ 112 ∷ 58 ∷ 98 ∷ []

abbrev invite_b : SipRequest
invite_b = record {
  method = invite_word;
  request_uri = sip_b;
  headers =
      (via_name, 118 ∷ [])
      ∷ (from_name, 97 ∷ [])
      ∷ (call_id_name, 105 ∷ [])
      ∷ (cseq_name, 49 ∷ 32 ∷ invite_word)
      ∷ [];
  body = [];
}

abbrev busy : SipResponse
busy = record { status_code = 486; reason = []; headers = (to_name, 98 ∷ []) ∷ []; body = [] }

abbrev ringing : SipResponse
ringing = record { status_code = 180; reason = []; headers = []; body = [] }

abbrev text_of : Result TransactionError (Option Text) → Text
text_of r = elim r [ ok o ↦ elim o [ some text ↦ text | none ↦ [] ] | err _ ↦ [] ]

abbrev the_ack : Text
the_ack = text_of (ack_for_response (client invite_b) busy).1

responses_same_ack_example :
    All
      (SendsOnly the_ack)
      (responses (ack_for_response (client invite_b) busy).0 (ringing ∷ busy ∷ [])).1
unfolding ack_for_response client build_ack hermes_voip.Transaction.ack_headers
    hermes_voip.Transaction.cseq_number hermes_voip.Message.parse_decimal build_request show
responses_same_ack_example =
    responses_same_ack (client invite_b) busy the_ack (ringing ∷ busy ∷ []) refl
