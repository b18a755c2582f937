-- ===== src/Transaction/Traces.antt =====
-- src/hermes_voip/transport/transaction.py: what the transactions send and take over whole traces.
use hermes_voip.Base.{
  ℕ, ◌≤◌, ◌≡◌, ◌⊎◌, inl, inr, refl, sym, subst, false, leb, List, [], ◌∷◌, Option, none, some,
  Result, ok, arith, Option-cases, Result-cases, All,
}
use hermes_voip.Base.Text.{Text}
use hermes_voip.Transaction.{
  SipResponse, InviteClientTransaction, TransactionState, TransactionError, completed, terminated,
  ack_for_response, ack_once, build_ack, on_final_sent, absorb_ack,
}
use hermes_voip.Message.Parse.{SipResponse}

-- The responses of a trace, fed one after the other.
unfoldable pub responses :
    InviteClientTransaction
    → List SipResponse
    → InviteClientTransaction × List (Result TransactionError (Option Text))
responses t [] = (t, [])
responses t (r ∷ rs) =
    let step = ack_for_response t r in let rest = responses step.0 rs in (rest.0, step.1 ∷ rest.1)

-- A text that a call gave to send, or nothing.
abbrev pub SendsOnly : Text → Result TransactionError (Option Text) → Type 0
SendsOnly text r = (r ≡ ok none) ⊎ (r ≡ ok (some text))

abbrev pub Silent : Result TransactionError (Option Text) → Type 0
Silent r = r ≡ ok none

step_terminated :
    (t : InviteClientTransaction) (r : SipResponse)
    → t.state ≡ terminated
    → ack_for_response t r ≡ (t, ok none)
unfolding ack_for_response
step_terminated t r h = ground (arith, h)

-- A terminated transaction stays as it is and sends nothing, whatever responses arrive.
pub responses_terminated :
    (t : InviteClientTransaction) (rs : List SipResponse)
    → t.state ≡ terminated
    → ((responses t rs).0 ≡ t) × All Silent (responses t rs).1
unfolding responses
responses_terminated t [] h = (refl, tt)
responses_terminated t (r ∷ rs) h =
    let rest = responses_terminated t rs h in
    subst
      (λ (step : InviteClientTransaction × Result TransactionError (Option Text)).
        ((responses step.0 rs).0 ≡ t) × ((step.1 ≡ ok none) × All Silent (responses step.0 rs).1))
      (sym (step_terminated t r h)) (rest.0, (refl, rest.1))

-- With the ACK built, a call sends it or nothing, and keeps it.
step_kept :
    (t : InviteClientTransaction) (r : SipResponse) (text : Text)
    → t.ack ≡ some text
    → SendsOnly text (ack_for_response t r).1 × ((ack_for_response t r).0.ack ≡ some text)
unfolding ack_for_response ack_once
step_kept t r text kept = (ground (arith, kept), ground (arith, kept))

responses_kept :
    (t : InviteClientTransaction) (text : Text) (rs : List SipResponse)
    → t.ack ≡ some text
    → All (SendsOnly text) (responses t rs).1
unfolding responses
responses_kept t text [] kept = tt
responses_kept t text (r ∷ rs) kept =
    let step = step_kept t r text kept in
    (step.0, responses_kept (ack_for_response t r).0 text rs step.1)

sent-kept :
    (t : InviteClientTransaction) (r : SipResponse) (text : Text)
    → (ack_for_response t r).1 ≡ ok (some text)
    → (ack_for_response t r).0.ack ≡ some text
unfolding ack_for_response
sent-kept t r text h = elim (Result-cases (ack_once t r)) [
  | inl (ack, good) ↦ ground (arith, good)
  | inr (e, bad) ↦ ground (arith, bad)
]

-- After the ACK of a failed INVITE has been sent once, every later call sends the same text or
-- nothing, and none fails, whatever responses arrive.
pub responses_same_ack :
    (t : InviteClientTransaction) (first : SipResponse) (text : Text) (rs : List SipResponse)
    → (ack_for_response t first).1 ≡ ok (some text)
    → All (SendsOnly text) (responses (ack_for_response t first).0 rs).1
responses_same_ack t first text rs h =
    responses_kept (ack_for_response t first).0 text rs (sent-kept t first text h)

-- An ACK is sent only for a final response of failure, and from a new transaction it is the one that
-- `_build_ack` makes of the INVITE and that response.
pub ack_for_response-build_ack :
    (t : InviteClientTransaction) (r : SipResponse) (text : Text)
    → (ack_for_response t r).1 ≡ ok (some text)
    → (300 ≤ r.status_code)
      × (((ack_for_response t r).0.state ≡ completed)
          × ((t.ack ≡ some text) ⊎ (build_ack t.invite r ≡ ok text)))
unfolding ack_for_response ack_once
ack_for_response-build_ack t r text h = elim (Option-cases t.ack) [
  | inl fresh ↦ elim (Result-cases (build_ack t.invite r)) [
    | inl (ack, good) ↦ ground (arith, fresh, good)
    | inr (e, bad) ↦ ground (arith, fresh, bad)
  ]
  | inr (old, kept) ↦ ground (arith, kept)
]

-- Of the ACKs that arrive after a final response was sent, the first is taken if the response was a
-- failure, and no other.
pub absorb_ack_once :
    (s after : TransactionState) (status : ℕ)
    → on_final_sent s status ≡ ok after
    → ((absorb_ack after).1 ≡ leb 300 status) × ((absorb_ack (absorb_ack after).0).1 ≡ false)
unfolding on_final_sent absorb_ack
absorb_ack_once s after status h = ground arith
