-- ===== src/Transfer/Progress.antt =====
-- src/hermes_voip/refer.py: what has to be in a NOTIFY for a transfer to count as completed or failed.
use hermes_voip.Base.{ℕ, ◌≤◌, ◌<◌, ◌≡◌, true, some, ok, arith, Option-cases, inl, inr}
use hermes_voip.Base.Text.{Text, read}
use hermes_voip.Message.{header}
use hermes_voip.Message.Parse.{SipRequest}
use hermes_voip.Transfer.{
  NotifyProgress, completed, failed, classify_progress, classify_transfer_progress,
}
use hermes_voip.Transfer.Requests.{
  parse_notify_sipfrag, sipfrag_parts, first_line, is_terminated, subscription_state_name,
}

-- A NOTIFY that ends the subscription with a status between two bounds.
abbrev pub EndsBetween : ℕ → ℕ → SipRequest → Type 0
EndsBetween low high request =
    (state digits rest : Text) × (header request.headers subscription_state_name ≡ some state)
    × (is_terminated state ≡ true)
    × (sipfrag_parts (first_line request.body) ≡ some (digits, rest))
    × (low ≤ read 0 digits)
    × (read 0 digits < high)

-- A transfer counts as completed only on a NOTIFY that ends the subscription with a 2xx status line,
-- and as failed only on one that ends it with a status line from 300 to 699.
pub classify_transfer_progress-EndsBetween :
    (request : SipRequest) (progress : NotifyProgress)
    → parse_notify_sipfrag request ≡ ok progress
    → (classify_transfer_progress (some progress) ≡ completed → EndsBetween 200 300 request)
      × (classify_transfer_progress (some progress) ≡ failed → EndsBetween 300 700 request)
unfolding parse_notify_sipfrag classify_transfer_progress classify_progress
classify_transfer_progress-EndsBetween request progress h =
    elim (Option-cases (header request.headers subscription_state_name)) [
      | inl e ↦ absurd (ground (arith, e))
      | inr (state, e) ↦ elim (Option-cases (sipfrag_parts (first_line request.body))) [
        | inl f ↦ absurd (ground (arith, e, f))
        | inr ((digits, rest), f) ↦ (
          (λ k. (
            state,
            digits,
            rest,
            e,
            ground (arith, e, f, k),
            f,
            ground (arith, e, f, k),
            ground (arith, e, f, k),
          )),
          (λ k. (
            state,
            digits,
            rest,
            e,
            ground (arith, e, f, k),
            f,
            ground (arith, e, f, k),
            ground (arith, e, f, k),
          )),
        )
      ]
    ]
