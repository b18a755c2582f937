-- ===== src/Checks/Keypad.antt =====
-- src/hermes_voip/dtmf.py, src/hermes_voip/dtmf_confirm.py: small runs of the receivers.
use hermes_voip.Base.{
  ℕ, ◌≤◌, ◌≡◌, refl, true, false, List, [], ◌∷◌, ◌++◌, replicate, Option, none, some, ok, err,
  arith, All,
}
use hermes_voip.Base.Dict.{lookup}
use hermes_voip.Dtmf.Event.{
  DtmfEvent, DtmfError, IsValid, decode, encode, decode-encode, digit_to_event, event_to_digit,
  digit_to_event-event_to_digit, event_payloads, upper, digits,
}
use hermes_voip.Dtmf.Receiver.{
  DtmfReceiver, PendingTimestamp, press, still_pressing, awaiting_corroboration, duplicate_end,
  feed, feeds, presses, feeds_one_press, feeds_contested,
}
use hermes_voip.Dtmf.Press.{decode_all, event_payloads-feeds}
use hermes_voip.Dtmf.Inband.{Detector, Held, IsSilent, feeds-Held, feed_debounced}
use hermes_voip.Dtmf.Inband
use hermes_voip.Dtmf.Confirm.{
  ArmedConfirmation, idle, WindowEvent, timeout, open_window, close_window, reacts, first_decision,
  open_window-close_window, open_window_again,
}
use hermes_voip.Dtmf.Confirm

abbrev receiver : DtmfReceiver
receiver = record { history = 4; window = [] }

abbrev final_one : DtmfEvent
final_one = record { event = 1; end = true; volume = 10; duration = 800 }

abbrev final_two : DtmfEvent
final_two = record { event = 2; end = true; volume = 10; duration = 800 }

feeds_one_press_example : presses (feeds receiver 160 (replicate 3 final_one)) ≤ 1
feeds_one_press_example = feeds_one_press receiver 160 (replicate 3 final_one)

abbrev waiting : PendingTimestamp
waiting = record { event = 1; emitted = false; poisoned = false }

abbrev remembers : DtmfReceiver
remembers = record { history = 4; window = (160, waiting) ∷ [] }

feeds_contested_example :
    presses (feeds (feed remembers final_two 160).0 160 (replicate 3 final_one)) ≡ 0
unfolding lookup
feeds_contested_example =
    feeds_contested remembers 160 waiting final_two (replicate 3 final_one) refl refl refl
      (λ e. absurd (omega (arith, e)))

abbrev sent : List (List ℕ)
sent = elim (event_payloads (35 ∷ []) 400 160 10) [ ok ws ↦ ws | err _ ↦ [] ]

event_payloads-feeds_example :
    (es : List DtmfEvent) × (n : ℕ) × (decode_all sent ≡ ok es)
    × (feeds receiver 160 es
        ≡ replicate n still_pressing
          ++ (still_pressing ∷ awaiting_corroboration ∷ press (upper 35) ∷ duplicate_end ∷ []))
unfolding event_payloads digit_to_event hermes_voip.Dtmf.Event.encode_all
    hermes_voip.Dtmf.Event.press_events lookup
event_payloads-feeds_example = event_payloads-feeds receiver 160 35 400 160 10 refl refl

abbrev holding : Detector
holding = record { emitted = some 53; candidate = some 53; run = 2; gap_run = 0 }

abbrev starting : Detector
starting = record { emitted = none; candidate = some 53; run = 1; gap_run = 0 }

abbrev tone : Option ℕ
tone = some 53

feeds-Held_example : All IsSilent (Inband.feeds holding (some 53 ∷ none ∷ none ∷ some 53 ∷ []))
feeds-Held_example =
    feeds-Held holding 53 (some 53 ∷ none ∷ none ∷ some 53 ∷ []) refl
      (refl, (omega arith, (omega arith, (refl, tt))))

abbrev armed_one : ArmedConfirmation
armed_one = record { pending = some none; expected = some (49 ∷ []) }

open_window-close_window_example :
    close_window (reacts armed_one (Confirm.press (49 ∷ []) ∷ timeout ∷ []))
    ≡ (idle, first_decision (49 ∷ []) (Confirm.press (49 ∷ []) ∷ timeout ∷ []))
unfolding open_window reacts digit_to_event
open_window-close_window_example =
    open_window-close_window (49 ∷ []) (Confirm.press (50 ∷ []) ∷ [])
      (Confirm.press (49 ∷ []) ∷ timeout ∷ []) armed_one refl
