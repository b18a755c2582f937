-- ===== src/Dtmf/Confirm.antt =====
-- src/hermes_voip/dtmf_confirm.py: the confirmation by a key-press. `arm` waits in two places, so it
-- is two operations here, and what happens between them is a list of events. A future is
-- `none` until a result is set.
use hermes_voip.Base.{
  ℕ, ◌≡◌, refl, ◌≢◌, inl, inr, Bool, true, false, List, [], ◌∷◌, map, Option, none, some, Result,
  ok, err, ◌>>=◌, arith, Result-cases,
}
use hermes_voip.Base.Text.{same_text}
use hermes_voip.Dtmf.Event.{upper, digit_to_event, DtmfError}

pub data ConfirmError : Type 0 where
  already_armed : ConfirmError
  not_a_key : DtmfError → ConfirmError

-- `_pending` is `none` if nothing is armed; `_expected`.
pub record ArmedConfirmation : Type 0 where
  pub pending : Option (Option Bool)
  pub expected : Option (List ℕ)

abbrev pub idle : ArmedConfirmation
idle = record { pending = none; expected = none }

abbrev pub is_armed : ArmedConfirmation → Bool
is_armed c = elim c.pending [ none ↦ false | some _ ↦ true ]

abbrev pub as_confirm_error : Result DtmfError ℕ → Result ConfirmError ℕ
as_confirm_error (ok n) = ok n
as_confirm_error (err e) = err (not_a_key e)

-- `arm` up to the prompt.
unfoldable pub open_window : ArmedConfirmation → List ℕ → Result ConfirmError ArmedConfirmation
open_window c digit = do
  _ ← as_confirm_error (digit_to_event digit)
  elim c.pending [
    | none ↦ ok (record { pending = some none; expected = some (map upper digit) })
    | some _ ↦ err already_armed
  ]

-- `confirm` up to the prompt: the digit is `1`.
unfoldable pub confirm : ArmedConfirmation → Result ConfirmError ArmedConfirmation
unfolding open_window
confirm c = open_window c (49 ∷ [])

-- `digit.upper() == self._expected`.
abbrev pub is_expected : List ℕ → Option (List ℕ) → Bool
is_expected digit none = false
is_expected digit (some e) = same_text (map upper digit) e

-- `feed`: the resolver behind the call and whether the digit was taken.
unfoldable pub feed : ArmedConfirmation → List ℕ → ArmedConfirmation × Bool
feed c digit = elim c.pending [
  | none ↦ (c, false)
  | some (some done) ↦ (c, false)
  | some none ↦
      (record { pending = some (some (is_expected digit c.expected)); expected = c.expected }, true)
]

-- `_expire`, behind its sleep.
unfoldable pub expire : ArmedConfirmation → ArmedConfirmation
expire c = elim c.pending [
  | some none ↦ record { pending = some (some false); expected = c.expected }
  | none ↦ c
  | some (some done) ↦ c
]

-- `arm` from the awaited future on: the result, `none` if the wait was broken off, and the `finally`.
unfoldable pub close_window : ArmedConfirmation → ArmedConfirmation × Option Bool
close_window c = (idle, elim c.pending [ none ↦ none | some result ↦ result ])

pub data WindowEvent : Type 0 where
  press : List ℕ → WindowEvent
  timeout : WindowEvent

unfoldable pub react : ArmedConfirmation → WindowEvent → ArmedConfirmation
unfolding feed expire
react c (press digit) = (feed c digit).0
react c timeout = expire c

unfoldable pub reacts : ArmedConfirmation → List WindowEvent → ArmedConfirmation
unfolding react
reacts c [] = c
reacts c (e ∷ es) = reacts (react c e) es

-- What the first event of a window decides.
abbrev pub first_decision : List ℕ → List WindowEvent → Option Bool
first_decision digit [] = none
first_decision digit (press d ∷ es) = some (same_text (map upper d) (map upper digit))
first_decision digit (timeout ∷ es) = some false

reacts-idle : (es : List WindowEvent) → reacts idle es ≡ idle
unfolding reacts
reacts-idle [] = refl
reacts-idle (press d ∷ es) = reacts-idle es
reacts-idle (timeout ∷ es) = reacts-idle es

reacts-resolved :
    (b : Bool) (e : Option (List ℕ)) (es : List WindowEvent)
    → (reacts (record { pending = some (some b); expected = e }) es).pending ≡ some (some b)
unfolding reacts
reacts-resolved b e [] = refl
reacts-resolved b e (press d ∷ es) = reacts-resolved b e es
reacts-resolved b e (timeout ∷ es) = reacts-resolved b e es

reacts-armed :
    (digit : List ℕ) (es : List WindowEvent)
    → (reacts (record { pending = some none; expected = some (map upper digit) }) es).pending
      ≡ some (first_decision digit es)
unfolding reacts
reacts-armed digit [] = refl
reacts-armed digit (press d ∷ es) =
    reacts-resolved (same_text (map upper d) (map upper digit)) (some (map upper digit)) es
reacts-armed digit (timeout ∷ es) = reacts-resolved false (some (map upper digit)) es

open_window-armed :
    (c : ArmedConfirmation) (digit : List ℕ) (armed : ArmedConfirmation)
    → open_window c digit ≡ ok armed
    → (c.pending ≡ none)
      × (armed ≡ record { pending = some none; expected = some (map upper digit) })
unfolding open_window
open_window-armed c digit armed h = elim (Result-cases (digit_to_event digit)) [
  | inl (n, good) ↦ ground (arith, good)
  | inr (e, bad) ↦ ground (arith, bad)
]

-- A confirmation is decided by the first event inside its window: whatever was pressed before it was
-- armed and whatever follows the first event, the result is true if and only if that event is a
-- press of the armed digit (in either case), it is false for another digit and for the
-- timeout, there is none without an event, and the resolver is idle behind it.
pub open_window-close_window :
    (digit : List ℕ) (before inside : List WindowEvent) (armed : ArmedConfirmation)
    → open_window (reacts idle before) digit ≡ ok armed
    → close_window (reacts armed inside) ≡ (idle, first_decision digit inside)
unfolding close_window
open_window-close_window digit before inside armed h =
    rw ((open_window-armed (reacts idle before) digit armed h).1, reacts-armed digit inside) refl

-- One window at a time: while a window is open, whatever has happened in it, no other is opened.
pub open_window_again :
    (digit other : List ℕ) (inside : List WindowEvent) (armed : ArmedConfirmation)
    → open_window idle digit ≡ ok armed
    → (again : ArmedConfirmation) → open_window (reacts armed inside) other ≢ ok again
open_window_again digit other inside armed h again e =
    let opened = (open_window-armed idle digit armed h).1 in
    let waiting : (reacts armed inside).pending ≡ some (first_decision digit inside) =
      rw opened (reacts-armed digit inside) in
    let free = (open_window-armed (reacts armed inside) other again e).0 in
    ground (arith, waiting, free)
