-- ===== src/SessionTimer.antt =====
-- src/hermes_voip/session_timer.py: session timers (RFC 4028). Texts are lists of code points.
-- Seconds in floats are exact fractions here: `refresh_interval` counts halves of a second and
-- `teardown_deadline` counts thirds; the choice of a random back-off is not modelled.
pub mod Header
pub mod Negotiation
use hermes_voip.Base.{
  ℕ, zero, suc, ◌+◌, ◌-◌, ◌*◌, ◌/◌, ◌%◌, Bool, true, false, not, ◌&&◌, ◌||◌, ◌==◌, ltb, leb,
  if◌then◌else◌, List, [], ◌∷◌, ◌++◌, length, Option, none, some, Result, ok, err, guard, ◌>>=◌,
  ◌>>◌, min,
}
use hermes_voip.Base.Text.{
  decimal, is_digit, is_empty, is_space, lower, partition, read, same_text, show, skip_spaces,
  span_digits, split, strip,
}

pub data Refresher : Type 0 where
  uac uas : Refresher

pub data TimerError : Type 0 where
  unknown_refresher malformed below_floor : TimerError

abbrev pub word_uac : List ℕ
word_uac = 117 ∷ 97 ∷ 99 ∷ []

abbrev pub word_uas : List ℕ
word_uas = 117 ∷ 97 ∷ 115 ∷ []

abbrev pub word_refresher : List ℕ
word_refresher = 114 ∷ 101 ∷ 102 ∷ 114 ∷ 101 ∷ 115 ∷ 104 ∷ 101 ∷ 114 ∷ []

-- `Refresher.value`.
abbrev pub value_of : Refresher → List ℕ
value_of uac = word_uac
value_of uas = word_uas

-- `Refresher.parse`.
unfoldable pub parse_refresher : List ℕ → Result TimerError Refresher
unfolding strip
parse_refresher token =
    let word = lower (strip token) in
    if same_text word_uac word
    then ok uac
    else if same_text word_uas word
    then ok uas
    else err unknown_refresher

abbrev pub at_end : List ℕ → Bool
at_end [] = true
at_end (c ∷ cs) = c == 59

-- `int(match.group(1))` for the match of `_LEADING_DELTA`. The interpreter refuses to read more than
-- 4300 digits with the same exception.
unfoldable pub leading_delta : List ℕ → Result TimerError ℕ
unfolding skip_spaces span_digits read
leading_delta value = do
  let parts = span_digits (skip_spaces value)
  guard (not (is_empty parts.0) && at_end (skip_spaces parts.1)) malformed
  guard (leb (length parts.0) 4300) malformed
  ok (read 0 parts.0)

-- The loop of `_refresher_param` over the parts behind the first `;`.
unfoldable pub refresher_in : List (List ℕ) → Result TimerError (Option Refresher)
unfolding partition parse_refresher strip
refresher_in [] = ok none
refresher_in (part ∷ parts) =
    let rest = refresher_in parts in
    elim (partition 61 part) [
      | none ↦ rest
      | some (key, raw) ↦
          if same_text word_refresher (lower (strip key))
          then (do r ← parse_refresher raw; ok (some r))
          else rest
    ]

unfoldable pub refresher_param : List ℕ → Result TimerError (Option Refresher)
unfolding split refresher_in
refresher_param value = refresher_in (split 59 value).1

pub record SessionExpires : Type 0 where
  pub delta : ℕ
  pub refresher : Option Refresher

-- `SessionExpires.parse`.
unfoldable pub parse : List ℕ → Result TimerError SessionExpires
parse value = do
  delta ← leading_delta value
  refresher ← refresher_param value
  ok (record { delta = delta; refresher = refresher })

unfoldable pub parse_min_se : List ℕ → Result TimerError ℕ
unfolding leading_delta
parse_min_se value = leading_delta value

-- `build_session_expires_value`.
unfoldable pub build_session_expires_value : ℕ → Refresher → List ℕ
unfolding show
build_session_expires_value delta r = decimal delta ++ (59 ∷ (word_refresher ++ (61 ∷ value_of r)))

abbrev pub min_se_floor : ℕ
min_se_floor = 90

unfoldable pub elect_refresher : Option Refresher → Refresher → Refresher
elect_refresher none default = default
elect_refresher (some peer) default = peer

-- `delta / 2`, in halves of a second.
unfoldable pub refresh_interval : ℕ → ℕ
refresh_interval delta = delta

-- `delta - min(32.0, delta / 3)`, in thirds of a second.
unfoldable pub teardown_deadline : ℕ → ℕ
teardown_deadline delta = delta * 3 - min (32 * 3) delta

pub data UasTimerDecision : Type 0 where
  reject : ℕ → UasTimerDecision
  accept : ℕ → Refresher → UasTimerDecision

unfoldable pub negotiate_uas_timers :
    Option SessionExpires → ℕ → ℕ → Refresher → Result TimerError UasTimerDecision
unfolding elect_refresher
negotiate_uas_timers none min_se local_se default =
    if ltb local_se min_se_floor then err below_floor else ok (accept local_se default)
negotiate_uas_timers (some offered) min_se local_se default =
    if ltb offered.delta min_se
    then ok (reject min_se)
    else ok (accept offered.delta (elect_refresher offered.refresher default))

pub data RefreshFailure : Type 0 where
  teardown retry : RefreshFailure
  carry_on : ℕ → RefreshFailure

unfoldable pub classify_refresh_failure : Option ℕ → RefreshFailure
classify_refresh_failure none = teardown
classify_refresh_failure (some status) =
    if status == 408 || status == 481
    then teardown
    else if status == 491
    then retry
    else carry_on status
