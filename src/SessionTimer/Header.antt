-- ===== src/SessionTimer/Header.antt =====
-- src/hermes_voip/session_timer.py: the header that is built is the header that is parsed.
use hermes_voip.Base.{
  ℕ, suc, ◌+◌, ◌≤◌, ◌≡◌, refl, false, ◌==◌, List, [], ◌∷◌, ◌++◌, length, some, ok, arith,
}
use hermes_voip.Base.Text.Decimal.{Digits, show-Digits, read-show, show-nonempty}
use hermes_voip.Base.Text.{decimal, is_empty, read, skip_spaces, span_digits, split}
use hermes_voip.SessionTimer.{
  Refresher, uac, uas, parse, build_session_expires_value, leading_delta, refresher_param, value_of,
  word_refresher,
}

span_digits-append : (ds w : List ℕ) → Digits ds → span_digits (ds ++ 59 ∷ w) ≡ (ds, 59 ∷ w)
unfolding span_digits
span_digits-append [] w d = refl
span_digits-append (c ∷ ds) w d = rw (d.0, span_digits-append ds w d.1) refl

split-append :
    (ds w : List ℕ) → Digits ds → split 59 (ds ++ 59 ∷ w) ≡ (ds, (split 59 w).0 ∷ (split 59 w).1)
unfolding split
split-append [] w d = refl
split-append (c ∷ ds) w d =
    let other : (c == 59) ≡ false = ground (arith, d.0) in rw (other, split-append ds w d.1) refl

skip_spaces-Digits : (ds w : List ℕ) → Digits ds → skip_spaces (ds ++ 59 ∷ w) ≡ ds ++ 59 ∷ w
unfolding skip_spaces
skip_spaces-Digits [] w d = refl
skip_spaces-Digits (c ∷ ds) w d = ground (arith, d.0)

leading_delta-Digits :
    (ds w : List ℕ)
    → Digits ds
    → is_empty ds ≡ false
    → length ds ≤ 4300
    → leading_delta (ds ++ 59 ∷ w) ≡ ok (read 0 ds)
unfolding leading_delta
leading_delta-Digits ds w d some_digit few =
    rw (skip_spaces-Digits ds w d, span_digits-append ds w d, some_digit) (ground arith)

refresher_param-value :
    (ds : List ℕ) (r : Refresher)
    → Digits ds
    → refresher_param (ds ++ (59 ∷ (word_refresher ++ (61 ∷ value_of r)))) ≡ ok (some r)
unfolding refresher_param
refresher_param-value ds uac d = rw (split-append ds (word_refresher ++ (61 ∷ value_of uac)) d) refl
refresher_param-value ds uas d = rw (split-append ds (word_refresher ++ (61 ∷ value_of uas)) d) refl

-- The round trip of `Session-Expires`: the value that is built for an interval and a refresher is
-- parsed back to them, for every interval whose decimal form has at most 4300 digits.
pub parse-build_session_expires_value :
    (delta : ℕ) (r : Refresher)
    → length (decimal delta) ≤ 4300
    → parse (build_session_expires_value delta r)
      ≡ ok (record { delta = delta; refresher = some r })
unfolding parse build_session_expires_value
parse-build_session_expires_value delta r few =
    let one_more : (delta + 1) ≡ suc delta = omega arith in
    let some_digit : is_empty (decimal delta) ≡ false = rw one_more (show-nonempty delta delta) in
    rw
      (
        leading_delta-Digits (decimal delta) (word_refresher ++ (61 ∷ value_of r))
            (show-Digits (delta + 1) delta) some_digit few,
        refresher_param-value (decimal delta) r (show-Digits (delta + 1) delta),
        read-show (delta + 1) delta (omega arith),
      )
      refl
