-- ===== src/Base/Text/Decimal.antt =====
-- Decimal numbers in texts: what is printed is read back.
use hermes_voip.Base.Tests.{ltb, Bool-cases}
use hermes_voip.Base.Lists.{All}
use hermes_voip.Base.Text.{is_digit, show, read, is_empty}
use Prim.Native.Nat.{ℕ, zero, suc, ◌+◌, ◌-◌, ◌*◌, ◌/◌, ◌%◌, ◌<◌}
use mathlib.Core.Path.{◌≡◌, refl, ◌∙◌}
use mathlib.Core.Logic.{inl, inr}
use mathlib.Core.Bool.{true, false}
use mathlib.Core.List.{List, [], ◌∷◌, ◌++◌}
use native.Mathlib.Omega.{arith}

abbrev pub Digits : List ℕ → Type 0
Digits ds = All (λ (c : ℕ). is_digit c ≡ true) ds

Digits-append : (xs : List ℕ) (c : ℕ) → Digits xs → is_digit c ≡ true → Digits (xs ++ c ∷ [])
Digits-append [] c d h = (h, tt)
Digits-append (x ∷ xs) c d h = (d.0, Digits-append xs c d.1 h)

pub show-Digits : (k n : ℕ) → Digits (show k n)
unfolding show
show-Digits zero n = tt
show-Digits (suc k) n = elim (Bool-cases (ltb n 10)) [
  | inl small ↦ rw small (ground arith, tt)
  | inr large ↦
      rw large
        (Digits-append (show k (n / 10)) (48 + n % 10) (show-Digits k (n / 10)) (ground arith))
]

read-append :
    (acc : ℕ) (xs : List ℕ) (c : ℕ) → read acc (xs ++ c ∷ []) ≡ read acc xs * 10 + (c - 48)
unfolding read
read-append acc [] c = refl
read-append acc (x ∷ xs) c = read-append (acc * 10 + (x - 48)) xs c

-- Decimal print and parse.
pub read-show : (k n : ℕ) → n < k → read 0 (show k n) ≡ n
unfolding show
read-show zero n h = absurd (omega arith)
read-show (suc k) n h = elim (Bool-cases (ltb n 10)) [
  | inl small ↦ rw small (unfold read in omega arith)
  | inr large ↦
      rw large
        (read-append 0 (show k (n / 10)) (48 + n % 10) ∙ ground (arith, read-show k (n / 10)))
]

append_one-nonempty : (xs : List ℕ) (c : ℕ) → is_empty (xs ++ c ∷ []) ≡ false
append_one-nonempty [] c = refl
append_one-nonempty (x ∷ xs) c = refl

pub show-nonempty : (k n : ℕ) → is_empty (show (suc k) n) ≡ false
unfolding show
show-nonempty k n = elim (Bool-cases (ltb n 10)) [
  | inl small ↦ rw small refl
  | inr large ↦ rw large (append_one-nonempty (show k (n / 10)) (48 + n % 10))
]
