-- ===== src/Base/Bytes.antt =====
-- Bytes as native numbers below 256: big-endian words, the masks that the wire formats use, and
-- laws of the native bit operations by a check of every byte.
use Prim.Native.Nat.{ℕ, zero, suc, ◌+◌, ◌*◌, ◌/◌, ◌%◌, ◌<◌, bit_and, bit_or}
use mathlib.Core.Path.{◌≡◌, refl}
use mathlib.Core.Logic.{◌⊎◌, inl, inr}
use mathlib.Core.Bool.{Bool, true, ◌&&◌}
use mathlib.Core.List.{List, [], ◌∷◌}
use native.Mathlib.Omega.{arith}
use hermes_voip.Base.Tests.{◌==◌, ==_iff}

-- struct "!H" and "!I", and `int.to_bytes(2, "big")`.
abbrev pub be16 : ℕ → List ℕ
be16 n = n / 256 ∷ n % 256 ∷ []

abbrev pub be32 : ℕ → List ℕ
be32 n = n / 16777216 ∷ n / 65536 % 256 ∷ n / 256 % 256 ∷ n % 256 ∷ []

-- `int.from_bytes(…, "big")`.
abbrev pub from_be : ℕ → List ℕ → ℕ
from_be acc [] = acc
from_be acc (b ∷ bs) = from_be (acc * 256 + b) bs

-- Two functions that are compared at every number below a bound.
module _ (f g : ℕ → ℕ) where
  agree : ℕ → Bool
  agree zero = true
  agree (suc k) = f k == g k && agree k

  by_table : (bound : ℕ) → agree bound ≡ true → (x : ℕ) → x < bound → f x ≡ g x
  unfolding agree
  by_table zero table x inside = absurd (omega arith)
  by_table (suc k) table x inside = elim (le_or_new x k inside) [
    | inl older ↦ by_table k (ground arith) x older
    | inr same ↦ rw same ((==_iff (f k) (g k)).0 (ground arith))
  ]
    where
      le_or_new : (a b : ℕ) → a < suc b → (a < b) ⊎ (a ≡ b)
      le_or_new a b h = ground arith

pub bit_or-high : (x : ℕ) → x < 128 → bit_or 128 x ≡ 128 + x
unfolding agree
bit_or-high = by_table (λ x. bit_or 128 x) (λ x. 128 + x) 128 refl

pub bit_or-zero_left : (x : ℕ) → x < 128 → bit_or 0 x ≡ x
unfolding agree
bit_or-zero_left = by_table (λ x. bit_or 0 x) (λ x. x) 128 refl

pub bit_and-low7 : (x : ℕ) → x < 256 → bit_and x 127 ≡ x % 128
unfolding agree
bit_and-low7 = by_table (λ x. bit_and x 127) (λ x. x % 128) 256 refl

pub bit_and-low6 : (x : ℕ) → x < 256 → bit_and x 63 ≡ x % 64
unfolding agree
bit_and-low6 = by_table (λ x. bit_and x 63) (λ x. x % 64) 256 refl

pub bit_and-low5 : (x : ℕ) → x < 256 → bit_and x 31 ≡ x % 32
unfolding agree
bit_and-low5 = by_table (λ x. bit_and x 31) (λ x. x % 32) 256 refl

pub bit_and-low4 : (x : ℕ) → x < 256 → bit_and x 15 ≡ x % 16
unfolding agree
bit_and-low4 = by_table (λ x. bit_and x 15) (λ x. x % 16) 256 refl

pub bit_and-high : (x : ℕ) → x < 256 → bit_and x 128 ≡ x / 128 * 128
unfolding agree
bit_and-high = by_table (λ x. bit_and x 128) (λ x. x / 128 * 128) 256 refl

pub bit_and-bit4 : (x : ℕ) → x < 256 → bit_and x 16 ≡ x / 16 % 2 * 16
unfolding agree
bit_and-bit4 = by_table (λ x. bit_and x 16) (λ x. x / 16 % 2 * 16) 256 refl

pub bit_and-bit5 : (x : ℕ) → x < 256 → bit_and x 32 ≡ x / 32 % 2 * 32
unfolding agree
bit_and-bit5 = by_table (λ x. bit_and x 32) (λ x. x / 32 % 2 * 32) 256 refl
