-- ===== src/Base/Bits.antt =====
-- Single bits of a native number, and how the Python operations `&`, `|`, `<<` on masks act on them.
use Prim.Native.Nat.{
  ℕ, zero, suc, ◌+◌, ◌*◌, ◌/◌, ◌%◌, ◌^◌, ◌≤◌, ◌<◌, min, max, bit_and, bit_or, bit_xor, digits,
  differ, bit_and-bitwise, bit_or-bitwise, bit_xor-bitwise,
}
use native.Mathlib.Nat.{
  pow-suc, one-le-pow, mul-add-mod_self_right, mod-eq_of_lt, div-add-mod', mod-lt,
}
use mathlib.Core.Path.{◌≡◌, refl, sym, ap, subst, ◌∙◌}
use native.Mathlib.Omega.{arith}
use hermes_voip.Base.Tests.{◌==◌, if◌then◌else◌}

-- Bit `d` of `m`, 0 or 1.
abbrev pub bit : ℕ → ℕ → ℕ
bit zero m = m % 2
bit (suc d) m = bit d (m / 2)

module _ (last : ℕ → ℕ) (op : ℕ → ℕ → ℕ) where
  enough :
      (fuel more x y : ℕ) → x ≤ fuel → x ≤ more → digits last op fuel x y ≡ digits last op more x y
  enough fuel more zero y p q = done fuel more
    where
      done : (f g : ℕ) → digits last op f 0 y ≡ digits last op g 0 y
      done zero zero = refl
      done zero (suc g) = refl
      done (suc f) zero = refl
      done (suc f) (suc g) = refl
  enough zero more (suc x) y p q = absurd (omega arith)
  enough (suc fuel) zero (suc x) y p q = absurd (omega arith)
  enough (suc fuel) (suc more) (suc x) y p q =
      ap (λ (t : ℕ). t * 2 + op (suc x % 2) (y % 2))
        (enough fuel more (suc x / 2) (y / 2) (omega arith) (omega arith))

  -- The lowest digit apart from the others.
  lowest :
      (x y : ℕ)
      → digits last op (suc x) (suc x) y
        ≡ digits last op (suc x / 2) (suc x / 2) (y / 2) * 2 + op (suc x % 2) (y % 2)
  lowest x y =
      ap (λ (t : ℕ). t * 2 + op (suc x % 2) (y % 2))
        (enough x (suc x / 2) (suc x / 2) (y / 2) (omega arith) (omega arith))

or_low : (x y : ℕ) → bit_or x y ≡ bit_or (x / 2) (y / 2) * 2 + max (x % 2) (y % 2)
or_low zero y = omega (arith, bit_or-bitwise 0 y, bit_or-bitwise 0 (y / 2))
or_low (suc x) y =
    bit_or-bitwise (suc x) y
    ∙ lowest (λ t. t) max x y
    ∙ ap (λ (t : ℕ). t * 2 + max (suc x % 2) (y % 2)) (sym (bit_or-bitwise (suc x / 2) (y / 2)))

and_low : (x y : ℕ) → bit_and x y ≡ bit_and (x / 2) (y / 2) * 2 + min (x % 2) (y % 2)
and_low zero y = omega (arith, bit_and-bitwise 0 (y / 2), bit_and-bitwise 0 y)
and_low (suc x) y =
    bit_and-bitwise (suc x) y
    ∙ lowest (λ t. 0) min x y
    ∙ ap (λ (t : ℕ). t * 2 + min (suc x % 2) (y % 2)) (sym (bit_and-bitwise (suc x / 2) (y / 2)))

pub bit-bit_or : (d x y : ℕ) → bit d (bit_or x y) ≡ max (bit d x) (bit d y)
bit-bit_or zero x y = omega (arith, or_low x y)
bit-bit_or (suc d) x y =
    let half : bit_or x y / 2 ≡ bit_or (x / 2) (y / 2) = omega (arith, or_low x y) in
    rw half (bit-bit_or d (x / 2) (y / 2))

pub bit-le_one : (d x : ℕ) → bit d x ≤ 1
bit-le_one zero x = omega arith
bit-le_one (suc d) x = bit-le_one d (x / 2)

half_of_pow : (d : ℕ) → (2 ^ suc d / 2 ≡ 2 ^ d) × (2 ^ suc d % 2 ≡ 0)
half_of_pow d = omega (arith, pow-suc 2 d)

bit-zero : (d : ℕ) → bit d 0 ≡ 0
bit-zero zero = refl
bit-zero (suc d) = bit-zero d

-- `1 << d` has one bit.
pub bit-pow : (d e : ℕ) → bit e (2 ^ d) ≡ (if d == e then 1 else 0)
bit-pow zero zero = refl
bit-pow zero (suc e) = ground (arith, bit-zero e)
bit-pow (suc d) zero = ground (arith, half_of_pow d)
bit-pow (suc d) (suc e) = rw ((half_of_pow d).0) (ground (arith, bit-pow d e))

-- Nothing is common with 0, digit by digit.
digits-zero : (fuel x : ℕ) → digits (λ t. 0) min fuel x 0 ≡ 0
digits-zero zero zero = refl
digits-zero zero (suc x) = refl
digits-zero (suc fuel) zero = refl
digits-zero (suc fuel) (suc x) = omega (arith, digits-zero fuel (suc x / 2))

bit_and-zero : (x : ℕ) → bit_and x 0 ≡ 0
bit_and-zero x = bit_and-bitwise x 0 ∙ digits-zero x x

-- `m & (1 << d)` is 0 exactly when bit `d` is not set.
pub bit_and-pow : (d m : ℕ) → bit_and m (2 ^ d) ≡ bit d m * 2 ^ d
bit_and-pow zero m = omega (arith, and_low m 1, bit_and-zero (m / 2))
bit_and-pow (suc d) m = omega (
  arith,
  and_low m (2 ^ suc d),
  half_of_pow d,
  ap (λ (t : ℕ). bit_and (m / 2) t) (half_of_pow d).0,
  bit_and-pow d (m / 2),
  pow-suc 2 d,
  ap (λ (t : ℕ). bit d (m / 2) * t) (pow-suc 2 d),
)

-- `m << s` moves bit `d` to `s + d`.
pub bit-shift : (s d m : ℕ) → bit (s + d) (m * 2 ^ s) ≡ bit d m
bit-shift zero d m =
    let a : 0 + d ≡ d = omega arith in let b : m * 1 ≡ m = omega arith in rw (a, b) refl
bit-shift (suc s) d m =
    let a : suc s + d ≡ suc (s + d) = omega arith in
    let b : m * 2 ^ suc s / 2 ≡ m * 2 ^ s = omega (arith, ap (λ (t : ℕ). m * t) (pow-suc 2 s)) in
    rw a (subst (λ (t : ℕ). bit (s + d) t ≡ bit d m) (sym b) (bit-shift s d m))

-- A remainder by twice `p`, halved, and its lowest bit.
half_of_mod : (m p : ℕ) → 0 < p → (m % (p * 2) / 2 ≡ m / 2 % p) × (m % (p * 2) % 2 ≡ m % 2)
half_of_mod m p pos = (
  sym (ap (λ (t : ℕ). t % p) halves ∙ mul-add-mod_self_right q p (r / 2) ∙ mod-eq_of_lt small),
  omega (arith, split, regroup),
)
  where
    q : ℕ
    q = m / (p * 2)

    r : ℕ
    r = m % (p * 2)

    split : q * (p * 2) + r ≡ m
    split = div-add-mod' m (p * 2)

    regroup : q * (p * 2) ≡ q * p * 2
    regroup = omega arith

    halves : m / 2 ≡ q * p + r / 2
    halves = omega (arith, split, regroup)

    within : r < p * 2
    within = mod-lt m (omega arith)

    small : r / 2 < p
    small = omega (arith, within)

-- The low `k` bits, which `& ((1 << k) - 1)` keeps.
pub bit-mod : (k d m : ℕ) → d < k → bit d (m % 2 ^ k) ≡ bit d m
bit-mod zero d m h = absurd (omega arith)
bit-mod (suc k) zero m h =
    rw (pow-suc 2 k) ((half_of_mod m (2 ^ k) (one-le-pow k 2 (omega arith))).1)
bit-mod (suc k) (suc d) m h =
    subst (λ (t : ℕ). bit d t ≡ bit d (m / 2)) (sym halved) (bit-mod k d (m / 2) (omega arith))
  where
    halved : m % 2 ^ suc k / 2 ≡ m / 2 % 2 ^ k
    halved =
        ap (λ (t : ℕ). m % t / 2) (pow-suc 2 k)
        ∙ (half_of_mod m (2 ^ k) (one-le-pow k 2 (omega arith))).0

xor_low : (x y : ℕ) → bit_xor x y ≡ bit_xor (x / 2) (y / 2) * 2 + differ (x % 2) (y % 2)
xor_low zero y = omega (arith, bit_xor-bitwise 0 y, bit_xor-bitwise 0 (y / 2))
xor_low (suc x) y =
    bit_xor-bitwise (suc x) y
    ∙ lowest (λ t. t) differ x y
    ∙ ap (λ (t : ℕ). t * 2 + differ (suc x % 2) (y % 2)) (sym (bit_xor-bitwise (suc x / 2) (y / 2)))

differ-differ : (a b : ℕ) → a < 2 → b < 2 → (differ a b < 2) × (differ (differ a b) b ≡ a)
differ-differ zero zero p q = omega arith
differ-differ zero (suc zero) p q = omega arith
differ-differ (suc zero) zero p q = omega arith
differ-differ (suc zero) (suc zero) p q = omega arith
differ-differ zero (suc (suc b)) p q = absurd (omega arith)
differ-differ (suc zero) (suc (suc b)) p q = absurd (omega arith)
differ-differ (suc (suc a)) b p q = absurd (omega arith)

xor_halves :
    (x y : ℕ)
    → (bit_xor x y / 2 ≡ bit_xor (x / 2) (y / 2)) × (bit_xor x y % 2 ≡ differ (x % 2) (y % 2))
xor_halves x y =
    omega (arith, xor_low x y, differ-differ (x % 2) (y % 2) (omega arith) (omega arith))

-- One digit of the law below.
twice_step :
    (x y : ℕ) → bit_xor (bit_xor (x / 2) (y / 2)) (y / 2) ≡ x / 2 → bit_xor (bit_xor x y) y ≡ x
twice_step x y ih = omega (
  arith,
  ih,
  xor_low (bit_xor x y) y,
  ap (λ (t : ℕ). bit_xor t (y / 2)) (xor_halves x y).0,
  ap (λ (t : ℕ). differ t (y % 2)) (xor_halves x y).1,
  differ-differ (x % 2) (y % 2) (omega arith) (omega arith),
)

bit_xor-twice : (fuel x y : ℕ) → x + y ≤ fuel → bit_xor (bit_xor x y) y ≡ x
bit_xor-twice fuel zero zero h = refl
bit_xor-twice zero (suc x) y h = absurd (omega arith)
bit_xor-twice zero zero (suc y) h = absurd (omega arith)
bit_xor-twice (suc fuel) (suc x) y h =
    twice_step (suc x) y (bit_xor-twice fuel (suc x / 2) (y / 2) (omega arith))
bit_xor-twice (suc fuel) zero (suc y) h =
    twice_step zero (suc y) (bit_xor-twice fuel (zero / 2) (suc y / 2) (omega arith))

-- `(x ^ y) ^ y` is `x`.
pub bit_xor_involutive : (x y : ℕ) → bit_xor (bit_xor x y) y ≡ x
bit_xor_involutive x y = bit_xor-twice (x + y) x y (omega arith)
