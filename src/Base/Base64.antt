-- ===== src/Base/Base64.antt =====
-- `base64.b64encode` and `base64.b64decode` of Python's standard library, on lists of bytes and code
-- points: the strict decoder of `validate=True`, and the one that skips what is no digit.
use hermes_voip.Base.Tests.{◌==◌, ltb, leb, if◌then◌else◌}
use hermes_voip.Base.Lists.{All}
use hermes_voip.Base.Text.{any, is_space}
use Prim.Native.Nat.{ℕ, ◌+◌, ◌-◌, ◌*◌, ◌/◌, ◌%◌, ◌<◌}
use mathlib.Core.Path.{◌≡◌, refl, ap, ◌∙◌}
use mathlib.Core.Bool.{Bool, true, false, not, ◌&&◌}
use mathlib.Core.Option.{Option, none, some}
use mathlib.Core.List.{List, [], ◌∷◌}
use native.Mathlib.Omega.{arith}

-- The digit of six bits.
unfoldable pub to_digit : ℕ → ℕ
to_digit v =
    if ltb v 26
    then v + 65
    else if ltb v 52
    then v + 71
    else if ltb v 62
    then v - 4
    else if v == 62
    then 43
    else 47

-- The six bits of a digit; 64 if it is none.
unfoldable pub from_digit : ℕ → ℕ
from_digit c =
    if leb 65 c && leb c 90
    then c - 65
    else if leb 97 c && leb c 122
    then c - 71
    else if leb 48 c && leb c 57
    then c + 4
    else if c == 43
    then 62
    else if c == 47
    then 63
    else 64

unfoldable pub b64encode : List ℕ → List ℕ
b64encode [] = []
b64encode (a ∷ []) = to_digit (a / 4) ∷ to_digit (a % 4 * 16) ∷ 61 ∷ 61 ∷ []
b64encode (a ∷ b ∷ []) =
    to_digit (a / 4) ∷ to_digit (a % 4 * 16 + b / 16) ∷ to_digit (b % 16 * 4) ∷ 61 ∷ []
b64encode (a ∷ b ∷ c ∷ rest) =
    to_digit (a / 4)
    ∷ to_digit (a % 4 * 16 + b / 16)
    ∷ to_digit (b % 16 * 4 + c / 64)
    ∷ to_digit (c % 64)
    ∷ b64encode rest

-- The decoder between two characters: how many digits of a group of four it has read, the bits of
-- them that are no byte yet, how many `=` behind them, and whether any `=` came before.
pub record Reader : Type 0 where
  pub quad : ℕ
  pub left : ℕ
  pub pads : ℕ
  pub padded : Bool

abbrev pub fresh : Reader
fresh = record { quad = 0; left = 0; pads = 0; padded = false }

abbrev pub with_byte : Option ℕ → Option (List ℕ) → Option (List ℕ)
with_byte none bytes = bytes
with_byte (some b) none = none
with_byte (some b) (some bytes) = some (b ∷ bytes)

-- What a digit completes.
abbrev pub byte_of : Reader → ℕ → Option ℕ
byte_of r v =
    if r.quad == 0
    then none
    else if r.quad == 1
    then some (r.left * 4 + v / 16)
    else if r.quad == 2
    then some (r.left * 16 + v / 4)
    else some (r.left * 64 + v)

abbrev pub digit_read : Reader → ℕ → Reader
digit_read r v = record {
  quad = if r.quad == 3 then 0 else r.quad + 1;
  left =
      if r.quad == 0 then v else if r.quad == 1 then v % 16 else if r.quad == 2 then v % 4 else 0;
  pads = 0;
  padded = r.padded;
}

abbrev pub pad_read : Reader → Reader
pad_read r = record r { pads = if leb 2 r.quad then r.pads + 1 else r.pads; padded = true }

abbrev pub is_last_pad : Reader → Bool
is_last_pad r = leb 2 r.quad && leb 4 (r.quad + (r.pads + 1))

abbrev pub is_nil : List ℕ → Bool
is_nil [] = true
is_nil (c ∷ cs) = false

-- `binascii.a2b_base64(…, strict_mode=strict)`. Under strict mode padding in front of a group,
-- anything behind the padding and a character that is no digit are errors.
unfoldable pub a2b : Bool → Reader → List ℕ → Option (List ℕ)
a2b strict r [] = if r.quad == 0 then some [] else none
a2b strict r (c ∷ cs) =
    let padded = a2b strict (pad_read r) cs in
    let skipped = a2b strict r cs in
    let read = with_byte (byte_of r (from_digit c)) (a2b strict (digit_read r (from_digit c)) cs) in
    if c == 61
    then (if strict && r.quad == 0
        then none
        else if is_last_pad r
        then (if strict && not (is_nil cs) then none else some [])
        else padded)
    else if leb 64 (from_digit c)
    then (if strict then none else skipped)
    else if strict && r.padded
    then none
    else read

unfoldable pub b64decode : Bool → List ℕ → Option (List ℕ)
b64decode strict text = a2b strict fresh text

abbrev pub IsByte : ℕ → Type 0
IsByte b = b < 256

from_digit-to_digit : (v : ℕ) → v < 64 → from_digit (to_digit v) ≡ v
unfolding from_digit to_digit
from_digit-to_digit v h = ground arith

to_digit-range : (v : ℕ) → v < 64 → (to_digit v == 61) ≡ false
unfolding to_digit
to_digit-range v h = ground arith

-- A digit of six bits is read in either mode.
a2b-digit :
    (strict : Bool) (r : Reader) (v : ℕ) (cs : List ℕ)
    → v < 64
    → r.padded ≡ false
    → a2b strict r (to_digit v ∷ cs) ≡ with_byte (byte_of r v) (a2b strict (digit_read r v) cs)
unfolding a2b
a2b-digit strict r v cs small clear =
    rw (from_digit-to_digit v small, to_digit-range v small, six v small, clear) (never strict _)
  where
    six : (n : ℕ) → n < 64 → leb 64 n ≡ false
    six n h = ground arith

    never : (b : Bool) (x : Option (List ℕ)) → (if b && false then none else x) ≡ x
    never true x = refl
    never false x = refl

a2b-group :
    (strict : Bool) (a b c d : ℕ) (cs : List ℕ)
    → a < 64
    → b < 64
    → c < 64
    → d < 64
    → a2b strict fresh (to_digit a ∷ to_digit b ∷ to_digit c ∷ to_digit d ∷ cs)
      ≡ with_byte (some (a * 4 + b / 16)) (
          with_byte
            (some (b % 16 * 16 + c / 4))
            (with_byte (some (c % 4 * 64 + d)) (a2b strict fresh cs)))
a2b-group strict a b c d cs p q r s =
    a2b-digit strict fresh a _ p refl
    ∙ a2b-digit strict _ b _ q refl
    ∙ ap (with_byte (some (a * 4 + b / 16))) (
        a2b-digit strict _ c _ r refl
        ∙ ap (with_byte (some (b % 16 * 16 + c / 4))) (a2b-digit strict _ d _ s refl))

-- The end of a text whose last group has one `=` or two.
a2b-pads :
    (strict : Bool) (left : ℕ)
    → (a2b strict (record { quad = 2; left = left; pads = 0; padded = false }) (61 ∷ 61 ∷ [])
        ≡ some [])
      × (a2b strict (record { quad = 3; left = left; pads = 0; padded = false }) (61 ∷ [])
          ≡ some [])
unfolding a2b
a2b-pads true left = (refl, refl)
a2b-pads false left = (refl, refl)

first_byte : (a b : ℕ) → b < 256 → a / 4 * 4 + (a % 4 * 16 + b / 16) / 16 ≡ a
first_byte a b h = omega arith

second_byte :
    (a b c : ℕ)
    → b < 256
    → c < 256
    → (a % 4 * 16 + b / 16) % 16 * 16 + (b % 16 * 4 + c / 64) / 4 ≡ b
second_byte a b c p q = omega arith

third_byte : (b c : ℕ) → c < 256 → (b % 16 * 4 + c / 64) % 4 * 64 + c % 64 ≡ c
third_byte b c h = omega arith

last_byte : (a : ℕ) → a / 4 * 4 + a % 4 * 16 / 16 ≡ a
last_byte a = omega arith

last_two : (a b : ℕ) → b < 256 → (a % 4 * 16 + b / 16) % 16 * 16 + b % 16 * 4 / 4 ≡ b
last_two a b h = omega arith

a2b-one :
    (strict : Bool) (a b : ℕ)
    → a < 64
    → b < 64
    → a2b strict fresh (to_digit a ∷ to_digit b ∷ 61 ∷ 61 ∷ []) ≡ some ((a * 4 + b / 16) ∷ [])
a2b-one strict a b p q =
    a2b-digit strict fresh a (to_digit b ∷ 61 ∷ 61 ∷ []) p refl
    ∙ a2b-digit strict (digit_read fresh a) b (61 ∷ 61 ∷ []) q refl
    ∙ ap (with_byte (some (a * 4 + b / 16))) (a2b-pads strict (b % 16)).0

a2b-two :
    (strict : Bool) (a b c : ℕ)
    → a < 64
    → b < 64
    → c < 64
    → a2b strict fresh (to_digit a ∷ to_digit b ∷ to_digit c ∷ 61 ∷ [])
      ≡ some ((a * 4 + b / 16) ∷ (b % 16 * 16 + c / 4) ∷ [])
a2b-two strict a b c p q r =
    a2b-digit strict fresh a (to_digit b ∷ to_digit c ∷ 61 ∷ []) p refl
    ∙ a2b-digit strict (digit_read fresh a) b (to_digit c ∷ 61 ∷ []) q refl
    ∙ ap (with_byte (some (a * 4 + b / 16))) (
        a2b-digit strict (digit_read (digit_read fresh a) b) c (61 ∷ []) r refl
        ∙ ap (with_byte (some (b % 16 * 16 + c / 4))) (a2b-pads strict (c % 4)).1)

-- What is encoded is decoded as it was, in both modes.
pub b64decode-b64encode :
    (strict : Bool) (bytes : List ℕ)
    → All IsByte bytes
    → b64decode strict (b64encode bytes) ≡ some bytes
unfolding b64decode b64encode
b64decode-b64encode strict [] h = unfold a2b in refl
b64decode-b64encode strict (a ∷ []) (p, _) =
    a2b-one strict (a / 4) (a % 4 * 16) (omega arith) (omega arith) ∙ rw (last_byte a) refl
b64decode-b64encode strict (a ∷ b ∷ []) (p, (q, _)) =
    a2b-two strict (a / 4) (a % 4 * 16 + b / 16) (b % 16 * 4) (omega arith) (omega arith)
      (omega arith)
    ∙ rw (first_byte a b q, last_two a b q) refl
b64decode-b64encode strict (a ∷ b ∷ c ∷ rest) (p, (q, (r, h))) =
    a2b-group strict (a / 4) (a % 4 * 16 + b / 16) (b % 16 * 4 + c / 64) (c % 64) (b64encode rest)
      (omega arith) (omega arith) (omega arith) (omega arith)
    ∙ rw (first_byte a b q, second_byte a b c q r, third_byte b c r)
        (ap (λ t. with_byte (some a) (with_byte (some b) (with_byte (some c) t)))
          (b64decode-b64encode strict rest h))

to_digit-plain : (v : ℕ) → ((to_digit v == 124) ≡ false) × (is_space (to_digit v) ≡ false)
unfolding to_digit
to_digit-plain v = (ground arith, ground arith)

module _ (p : ℕ → Bool) (none_of : (v : ℕ) → p (to_digit v) ≡ false) (pad : p 61 ≡ false) where
  b64encode-none : (bytes : List ℕ) → any p (b64encode bytes) ≡ false
  unfolding b64encode
  b64encode-none [] = refl
  b64encode-none (a ∷ []) = rw (none_of (a / 4), none_of (a % 4 * 16), pad) refl
  b64encode-none (a ∷ b ∷ []) =
      rw (none_of (a / 4), none_of (a % 4 * 16 + b / 16), none_of (b % 16 * 4), pad) refl
  b64encode-none (a ∷ b ∷ c ∷ rest) =
      rw
        (
          none_of (a / 4),
          none_of (a % 4 * 16 + b / 16),
          none_of (b % 16 * 4 + c / 64),
          none_of (c % 64),
        )
        (b64encode-none rest)

-- An encoded text has no bar and no white space.
pub b64encode-plain :
    (bytes : List ℕ)
    → (any (λ (c : ℕ). c == 124) (b64encode bytes) ≡ false)
      × (any is_space (b64encode bytes) ≡ false)
b64encode-plain bytes = (
  b64encode-none (λ (c : ℕ). c == 124) (λ v. (to_digit-plain v).0) refl bytes,
  b64encode-none is_space (λ v. (to_digit-plain v).1) refl bytes,
)
