-- ===== src/Digest/Plain.antt =====
-- src/hermes_voip/digest.py: the values that are written without quotes.
use hermes_voip.Base.{
  ℕ, zero, suc, ◌/◌, ◌%◌, ◌<◌, ◌≡◌, refl, sym, ◌∙◌, Bool, true, false, not, ◌&&◌, ◌||◌, ◌==◌, leb,
  [], ◌∷◌, ◌++◌, some, Bool-cases, arith, inl, inr,
}
use hermes_voip.Base.Text.{Text, all, lower, lower_char, is_empty, same_text, is_digit}
use hermes_voip.Digest.{rank, hex, hex_digit, is_bare, md5, md5_sess, sha_256, sha_256_sess}
use hermes_voip.Digest.Answer.{is_bare_value}

-- A character that needs no quotes wherever it stands.
abbrev pub is_plain : ℕ → Bool
is_plain c = not (c == 34) && is_bare c

plain-is_bare : (s : Text) → all is_plain s ≡ true → all is_bare s ≡ true
plain-is_bare [] h = refl
plain-is_bare (c ∷ cs) h = let rest = plain-is_bare cs (ground arith) in ground (arith, rest)

pub plain-is_bare_value :
    (s : Text) → is_empty s ≡ false → all is_plain s ≡ true → is_bare_value s ≡ true
plain-is_bare_value [] f h = absurd (ground arith)
plain-is_bare_value (c ∷ cs) f h = let rest = plain-is_bare (c ∷ cs) h in ground (arith, rest)

all-append :
    (p : ℕ → Bool) (xs ys : Text) → all p xs ≡ true → all p ys ≡ true → all p (xs ++ ys) ≡ true
all-append p [] ys h k = k
all-append p (x ∷ xs) ys h k =
    let rest = all-append p xs ys (ground arith) k in ground (arith, rest)

hex_digit-is_plain : (d : ℕ) → d < 16 → is_plain (hex_digit d) ≡ true
hex_digit-is_plain d h = ground arith

pub hex-is_plain : (places n : ℕ) → all is_plain (hex places n) ≡ true
unfolding hex
hex-is_plain zero n = refl
hex-is_plain (suc places) n =
    all-append is_plain (hex places (n / 16)) (hex_digit (n % 16) ∷ [])
      (hex-is_plain places (n / 16))
      (let last = hex_digit-is_plain (n % 16) (omega arith) in ground (arith, last))

filled-append : (xs : Text) (y : ℕ) → is_empty (xs ++ y ∷ []) ≡ false
filled-append [] y = refl
filled-append (x ∷ xs) y = refl

pub hex-filled : (places n : ℕ) → is_empty (hex (suc places) n) ≡ false
unfolding hex
hex-filled places n = filled-append (hex places (n / 16)) (hex_digit (n % 16))

-- The spelling of an algorithm is plain, since it is that of a supported one but for the case.
abbrev is_key : ℕ → Bool
is_key c = is_digit c || ((leb 97 c && leb c 122) || c == 45)

is_key-is_plain : (c d : ℕ) → (lower_char d == c) ≡ true → is_key c ≡ true → is_plain d ≡ true
is_key-is_plain c d e k = ground arith

keys-is_plain :
    (w s : Text)
    → same_text w (lower s) ≡ true
    → all is_key w ≡ true
    → (is_empty w ≡ is_empty s) × (all is_plain s ≡ true)
keys-is_plain [] [] h k = (refl, refl)
keys-is_plain [] (d ∷ ds) h k = absurd (ground arith)
keys-is_plain (c ∷ cs) [] h k = absurd (ground arith)
keys-is_plain (c ∷ cs) (d ∷ ds) h k =
    let rest = keys-is_plain cs ds (ground arith) (ground arith) in
    let here = is_key-is_plain c d (ground arith) (ground arith) in
    (refl, ground (arith, rest.1, here))

supported :
    (w algorithm : Text)
    → same_text w (lower algorithm) ≡ true
    → all is_key w ≡ true
    → is_empty w ≡ false
    → is_bare_value algorithm ≡ true
supported w algorithm h k f =
    let (same, plain) = keys-is_plain w algorithm h k in
    plain-is_bare_value algorithm (sym same ∙ f) plain

pub algorithm-is_bare_value :
    (algorithm : Text) (s : ℕ) → rank (lower algorithm) ≡ some s → is_bare_value algorithm ≡ true
unfolding rank
algorithm-is_bare_value algorithm s h =
    elim (Bool-cases (same_text sha_256_sess (lower algorithm))) [
      | inl one ↦ supported sha_256_sess algorithm one refl refl
      | inr not_one ↦ elim (Bool-cases (same_text sha_256 (lower algorithm))) [
        | inl two ↦ supported sha_256 algorithm two refl refl
        | inr not_two ↦ elim (Bool-cases (same_text md5_sess (lower algorithm))) [
          | inl three ↦ supported md5_sess algorithm three refl refl
          | inr not_three ↦ elim (Bool-cases (same_text md5 (lower algorithm))) [
            | inl four ↦ supported md5 algorithm four refl refl
            | inr not_four ↦
                absurd (ground (arith, rw (not_one, not_two, not_three, not_four) at h))
          ]
        ]
      ]
    ]
