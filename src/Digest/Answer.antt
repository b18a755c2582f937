-- ===== src/Digest/Answer.antt =====
-- src/hermes_voip/digest.py: what is written is read back.
use hermes_voip.Base.{
  ℕ, ◌≡◌, refl, sym, ap, ◌∙◌, Bool, true, false, not, ◌&&◌, ◌==◌, ==_iff, if◌then◌else◌, [], ◌∷◌,
  ◌++◌, Option, none, some, Bool-cases, arith, inl, inr,
}
use hermes_voip.Base.Text.{Text, all, is_empty}
use hermes_voip.Digest.{
  replace, escape, unescape, quoted_body, param_value, bare_value, is_bare, span,
}

-- The two replacements work on each character alone.
abbrev escape_char : ℕ → Text
escape_char c = if c == 92 then 92 ∷ 92 ∷ [] else if c == 34 then 92 ∷ 34 ∷ [] else c ∷ []

pub escape-cons : (c : ℕ) (cs : Text) → escape (c ∷ cs) ≡ escape_char c ++ escape cs
unfolding escape replace
escape-cons c cs = elim (Bool-cases (c == 92)) [
  | inl back ↦ rw back refl
  | inr other ↦ elim (Bool-cases (c == 34)) [
    | inl mark ↦ rw (other, mark) refl
    | inr plain ↦ rw (other, plain) refl
  ]
]

unescape-cons : (c : ℕ) (cs : Text) → (c == 92) ≡ false → unescape (c ∷ cs) ≡ c ∷ unescape cs
unfolding unescape
unescape-cons c [] h = refl
unescape-cons c (d ∷ ds) h = rw h refl

-- An escaped text is read back.
pub unescape-escape : (v : Text) → unescape (escape v) ≡ v
unfolding unescape escape replace
unescape-escape [] = refl
unescape-escape (c ∷ cs) = rw (escape-cons c cs) (elim (Bool-cases (c == 92)) [
  | inl back ↦ rw back (
      ap (λ (t : Text). 92 ∷ t) (unescape-escape cs)
      ∙ ap (λ (d : ℕ). d ∷ cs) (sym ((==_iff c 92).0 back)))
  | inr other ↦ elim (Bool-cases (c == 34)) [
    | inl mark ↦
        rw (other, mark)
          (ap (λ (t : Text). 34 ∷ t) (unescape-escape cs)
            ∙ ap (λ (d : ℕ). d ∷ cs) (sym ((==_iff c 34).0 mark)))
    | inr plain ↦
        rw (other, plain)
          (unescape-cons c (escape cs) other ∙ ap (λ (t : Text). c ∷ t) (unescape-escape cs))
  ]
])

abbrev with_body : ℕ → Option (Text × Text) → Option (Text × Text)
with_body c o = elim o [ none ↦ none | some (body, rest) ↦ some (c ∷ body, rest) ]

quoted_body-cons :
    (c : ℕ) (cs : Text)
    → (c == 34) ≡ false
    → (c == 92) ≡ false
    → quoted_body (c ∷ cs) ≡ with_body c (quoted_body cs)
unfolding quoted_body
quoted_body-cons c [] h k = rw (quoted_body, h) refl
quoted_body-cons c (d ∷ ds) h k = rw (quoted_body, h, k) refl

-- A quoted string ends at its own quote.
quoted_body-escape : (v rest : Text) → quoted_body (escape v ++ (34 ∷ rest)) ≡ some (escape v, rest)
unfolding quoted_body escape replace
quoted_body-escape [] [] = refl
quoted_body-escape [] (d ∷ ds) = refl
quoted_body-escape (c ∷ cs) rest = rw (escape-cons c cs) (elim (Bool-cases (c == 92)) [
  | inl back ↦ rw back (rw (quoted_body-escape cs rest) refl)
  | inr other ↦ elim (Bool-cases (c == 34)) [
    | inl mark ↦ rw (other, mark) (rw (quoted_body-escape cs rest) refl)
    | inr plain ↦
        rw (other, plain)
          (quoted_body-cons c (escape cs ++ (34 ∷ rest)) plain other
            ∙ rw (quoted_body-escape cs rest) refl)
  ]
])

-- Whether a text is empty or begins with a character that fails a test.
abbrev pub stops : (ℕ → Bool) → Text → Bool
stops p [] = true
stops p (c ∷ cs) = not (p c)

pub span-append :
    (p : ℕ → Bool) (xs ys : Text)
    → all p xs ≡ true
    → stops p ys ≡ true
    → span p (xs ++ ys) ≡ (xs, ys)
unfolding span
span-append p [] [] a s = refl
span-append p [] (y ∷ ys) a s = elim (Bool-cases (p y)) [
  | inl passes ↦ absurd (ground (arith, passes, s))
  | inr fails ↦ rw (span, fails) refl
]
span-append p (x ∷ xs) ys a s = elim (Bool-cases (p x)) [
  | inl passes ↦ rw (span, passes) (rw (span-append p xs ys (ground (arith, a, passes)) s) refl)
  | inr fails ↦ absurd (ground (arith, a, fails))
]

pub param_value-escape :
    (v rest : Text) → param_value (34 ∷ (escape v ++ (34 ∷ rest))) ≡ some (v, rest)
unfolding param_value
param_value-escape v rest = rw (quoted_body-escape v rest, unescape-escape v) refl

-- A value that is written without quotes.
abbrev pub is_bare_value : Text → Bool
is_bare_value [] = false
is_bare_value (c ∷ cs) = not (c == 34) && all is_bare (c ∷ cs)

bare_value-append :
    (v rest : Text)
    → is_empty v ≡ false
    → all is_bare v ≡ true
    → stops is_bare rest ≡ true
    → bare_value (v ++ rest) ≡ some (v, rest)
unfolding bare_value
bare_value-append v rest filled b s = rw (span-append is_bare v rest b s, filled) refl

pub param_value-bare :
    (v rest : Text)
    → is_bare_value v ≡ true
    → stops is_bare rest ≡ true
    → param_value (v ++ rest) ≡ some (v, rest)
unfolding param_value
param_value-bare [] rest b s = absurd (ground arith)
param_value-bare (c ∷ cs) rest b s = elim (Bool-cases (c == 34)) [
  | inl mark ↦ absurd (ground (arith, b, mark))
  | inr other ↦ rw (param_value, other) (bare_value-append (c ∷ cs) rest refl (ground arith) s)
]
