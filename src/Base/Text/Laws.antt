-- ===== src/Base/Text/Laws.antt =====
-- Laws of the comparison of texts and of decimals.
use hermes_voip.Base.Tests.{◌==◌, ==_iff, ltb, Bool-cases}
use hermes_voip.Base.Lists.{length, length-append}
use hermes_voip.Base.Text.{Text, same_text, show, is_digit, all, any, is_space, split}
use Prim.Native.Nat.{ℕ, zero, suc, ◌+◌, ◌/◌, ◌%◌, ◌^◌, ◌≤◌, ◌<◌}
use mathlib.Core.Path.{◌≡◌, refl, ap, ◌∙◌}
use mathlib.Core.Logic.{inl, inr}
use mathlib.Core.Bool.{Bool, true, false, ◌&&◌}
use mathlib.Core.List.{[], ◌∷◌, ◌++◌}
use native.Mathlib.Nat.{pow-suc}
use native.Mathlib.Omega.{arith}
use hermes_voip.Base.Text.Decimal.{Digits}

pub and_parts : (a b : Bool) → (a && b) ≡ true → (a ≡ true) × (b ≡ true)
and_parts true b h = (refl, h)
and_parts false b h = absurd (ground arith)

pub and_join : (a b : Bool) → a ≡ true → b ≡ true → (a && b) ≡ true
and_join a b h k = rw (h, k) refl

pub same_text→≡ : (s t : Text) → same_text s t ≡ true → s ≡ t
same_text→≡ [] [] h = refl
same_text→≡ [] (d ∷ ds) h = absurd (ground arith)
same_text→≡ (c ∷ cs) [] h = absurd (ground arith)
same_text→≡ (c ∷ cs) (d ∷ ds) h =
    let (e, rest) = and_parts (c == d) (same_text cs ds) h in
    ap (λ (x : ℕ). x ∷ cs) ((==_iff c d).0 e) ∙ ap (λ (t : Text). d ∷ t) (same_text→≡ cs ds rest)

pub same_text_refl : (s : Text) → same_text s s ≡ true
same_text_refl [] = refl
same_text_refl (c ∷ cs) = let rest = same_text_refl cs in ground (arith, rest)

-- The first digit of a number that is not 0.
abbrev pub LeadsWith : (ℕ → Type 0) → Text → Type 0
LeadsWith P [] = ⊥
LeadsWith P (c ∷ cs) = P c

LeadsWith-append : (P : ℕ → Type 0) (xs ys : Text) → LeadsWith P xs → LeadsWith P (xs ++ ys)
LeadsWith-append P [] ys h = absurd h
LeadsWith-append P (x ∷ xs) ys h = h

pub show-lead : (k n : ℕ) → n < k → 0 < n → LeadsWith (λ c. 48 < c) (show k n)
unfolding show
show-lead zero n h pos = absurd (omega arith)
show-lead (suc k) n h pos = elim (Bool-cases (ltb n 10)) [
  | inl small ↦ rw small (omega arith)
  | inr large ↦
      rw large (
        LeadsWith-append _ (show k (n / 10)) _ (show-lead k (n / 10) (ground arith) (ground arith)))
]

-- A number below a power of ten has as many digits at most.
pub length-show : (k n d : ℕ) → n < 10 ^ suc d → length (show k n) ≤ suc d
unfolding show
length-show zero n d h = omega arith
length-show (suc k) n d h = elim (Bool-cases (ltb n 10)) [
  | inl small ↦ rw small (omega arith)
  | inr large ↦ rw large (longer (length-show k (n / 10)) d h (ground arith))
]
  where
    longer :
        ((f : ℕ) → n / 10 < 10 ^ suc f → length (show k (n / 10)) ≤ suc f)
        → (e : ℕ) → n < 10 ^ suc e
        → 10 ≤ n
        → length (show k (n / 10) ++ (48 + n % 10) ∷ []) ≤ suc e
    longer ih zero lt ge = absurd (omega arith)
    longer ih (suc f) lt ge = omega (
      arith,
      length-append (show k (n / 10)) ((48 + n % 10) ∷ []),
      ih f (omega (arith, pow-suc 10 (suc f))),
    )

pub Digits→all : (ds : Text) → Digits ds → all is_digit ds ≡ true
Digits→all [] d = refl
Digits→all (c ∷ cs) d = and_join (is_digit c) (all is_digit cs) d.0 (Digits→all cs d.1)

pub Digits→solid : (ds : Text) → Digits ds → any is_space ds ≡ false
Digits→solid [] d = refl
Digits→solid (c ∷ cs) d = rw (digit_solid c d.0) (Digits→solid cs d.1)
  where
    digit_solid : (x : ℕ) → is_digit x ≡ true → is_space x ≡ false
    digit_solid x h = ground arith

-- A text in which the separator does not stand.
pub split-part :
    (sep : ℕ) (t s : Text)
    → any (λ (c : ℕ). c == sep) t ≡ false
    → split sep (t ++ (sep ∷ s)) ≡ (t, (split sep s).0 ∷ (split sep s).1)
unfolding split
split-part sep [] s h = rw ((==_iff sep sep).1 refl) refl
split-part sep (c ∷ t) s h = elim (Bool-cases (c == sep)) [
  | inl e ↦ absurd (ground (arith, e))
  | inr e ↦ rw (split-part sep t s (ground (arith, e)), e) refl
]

pub split-whole : (sep : ℕ) (t : Text) → any (λ (c : ℕ). c == sep) t ≡ false → split sep t ≡ (t, [])
unfolding split
split-whole sep [] h = refl
split-whole sep (c ∷ t) h = elim (Bool-cases (c == sep)) [
  | inl e ↦ absurd (ground (arith, e))
  | inr e ↦ rw (split-whole sep t (ground (arith, e)), e) refl
]
