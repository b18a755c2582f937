-- ===== src/Address/Quoting.antt =====
-- src/hermes_voip/_name_addr.py: a display name in quotes hides nothing.
use hermes_voip.Base.{
  ℕ, ◌≡◌, refl, sym, ap, ◌∙◌, false, ◌==◌, [], ◌∷◌, ◌++◌, Option, none, some, Bool-cases, inl, inr,
  append_assoc,
}
use hermes_voip.Base.Text.{Text, any}
use hermes_voip.Message.Parse.Lines.{partition-first}
use hermes_voip.Digest.{escape, replace}
use hermes_voip.Digest.Answer.{escape-cons}
use hermes_voip.Address.{
  advance, inside, outside, name_addr_from, name_addr_parts, with_front, close_angle, Parts,
}

with_front-with_front :
    (s t : Text) (o : Option Parts) → with_front s (with_front t o) ≡ with_front (s ++ t) o
with_front-with_front s t none = refl
with_front-with_front s t (some (name, spec, trailing)) =
    ap (λ (n : Text). some (n, spec, trailing)) (sym (append_assoc s t name))

name_addr_from-inside :
    (c : ℕ) (cs : Text)
    → (c == 92) ≡ false
    → (c == 34) ≡ false
    → name_addr_from inside (c ∷ cs) ≡ with_front (c ∷ []) (name_addr_from inside cs)
unfolding name_addr_from advance
name_addr_from-inside c cs back mark = elim (Bool-cases (c == 60)) [
  | inl angle ↦ rw (name_addr_from, angle, back, mark) refl
  | inr shut ↦ rw (name_addr_from, shut, back, mark) refl
]

name_addr_from-escape :
    (d rest : Text)
    → name_addr_from inside (escape d ++ (34 ∷ rest))
      ≡ with_front (escape d ++ 34 ∷ []) (name_addr_from outside rest)
unfolding name_addr_from escape replace advance
name_addr_from-escape [] rest = refl
name_addr_from-escape (c ∷ cs) rest = rw (escape-cons c cs) (elim (Bool-cases (c == 92)) [
  | inl back ↦ rw back (
      rw (name_addr_from-escape cs rest) (
        with_front-with_front (92 ∷ []) (92 ∷ []) _
        ∙ with_front-with_front (92 ∷ 92 ∷ []) (escape cs ++ 34 ∷ [])
            (name_addr_from outside rest)))
  | inr other ↦ elim (Bool-cases (c == 34)) [
    | inl mark ↦
        rw (other, mark)
          (rw (name_addr_from-escape cs rest) (
            with_front-with_front (92 ∷ []) (34 ∷ []) _
            ∙ with_front-with_front (92 ∷ 34 ∷ []) (escape cs ++ 34 ∷ [])
                (name_addr_from outside rest)))
    | inr plain ↦
        rw (other, plain)
          (name_addr_from-inside c (escape cs ++ (34 ∷ rest)) other plain
            ∙ ap (λ (o : Option Parts). with_front (c ∷ []) o) (name_addr_from-escape cs rest)
            ∙ with_front-with_front (c ∷ []) (escape cs ++ 34 ∷ []) (name_addr_from outside rest))
  ]
])

pub close_angle-first :
    (spec trailing : Text)
    → any (λ (c : ℕ). c == 62) spec ≡ false
    → close_angle (spec ++ (62 ∷ trailing)) ≡ some ([], spec, trailing)
close_angle-first spec trailing h = rw (close_angle, partition-first 62 spec trailing h) refl

name_addr_from-angle :
    (spec trailing : Text)
    → any (λ (c : ℕ). c == 62) spec ≡ false
    → name_addr_from outside (32 ∷ 60 ∷ (spec ++ (62 ∷ trailing))) ≡ some (32 ∷ [], spec, trailing)
unfolding name_addr_from advance
name_addr_from-angle spec trailing h =
    ap (λ (o : Option Parts). with_front (32 ∷ []) o) (close_angle-first spec trailing h)

-- The address in angle brackets behind a quoted display name is found whole, with the parameters
-- behind it, whatever the name is, brackets, quotes and backslashes included; the address has no
-- closing bracket.
pub name_addr_parts-escape :
    (d spec trailing : Text)
    → any (λ (c : ℕ). c == 62) spec ≡ false
    → name_addr_parts (34 ∷ (escape d ++ (34 ∷ 32 ∷ 60 ∷ (spec ++ (62 ∷ trailing)))))
      ≡ some (34 ∷ (escape d ++ (34 ∷ 32 ∷ [])), spec, trailing)
unfolding name_addr_parts name_addr_from advance
name_addr_parts-escape d spec trailing h =
    rw
      (
        name_addr_from-escape d (32 ∷ 60 ∷ (spec ++ (62 ∷ trailing))),
        name_addr_from-angle spec trailing h,
      )
      (ap (λ (name : Text). some (34 ∷ name, spec, trailing))
        (append_assoc (escape d) (34 ∷ []) (32 ∷ [])))
