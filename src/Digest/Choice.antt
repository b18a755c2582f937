-- ===== src/Digest/Choice.antt =====
-- src/hermes_voip/digest.py: the choice among several challenges.
use hermes_voip.Base.{
  ℕ, ◌≤◌, ◌<◌, ◌≡◌, refl, true, false, ltb, List, [], ◌∷◌, Option, none, some, Option-cases,
  Bool-cases, ok, err, arith, ◌⊎◌, inl, inr, All, ltb→lt,
}
use mathlib.Core.List.{Memᴰ}
use hermes_voip.Base.Text.{Text, lower}
use hermes_voip.Digest.{
  no_challenge, unsupported_algorithm, rank, DigestChallenge, rank_of, pick_from,
  pick_best_challenge, DigestError,
}

-- No challenge of the list is ranked before `r`.
abbrev pub NoneBefore : ℕ → List DigestChallenge → Type 0
NoneBefore r chs = All (λ (ch : DigestChallenge). (s : ℕ) → rank_of ch ≡ some s → r ≤ s) chs

NoneBefore-weaken :
    (r s : ℕ) (chs : List DigestChallenge) → s ≤ r → NoneBefore r chs → NoneBefore s chs
NoneBefore-weaken r s [] h n = tt
NoneBefore-weaken r s (ch ∷ chs) h (p, n) =
    ((λ t e. omega (arith, p t e)), NoneBefore-weaken r s chs h n)

-- A challenge of the list with the least rank of the list, below `r`.
abbrev pub IsStrongest : ℕ → List DigestChallenge → DigestChallenge → Type 0
IsStrongest r chs ch = (s : ℕ) × Memᴰ ch chs × (rank_of ch ≡ some s) × (s < r) × NoneBefore s chs

pick_from-skip :
    (best : Option DigestChallenge) (r : ℕ) (ch : DigestChallenge) (chs : List DigestChallenge)
    → rank_of ch ≡ none
    → pick_from best r (ch ∷ chs) ≡ pick_from best r chs
unfolding pick_from
pick_from-skip best r ch chs e = rw (pick_from, e) refl

pick_from-take :
    (best : Option DigestChallenge) (r k : ℕ) (ch : DigestChallenge) (chs : List DigestChallenge)
    → rank_of ch ≡ some k
    → ltb k r ≡ true
    → pick_from best r (ch ∷ chs) ≡ pick_from (some ch) k chs
unfolding pick_from
pick_from-take best r k ch chs e better = rw (pick_from, e, better) refl

pick_from-keep :
    (best : Option DigestChallenge) (r k : ℕ) (ch : DigestChallenge) (chs : List DigestChallenge)
    → rank_of ch ≡ some k
    → ltb k r ≡ false
    → pick_from best r (ch ∷ chs) ≡ pick_from best r chs
unfolding pick_from
pick_from-keep best r k ch chs e worse = rw (pick_from, e, worse) refl

pick_from-IsStrongest :
    (best : Option DigestChallenge) (r : ℕ) (chs : List DigestChallenge)
    → ((pick_from best r chs ≡ best) × NoneBefore r chs)
      ⊎ ((ch : DigestChallenge) × (pick_from best r chs ≡ some ch) × IsStrongest r chs ch)
unfolding pick_from
pick_from-IsStrongest best r [] = inl (refl, tt)
pick_from-IsStrongest best r (ch ∷ chs) = elim (Option-cases (rank_of ch)) [
  | inl e ↦ rw (pick_from-skip best r ch chs e) (elim (pick_from-IsStrongest best r chs) [
    | inl (same, n) ↦ inl (same, ((λ t f. cc), n))
    | inr (c, p, (s, m, q, h, n)) ↦ inr (c, p, (s, Memᴰ.tail m, q, h, ((λ t f. cc), n)))
  ])
  | inr (k, e) ↦ elim (Bool-cases (ltb k r)) [
    | inl better ↦
        rw (pick_from-take best r k ch chs e better) (elim (pick_from-IsStrongest (some ch) k chs) [
          | inl (same, n) ↦ inr (
            ch,
            same,
            (k, Memᴰ.head refl, e, ltb→lt k r better, ((λ t f. ground (arith, e, f)), n)),
          )
          | inr (c, p, (s, m, q, h, n)) ↦ inr (
            c,
            p,
            (
              s,
              Memᴰ.tail m,
              q,
              omega (arith, ltb→lt k r better),
              ((λ t f. ground (arith, e, f)), n),
            ),
          )
        ])
    | inr worse ↦
        rw (pick_from-keep best r k ch chs e worse) (elim (pick_from-IsStrongest best r chs) [
          | inl (same, n) ↦ inl (same, ((λ t f. ground (arith, e, f, worse)), n))
          | inr (c, p, (s, m, q, h, n)) ↦
              inr (c, p, (s, Memᴰ.tail m, q, h, ((λ t f. ground (arith, e, f, worse)), n)))
        ])
  ]
]

rank_bounded : (t : Text) (s : ℕ) → rank t ≡ some s → s < 4
unfolding rank
rank_bounded t s h = ground (arith, h)

none_supported :
    (chs : List DigestChallenge)
    → NoneBefore 4 chs
    → All (λ (ch : DigestChallenge). rank_of ch ≡ none) chs
none_supported [] n = tt
none_supported (ch ∷ chs) (p, n) = (
  elim (Option-cases (rank_of ch)) [
    | inl e ↦ e
    | inr (s, e) ↦ absurd (omega (arith, p s e, rank_bounded (lower ch.algorithm) s e))
  ],
  none_supported chs n,
)

-- The choice among challenges gives one of them whose algorithm is supported and that no other
-- supported one of them is preferred to, wherever it stands; it fails only if none is supported.
pub pick_best_challenge-IsStrongest :
    (chs : List DigestChallenge)
    → ((ch : DigestChallenge) × (pick_best_challenge chs ≡ ok ch) × IsStrongest 4 chs ch)
      ⊎ ((e : DigestError) × (pick_best_challenge chs ≡ err e)
          × All (λ (ch : DigestChallenge). rank_of ch ≡ none) chs)
unfolding pick_best_challenge
pick_best_challenge-IsStrongest [] = inr (no_challenge, refl, tt)
pick_best_challenge-IsStrongest (ch ∷ chs) = elim (pick_from-IsStrongest none 4 (ch ∷ chs)) [
  | inl (same, n) ↦ inr (unsupported_algorithm, rw same refl, none_supported (ch ∷ chs) n)
  | inr (c, p, strongest) ↦ inl (c, rw p refl, strongest)
]
