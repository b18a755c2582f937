-- ===== src/Sdp/Crypto/Choice.antt =====
-- src/hermes_voip/sdp.py: the choice of the crypto suite that is answered.
use hermes_voip.Base.{
  ◌≤◌, ◌≡◌, refl, sym, subst, true, false, ltb, List, [], ◌∷◌, ok, arith, inl, inr, All, Bool-cases,
  Result-cases, none, some, ◌⊎◌,
}
use mathlib.Core.List.{Memᴰ}
use hermes_voip.Sdp.Crypto.{
  CryptoAttribute, OurCrypto, crypto_suite_strength, strongest, offered_best, coerce_crypto,
  negotiate_answer_crypto, validate_crypto,
}
use hermes_voip.Sdp.Crypto.RoundTrip.{validate_crypto-IsValid}

-- No attribute of the list has a stronger suite.
abbrev pub NoneStronger : CryptoAttribute → List CryptoAttribute → Type 0
NoneStronger best offered =
    All (λ (a : CryptoAttribute). crypto_suite_strength a.suite ≤ crypto_suite_strength best.suite)
      offered

-- One of the attributes, and none of them is stronger.
abbrev IsMax : CryptoAttribute → List CryptoAttribute → CryptoAttribute → Type 0
IsMax best offered a = ((a ≡ best) ⊎ Memᴰ a offered) × NoneStronger a (best ∷ offered)

strongest-weaker :
    (best a : CryptoAttribute) (offered : List CryptoAttribute)
    → ltb (crypto_suite_strength best.suite) (crypto_suite_strength a.suite) ≡ true
    → strongest best (a ∷ offered) ≡ strongest a offered
unfolding strongest
strongest-weaker best a offered e = rw e refl

strongest-kept :
    (best a : CryptoAttribute) (offered : List CryptoAttribute)
    → ltb (crypto_suite_strength best.suite) (crypto_suite_strength a.suite) ≡ false
    → strongest best (a ∷ offered) ≡ strongest best offered
unfolding strongest
strongest-kept best a offered e = rw e refl

strongest-IsMax :
    (best : CryptoAttribute) (offered : List CryptoAttribute)
    → IsMax best offered (strongest best offered)
strongest-IsMax best [] = unfold strongest in (inl refl, (omega arith, tt))
strongest-IsMax best (a ∷ offered) =
    elim (Bool-cases (ltb (crypto_suite_strength best.suite) (crypto_suite_strength a.suite))) [
      | inl weaker ↦
          let (from, (top, others)) = strongest-IsMax a offered in
          subst (IsMax best (a ∷ offered)) (sym (strongest-weaker best a offered weaker)) (
            inr (elim from [ inl e ↦ Memᴰ.head e | inr m ↦ Memᴰ.tail m ]),
            (ground arith, (top, others)),
          )
      | inr kept ↦
          let (from, (top, others)) = strongest-IsMax best offered in
          subst (IsMax best (a ∷ offered)) (sym (strongest-kept best a offered kept))
            (elim from [ inl e ↦ inl e | inr m ↦ inr (Memᴰ.tail m) ], (top, (ground arith, others)))
    ]

offered_best-IsMax :
    (offered : List CryptoAttribute) (best : CryptoAttribute)
    → offered_best offered ≡ ok best
    → Memᴰ best offered × NoneStronger best offered
offered_best-IsMax [] best h = absurd (ground arith)
offered_best-IsMax (a ∷ offered) best h =
    let (from, top) = subst (IsMax a offered) (ground arith) (strongest-IsMax a offered) in
    (elim from [ inl f ↦ Memᴰ.head f | inr m ↦ Memᴰ.tail m ], top)

-- No downgrade: an answer carries the tag and the suite of an attribute of the offer that no other
-- attribute of the offer is stronger than, whatever their order; its key is our own, and the
-- whole passes the validation.
pub negotiate_answer_crypto-NoneStronger :
    (offered : List CryptoAttribute) (ours : OurCrypto) (answer : CryptoAttribute)
    → negotiate_answer_crypto offered ours ≡ ok answer
    → (best our_attr : CryptoAttribute) × Memᴰ best offered
      × NoneStronger best offered
      × (coerce_crypto ours ≡ ok (some our_attr))
      × (answer ≡ record { tag = best.tag; suite = best.suite; key_params = our_attr.key_params })
      × (validate_crypto answer ≡ ok answer)
unfolding negotiate_answer_crypto
negotiate_answer_crypto-NoneStronger offered ours answer h =
    elim (Result-cases (offered_best offered)) [
      | inr (e, bad) ↦ absurd (ground (arith, bad))
      | inl (best, chosen) ↦ elim (Result-cases (coerce_crypto ours)) [
        | inr (e, bad) ↦ absurd (ground (arith, chosen, bad))
        | inl (none, read) ↦ absurd (ground (arith, chosen, read))
        | inl (some our_attr, read) ↦
            let (among, top) = offered_best-IsMax offered best chosen in
            let made : validate_crypto
                  (record { tag = best.tag; suite = best.suite; key_params = our_attr.key_params })
                ≡ ok answer =
              ground (arith, chosen, read) in
            let (_, same) = validate_crypto-IsValid _ answer made in
            (best, our_attr, among, top, read, same, rw same (rw same at made))
      ]
    ]
