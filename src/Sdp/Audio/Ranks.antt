-- ===== src/Sdp/Audio/Ranks.antt =====
-- src/hermes_voip/sdp.py: the rank of a codec among the supported names, and the voice codecs and
-- telephone events of a list, apart from the code that finds them.
use hermes_voip.Base.{
  ℕ, suc, ◌+◌, ◌≡◌, ◌≢◌, refl, sym, subst, ap, ◌∙◌, true, false, ◌==◌, ==_iff, if◌then◌else◌, List,
  [], ◌∷◌, ◌++◌, length, Option, none, some, arith, All, Bool-cases, Option-cases, inl, inr,
}
use mathlib.Core.List.{Memᴰ}
use hermes_voip.Base.Text.{Text, same_text}
use hermes_voip.Base.Text.Laws.{same_text→≡, same_text_refl}
use hermes_voip.Sdp.Audio.{
  Codec, rank_from, rank_of, telephone_event, is_event, voice_of, event_of, has_rate, has_voice,
}

differs : (a b : Text) → a ≢ b → same_text a b ≡ false
differs a b h = elim (Bool-cases (same_text a b)) [
  | inl same ↦ absurd (h (same_text→≡ a b same))
  | inr other ↦ other
]

equals : (a b : Text) → a ≡ b → same_text a b ≡ true
equals a b e = rw e (same_text_refl b)

module _ (upper : Text → Text) where
  abbrev NoneNamed : Text → List Text → Type 0
  NoneNamed name names = All (λ (s : Text). upper s ≢ name) names

  -- The last of the supported names that is the codec's in upper case stands at the rank.
  abbrev pub HasRank : List Text → Codec → ℕ → Type 0
  HasRank supported c r =
      (front back : List Text) × (s : Text) × (supported ≡ front ++ (s ∷ back))
      × (length front ≡ r)
      × (upper s ≡ upper c.encoding)
      × NoneNamed (upper c.encoding) back

  rank_from-none :
      (i : ℕ) (names : List Text) (name : Text)
      → NoneNamed name names
      → rank_from upper i names name ≡ none
  unfolding rank_from
  rank_from-none i [] name h = refl
  rank_from-none i (s ∷ names) name h =
      rw (rank_from-none (suc i) names name h.1, differs (upper s) name h.0) refl

  rank_from-found :
      (i : ℕ) (front back : List Text) (s name : Text)
      → upper s ≡ name
      → NoneNamed name back
      → rank_from upper i (front ++ (s ∷ back)) name ≡ some (i + length front)
  unfolding rank_from
  rank_from-found i [] back s name e h =
      let same : i ≡ i + 0 = omega arith in
      rw (rank_from-none (suc i) back name h, equals (upper s) name e) (ap (λ (n : ℕ). some n) same)
  rank_from-found i (f ∷ front) back s name e h =
      let same : suc i + length front ≡ i + suc (length front) = omega arith in
      rw (rank_from-found (suc i) front back s name e h) (ap (λ (n : ℕ). some n) same)

  pub HasRank-rank_of :
      (supported : List Text) (c : Codec) (r : ℕ)
      → HasRank supported c r
      → rank_of upper supported c ≡ some r
  unfolding rank_of
  HasRank-rank_of supported c r (front, back, s, shape, at, e, h) =
      ap (λ (names : List Text). rank_from upper 0 names (upper c.encoding)) shape
      ∙ rank_from-found 0 front back s (upper c.encoding) e h
      ∙ ap (λ (n : ℕ). some n) (omega (arith, at))

  -- What the search finds behind `i` names.
  abbrev Found : ℕ → List Text → Text → Option ℕ → Type 0
  Found i names name none = NoneNamed name names
  Found i names name (some r) =
      (front back : List Text) × (s : Text) × (names ≡ front ++ (s ∷ back))
      × (i + length front ≡ r)
      × (upper s ≡ name)
      × NoneNamed name back

  Found-later :
      (i r : ℕ) (s : Text) (names : List Text) (name : Text)
      → Found (suc i) names name (some r)
      → Found i (s ∷ names) name (some r)
  Found-later i r s names name (front, back, t, shape, at, e, h) =
      (s ∷ front, back, t, ap (λ ts. s ∷ ts) shape, omega (arith, at), e, h)

  rank_from-later :
      (i r : ℕ) (s : Text) (names : List Text) (name : Text)
      → rank_from upper (suc i) names name ≡ some r
      → rank_from upper i (s ∷ names) name ≡ some r
  unfolding rank_from
  rank_from-later i r s names name e = rw e refl

  rank_from-here :
      (i : ℕ) (s : Text) (names : List Text) (name : Text)
      → rank_from upper (suc i) names name ≡ none
      → rank_from upper i (s ∷ names) name ≡ (if same_text (upper s) name then some i else none)
  unfolding rank_from
  rank_from-here i s names name e = rw e refl

  rank_from-Found :
      (i : ℕ) (names : List Text) (name : Text) → Found i names name (rank_from upper i names name)
  rank_from-Found i [] name = unfold rank_from in tt
  rank_from-Found i (s ∷ names) name =
      let rest = rank_from-Found (suc i) names name in
      elim (Option-cases (rank_from upper (suc i) names name)) [
        | inr (later, k) ↦
            subst (Found i (s ∷ names) name) (sym (rank_from-later i later s names name k))
              (Found-later i later s names name (subst (Found (suc i) names name) k rest))
        | inl k ↦
            let behind = subst (Found (suc i) names name) k rest in
            elim (Bool-cases (same_text (upper s) name)) [
              | inl same ↦
                  let at : rank_from upper i (s ∷ names) name ≡ some i =
                    rank_from-here i s names name k ∙ (rw same refl) in
                  subst (Found i (s ∷ names) name) (sym at)
                    ([], names, s, refl, omega arith, same_text→≡ (upper s) name same, behind)
              | inr other ↦
                  let at : rank_from upper i (s ∷ names) name ≡ none =
                    rank_from-here i s names name k ∙ (rw other refl) in
                  subst (Found i (s ∷ names) name) (sym at)
                    ((λ e. ground (arith, other, equals (upper s) name e)), behind)
            ]
      ]

  pub rank_of-HasRank :
      (supported : List Text) (c : Codec) (r : ℕ)
      → rank_of upper supported c ≡ some r
      → HasRank supported c r
  unfolding rank_of
  rank_of-HasRank supported c r e =
      let (front, back, s, shape, at, same, h) =
        subst (Found 0 supported (upper c.encoding)) e
          (rank_from-Found 0 supported (upper c.encoding)) in
      (front, back, s, shape, omega (arith, at), same, h)

module _ (to_lower : Text → Text) where
  abbrev pub IsEvent : Codec → Type 0
  IsEvent c = to_lower c.encoding ≡ telephone_event

  -- A codec for voice of the list, with a clock rate.
  abbrev pub HasVoice : List Codec → (Codec → Type 0) → Type 0
  HasVoice codecs P = (v : Codec) × Memᴰ v codecs × (¬ IsEvent v) × P v

  HasVoice-later :
      (c : Codec) (codecs : List Codec) (P : Codec → Type 0)
      → HasVoice codecs P
      → HasVoice (c ∷ codecs) P
  HasVoice-later c codecs P (v, m, voice, p) = (v, Memᴰ.tail m, voice, p)

  is_event-false : (c : Codec) → is_event to_lower c ≡ false → ¬ IsEvent c
  is_event-false c h e = ground (arith, h, equals (to_lower c.encoding) telephone_event e)

  pub has_voice-HasVoice :
      (codecs : List Codec)
      → has_voice (voice_of to_lower codecs) ≡ true
      → HasVoice codecs (λ v. Unit {0})
  unfolding voice_of
  has_voice-HasVoice [] h = cc
  has_voice-HasVoice (c ∷ codecs) h = elim (Bool-cases (is_event to_lower c)) [
    | inl event ↦ HasVoice-later c codecs _ (has_voice-HasVoice codecs (rw event at h))
    | inr voice ↦ (c, Memᴰ.head refl, is_event-false c voice, tt)
  ]

  pub has_rate-HasVoice :
      (codecs : List Codec) (rate : ℕ)
      → has_rate rate (voice_of to_lower codecs) ≡ true
      → HasVoice codecs (λ v. v.clock_rate ≡ rate)
  unfolding voice_of
  has_rate-HasVoice [] rate h = cc
  has_rate-HasVoice (c ∷ codecs) rate h = elim (Bool-cases (is_event to_lower c)) [
    | inl event ↦ HasVoice-later c codecs _ (has_rate-HasVoice codecs rate (rw event at h))
    | inr voice ↦ elim (Bool-cases (c.clock_rate == rate)) [
      | inl same ↦ (c, Memᴰ.head refl, is_event-false c voice, (==_iff c.clock_rate rate).0 same)
      | inr other ↦
          HasVoice-later c codecs _ (has_rate-HasVoice codecs rate (rw (voice, other) at h))
    ]
  ]

  -- The first telephone event of a list.
  pub event_of-first :
      (front back : List Codec) (c : Codec)
      → All (λ (v : Codec). ¬ IsEvent v) front
      → IsEvent c
      → event_of to_lower (front ++ (c ∷ back)) ≡ some c
  unfolding event_of
  event_of-first [] back c h e = rw (equals (to_lower c.encoding) telephone_event e) refl
  event_of-first (v ∷ front) back c h e =
      rw (differs (to_lower v.encoding) telephone_event h.0) (event_of-first front back c h.1 e)
