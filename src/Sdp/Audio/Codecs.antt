-- ===== src/Sdp/Audio/Codecs.antt =====
-- src/hermes_voip/sdp.py: the codecs that `negotiate_audio` agrees on, and their order.
use hermes_voip.Base.{
  ℕ, ◌≤◌, ◌≡◌, refl, sym, ap, ◌∙◌, Bool, true, false, leb, List, [], ◌∷◌, none, some, ok, arith,
  All, Option, Bool-cases, Option-cases, inl, inr, subst,
}
use mathlib.Core.List.{Permᴰ}
use hermes_voip.Base.{◌++◌, ap, ◌∙◌}
use hermes_voip.Base.Text.{Text}
use hermes_voip.Sdp.Audio.Ranks.{
  HasRank, HasRank-rank_of, rank_of-HasRank, IsEvent, HasVoice, has_voice-HasVoice,
  has_rate-HasVoice, event_of-first,
}
use hermes_voip.Sdp.Audio.{
  AudioMedia, Codec, rank_of, common, insert_codec, sort_codecs, codecs_of, negotiate_audio,
  voice_of, event_of, rate_fits,
}

-- The ranks do not fall.
abbrev pub IsSorted : List (ℕ × Codec) → Type 0
IsSorted [] = Unit {0}
IsSorted (e ∷ entries) = All (λ (f : ℕ × Codec). e.0 ≤ f.0) entries × IsSorted entries

abbrev LeAll : ℕ → List (ℕ × Codec) → Type 0
LeAll r entries = All (λ (f : ℕ × Codec). r ≤ f.0) entries

LeAll-weaken : (r s : ℕ) (entries : List (ℕ × Codec)) → r ≤ s → LeAll s entries → LeAll r entries
LeAll-weaken r s [] h a = tt
LeAll-weaken r s (e ∷ entries) h a = (omega (arith, a.0), LeAll-weaken r s entries h a.1)

LeAll-insert :
    (r : ℕ) (e : ℕ × Codec) (entries : List (ℕ × Codec))
    → r ≤ e.0
    → LeAll r entries
    → LeAll r (insert_codec e entries)
unfolding insert_codec
LeAll-insert r e [] h a = (h, tt)
LeAll-insert r e (f ∷ entries) h a = elim (Bool-cases (leb e.0 f.0)) [
  | inl le ↦ rw le (h, a)
  | inr gt ↦ rw gt (a.0, LeAll-insert r e entries h a.1)
]

insert-IsSorted :
    (e : ℕ × Codec) (entries : List (ℕ × Codec))
    → IsSorted entries
    → IsSorted (insert_codec e entries)
unfolding insert_codec
insert-IsSorted e [] s = (tt, tt)
insert-IsSorted e (f ∷ entries) s = elim (Bool-cases (leb e.0 f.0)) [
  | inl le ↦ rw le ((ground arith, LeAll-weaken e.0 f.0 entries (ground arith) s.0), s)
  | inr gt ↦ rw gt (LeAll-insert f.0 e entries (ground arith) s.0, insert-IsSorted e entries s.1)
]

sort-IsSorted : (entries : List (ℕ × Codec)) → IsSorted (sort_codecs entries)
unfolding sort_codecs
sort-IsSorted [] = tt
sort-IsSorted (e ∷ entries) = insert-IsSorted e (sort_codecs entries) (sort-IsSorted entries)

Perm_refl : (entries : List (ℕ × Codec)) → Permᴰ entries entries
Perm_refl [] = Permᴰ.nil
Perm_refl (e ∷ entries) = Permᴰ.cons refl (Perm_refl entries)

insert_codec-Perm :
    (e : ℕ × Codec) (entries : List (ℕ × Codec)) → Permᴰ (insert_codec e entries) (e ∷ entries)
unfolding insert_codec
insert_codec-Perm e [] = Permᴰ.cons refl Permᴰ.nil
insert_codec-Perm e (f ∷ entries) = elim (Bool-cases (leb e.0 f.0)) [
  | inl le ↦ rw le (Perm_refl (e ∷ f ∷ entries))
  | inr gt ↦
      rw gt (Permᴰ.trans (Permᴰ.cons refl (insert_codec-Perm e entries)) (Permᴰ.swap refl refl))
]

sort_codecs-Perm : (entries : List (ℕ × Codec)) → Permᴰ (sort_codecs entries) entries
unfolding sort_codecs
sort_codecs-Perm [] = Permᴰ.nil
sort_codecs-Perm (e ∷ entries) =
    Permᴰ.trans (insert_codec-Perm e (sort_codecs entries))
      (Permᴰ.cons refl (sort_codecs-Perm entries))

module _ (upper : Text → Text) (supported : List Text) where
  common-skip :
      (c : Codec) (offered : List Codec)
      → rank_of upper supported c ≡ none
      → common upper supported (c ∷ offered) ≡ common upper supported offered
  unfolding common
  common-skip c offered e = rw (common, e) refl

  common-take :
      (c : Codec) (offered : List Codec) (r : ℕ)
      → rank_of upper supported c ≡ some r
      → common upper supported (c ∷ offered) ≡ (r, c) ∷ common upper supported offered
  unfolding common
  common-take c offered r e = rw (common, e) refl

  -- The codecs of an offer that are supported, each with its rank, in the order of the offer.
  pub data Selection : List Codec → List (ℕ × Codec) → Type 0 where
    done : Selection [] []
    skipped :
        (c : Codec) (offered : List Codec) (entries : List (ℕ × Codec))
        → ((r : ℕ) → ¬ HasRank upper supported c r)
        → Selection offered entries
        → Selection (c ∷ offered) entries
    kept :
        (c : Codec) (r : ℕ) (offered : List Codec) (entries : List (ℕ × Codec))
        → HasRank upper supported c r
        → Selection offered entries
        → Selection (c ∷ offered) ((r, c) ∷ entries)

  common-Selection : (offered : List Codec) → Selection offered (common upper supported offered)
  common-Selection [] = unfold common in Selection.done
  common-Selection (c ∷ offered) = elim (Option-cases (rank_of upper supported c)) [
    | inl e ↦ rw (common-skip c offered e) (
        Selection.skipped c offered _
          (λ r k. unranked (rank_of upper supported c) r e (HasRank-rank_of upper supported c r k))
          (common-Selection offered))
    | inr (r, e) ↦ rw (common-take c offered r e) (
        Selection.kept c r offered _ (rank_of-HasRank upper supported c r e)
          (common-Selection offered))
  ]
    where
      unranked : (o : Option ℕ) (r : ℕ) → o ≡ none → o ≡ some r → ⊥
      unranked o r e k = cc

  -- The clock rate of the first telephone event is that of a voice codec.
  abbrev pub EventFits : (Text → Text) → List Codec → Type 0
  EventFits to_lower chosen =
      (front back : List Codec) (c : Codec)
      → chosen ≡ front ++ (c ∷ back)
      → All (λ (v : Codec). ¬ IsEvent to_lower v) front
      → IsEvent to_lower c
      → HasVoice to_lower chosen (λ v. v.clock_rate ≡ c.clock_rate)

  rate_fits-EventFits :
      (to_lower : Text → Text) (chosen : List Codec)
      → rate_fits (event_of to_lower chosen) (voice_of to_lower chosen) ≡ true
      → EventFits to_lower chosen
  rate_fits-EventFits to_lower chosen h front back c shape voices event =
      let found : event_of to_lower chosen ≡ some c =
        ap (λ (cs : List Codec). event_of to_lower cs) shape
        ∙ event_of-first to_lower front back c voices event in
      has_rate-HasVoice to_lower chosen c.clock_rate (rw found at h)

  -- The codecs that are agreed on are the codecs of the offer that are supported, each as often as it is
  -- offered: in the order of our preference if we answer, and in the peer's order if the peer has
  -- answered. A codec is supported if its name in upper case is that of a supported name, and the
  -- last such name gives its preference. One of them is a codec for voice, and the clock rate of the
  -- first telephone event among them is that of a voice codec among them.
  pub negotiate_audio-agreed :
      (to_lower : Text → Text) (offer : AudioMedia) (prefer_local : Bool) (chosen : List Codec)
      → negotiate_audio upper to_lower offer supported prefer_local ≡ ok chosen
      → (found entries : List (ℕ × Codec)) × Selection offer.codecs found
        × Permᴰ entries found
        × (prefer_local ≡ true → IsSorted entries)
        × (prefer_local ≡ false → entries ≡ found)
        × (chosen ≡ codecs_of entries)
        × HasVoice to_lower chosen (λ v. Unit {0})
        × EventFits to_lower chosen
  unfolding negotiate_audio
  negotiate_audio-agreed to_lower offer true chosen h =
      let found = common upper supported offer.codecs in
      let e : codecs_of (sort_codecs found) ≡ chosen = ground arith in
      (
        found,
        sort_codecs found,
        common-Selection offer.codecs,
        sort_codecs-Perm found,
        (λ k. sort-IsSorted found),
        (λ k. cc),
        sym e,
        subst (λ (cs : List Codec). HasVoice to_lower cs (λ v. Unit {0})) e
            (has_voice-HasVoice to_lower _ (ground arith)),
        subst (λ (cs : List Codec). EventFits to_lower cs) e
            (rate_fits-EventFits to_lower _ (ground arith)),
      )
  negotiate_audio-agreed to_lower offer false chosen h =
      let found = common upper supported offer.codecs in
      let e : codecs_of found ≡ chosen = ground arith in
      (
        found,
        found,
        common-Selection offer.codecs,
        Perm_refl found,
        (λ k. cc),
        (λ k. refl),
        sym e,
        subst (λ (cs : List Codec). HasVoice to_lower cs (λ v. Unit {0})) e
            (has_voice-HasVoice to_lower _ (ground arith)),
        subst (λ (cs : List Codec). EventFits to_lower cs) e
            (rate_fits-EventFits to_lower _ (ground arith)),
      )
