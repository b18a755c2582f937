-- ===== src/Sdp/Audio/Limits.antt =====
-- src/hermes_voip/sdp.py: the packet time that is agreed on.
use hermes_voip.Base.{
  ℕ, ◌≤◌, ◌≡◌, refl, subst, sym, ap, true, false, ◌==◌, ltb, if◌then◌else◌, List, [], ◌∷◌, Option,
  none, some, ok, arith, All, Bool-cases, inl, inr, ◌⊎◌,
}
use hermes_voip.Base.Text.Laws.{and_parts}
use hermes_voip.Sdp.Audio.{
  negotiate_ptime, has_ptime, within_cap, largest_fitting, or_default, larger, is_usable,
}

-- Every value of the list that fits the cap is at most `m`.
abbrev pub NoneLarger : Option ℕ → ℕ → List ℕ → Type 0
NoneLarger cap_ms m qs = All (λ (q : ℕ). within_cap cap_ms q ≡ true → q ≤ m) qs

NoneLarger-weaken :
    (cap_ms : Option ℕ) (m n : ℕ) (qs : List ℕ)
    → m ≤ n
    → NoneLarger cap_ms m qs
    → NoneLarger cap_ms n qs
NoneLarger-weaken cap_ms m n [] le h = tt
NoneLarger-weaken cap_ms m n (q ∷ qs) le h =
    ((λ fits. omega (arith, h.0 fits)), NoneLarger-weaken cap_ms m n qs le h.1)

-- What the search for the largest value finds.
abbrev Found : Option ℕ → List ℕ → Option ℕ → Type 0
Found cap_ms qs none = All (λ (q : ℕ). within_cap cap_ms q ≡ false) qs
Found cap_ms qs (some m) =
    (has_ptime m qs ≡ true) × (within_cap cap_ms m ≡ true) × NoneLarger cap_ms m qs

Found-skip :
    (cap_ms : Option ℕ) (q : ℕ) (qs : List ℕ) (o : Option ℕ)
    → within_cap cap_ms q ≡ false
    → Found cap_ms qs o
    → Found cap_ms (q ∷ qs) o
Found-skip cap_ms q qs none over found = (over, found)
Found-skip cap_ms q qs (some m) over (among, fits, top) =
    (ground (arith, among), fits, ((λ h. absurd (ground (arith, over, h))), top))

Found-take :
    (cap_ms : Option ℕ) (q : ℕ) (qs : List ℕ) (o : Option ℕ)
    → within_cap cap_ms q ≡ true
    → Found cap_ms qs o
    → Found cap_ms (q ∷ qs) (some (larger q o))
Found-take cap_ms q qs none fits found = (ground arith, fits, ((λ h. omega arith), only qs found))
  where
    only : (rs : List ℕ) → All (λ (r : ℕ). within_cap cap_ms r ≡ false) rs → NoneLarger cap_ms q rs
    only [] h = tt
    only (r ∷ rs) h = ((λ k. absurd (ground (arith, h.0, k))), only rs h.1)
Found-take cap_ms q qs (some m) fits (among, fits', top) = elim (larger-cases q m) [
  | inl (e, less) ↦
      subst (λ (v : ℕ). Found cap_ms (q ∷ qs) (some v)) (sym e)
        (ground (arith, among), fits', ((λ h. omega arith), top))
  | inr (e, more) ↦
      subst (λ (v : ℕ). Found cap_ms (q ∷ qs) (some v)) (sym e)
        (ground arith, fits, ((λ h. omega arith), NoneLarger-weaken cap_ms m q qs more top))
]
  where
    larger-cases :
        (a b : ℕ) → ((larger a (some b) ≡ b) × (a ≤ b)) ⊎ ((larger a (some b) ≡ a) × (b ≤ a))
    larger-cases a b = elim (Bool-cases (ltb a b)) [
      | inl less ↦ inl (ground arith, ground arith)
      | inr more ↦ inr (ground arith, ground arith)
    ]

largest_fitting-take :
    (cap_ms : Option ℕ) (q : ℕ) (qs : List ℕ)
    → within_cap cap_ms q ≡ true
    → some (larger q (largest_fitting cap_ms qs)) ≡ largest_fitting cap_ms (q ∷ qs)
unfolding largest_fitting
largest_fitting-take cap_ms q qs fits = rw fits refl

largest_fitting-skip :
    (cap_ms : Option ℕ) (q : ℕ) (qs : List ℕ)
    → within_cap cap_ms q ≡ false
    → largest_fitting cap_ms qs ≡ largest_fitting cap_ms (q ∷ qs)
unfolding largest_fitting
largest_fitting-skip cap_ms q qs over = rw over refl

largest_fitting-Found :
    (cap_ms : Option ℕ) (qs : List ℕ) → Found cap_ms qs (largest_fitting cap_ms qs)
largest_fitting-Found cap_ms [] = unfold largest_fitting in tt
largest_fitting-Found cap_ms (q ∷ qs) = elim (Bool-cases (within_cap cap_ms q)) [
  | inl fits ↦
      subst (Found cap_ms (q ∷ qs)) (largest_fitting-take cap_ms q qs fits)
        (Found-take cap_ms q qs (largest_fitting cap_ms qs) fits (largest_fitting-Found cap_ms qs))
  | inr over ↦
      subst (Found cap_ms (q ∷ qs)) (largest_fitting-skip cap_ms q qs over)
        (Found-skip cap_ms q qs (largest_fitting cap_ms qs) over (largest_fitting-Found cap_ms qs))
]

-- The value that the search falls back to.
fallback_lem :
    (cap_ms : Option ℕ) (qs : List ℕ) (default : ℕ) (o : Option ℕ)
    → Found cap_ms qs o
    → has_ptime default qs ≡ true
    → within_cap cap_ms default ≡ false
    → (has_ptime (or_default o default) qs ≡ true)
      × ((within_cap cap_ms (or_default o default) ≡ true
            × NoneLarger cap_ms (or_default o default) qs)
          ⊎ All (λ (q : ℕ). within_cap cap_ms q ≡ false) qs)
fallback_lem cap_ms qs default none found among over = (among, inr found)
fallback_lem cap_ms qs default (some m) (in_list, fits, top) among over = (in_list, inl (fits, top))

usable_parts :
    (o cap_ms : Option ℕ) (qs : List ℕ)
    → is_usable o cap_ms qs ≡ true
    → (v : ℕ) × (o ≡ some v) × (has_ptime v qs ≡ true) × (within_cap cap_ms v ≡ true)
usable_parts none cap_ms qs h = cc
usable_parts (some v) cap_ms qs h =
    let (among, fits) = and_parts (has_ptime v qs) (within_cap cap_ms v) h in (v, refl, among, fits)

-- The three values that can be agreed on.
negotiate_ptime-cases :
    (offer_ptime offer_maxptime : Option ℕ) (supported : List ℕ) (default p : ℕ)
    → negotiate_ptime offer_ptime offer_maxptime supported default ≡ ok p
    → (has_ptime default supported ≡ true)
      × (p ≡ (
          if is_usable offer_ptime offer_maxptime supported
          then or_default offer_ptime default
          else if within_cap offer_maxptime default
          then default
          else or_default (largest_fitting offer_maxptime supported) default))
unfolding negotiate_ptime
negotiate_ptime-cases offer_ptime offer_maxptime supported default p h =
    (ground arith, ground arith)

-- The agreed packet time is one that the engine carries. It is the one that the offer asks for where
-- that is carried and within the offer's cap; else the default, if it is within the cap; else the
-- largest carried one within the cap; and it exceeds the cap only if all that are carried do.
pub negotiate_ptime-fits :
    (offer_ptime offer_maxptime : Option ℕ) (supported : List ℕ) (default p : ℕ)
    → negotiate_ptime offer_ptime offer_maxptime supported default ≡ ok p
    → (has_ptime p supported ≡ true)
      × (is_usable offer_ptime offer_maxptime supported ≡ true → offer_ptime ≡ some p)
      × ((within_cap offer_maxptime p ≡ true)
          ⊎ All (λ (q : ℕ). within_cap offer_maxptime q ≡ false) supported)
      × (is_usable offer_ptime offer_maxptime supported ≡ false
          → within_cap offer_maxptime default ≡ true
          → p ≡ default)
      × (is_usable offer_ptime offer_maxptime supported ≡ false
          → within_cap offer_maxptime default ≡ false
          → within_cap offer_maxptime p ≡ true
          → NoneLarger offer_maxptime p supported)
negotiate_ptime-fits o cap_ms supported default p h =
    let (among, e) = negotiate_ptime-cases o cap_ms supported default p h in
    elim (Bool-cases (is_usable o cap_ms supported)) [
      | inl used ↦
          let (v, given, in_list, fits) = usable_parts o cap_ms supported used in
          let same : v ≡ p = ground (arith, e, used, given) in
          (
            rw (← same) in_list,
            (λ k. rw (← same) given),
            inl (rw (← same) fits),
            (λ k. absurd (ground (arith, used, k))),
            (λ k. absurd (ground (arith, used, k))),
          )
      | inr unused ↦ elim (Bool-cases (within_cap cap_ms default)) [
        | inl room ↦
            let same : default ≡ p = ground (arith, e, unused, room) in
            (
              rw (← same) among,
              (λ k. absurd (ground (arith, unused, k))),
              inl (rw (← same) room),
              (λ k l. sym same),
              (λ k l. absurd (ground (arith, room, l))),
            )
        | inr over ↦
            let same : or_default (largest_fitting cap_ms supported) default ≡ p =
              ground (arith, e, unused, over) in
            let (in_list, fallback) =
              fallback_lem cap_ms supported default (largest_fitting cap_ms supported)
                (largest_fitting-Found cap_ms supported) among over in
            (
              rw (← same) in_list,
              (λ k. absurd (ground (arith, unused, k))),
              elim fallback [ inl found ↦ inl (rw (← same) found.0) | inr all_over ↦ inr all_over ],
              (λ k l. absurd (ground (arith, over, l))),
              (λ k l m. elim fallback [
                | inl found ↦ rw (← same) found.1
                | inr all_over ↦ absurd (beyond supported all_over p (rw (← same) in_list) m)
              ]),
            )
      ]
    ]
  where
    beyond :
        (qs : List ℕ)
        → All (λ (q : ℕ). within_cap cap_ms q ≡ false) qs
        → (v : ℕ) → has_ptime v qs ≡ true
        → within_cap cap_ms v ≡ true
        → ⊥
    beyond [] none_fits v k m = cc
    beyond (q ∷ qs) none_fits v k m = elim (Bool-cases (q == v)) [
      | inl here ↦
          let at : q ≡ v = ground (arith, here) in
          ground (arith, none_fits.0, ap (within_cap cap_ms) at, m)
      | inr there ↦ beyond qs none_fits.1 v (ground (arith, there, k)) m
    ]
