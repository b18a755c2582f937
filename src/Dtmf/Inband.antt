-- ===== src/Dtmf/Inband.antt =====
-- src/hermes_voip/dtmf.py: the debounce and release of `InbandDtmfDetector.feed`. The Goertzel
-- filter of `_detect_frame` is in floats: its result for a frame is the argument of `feed`.
use hermes_voip.Base.{
  ℕ, ◌+◌, ◌≤◌, ◌<◌, ◌≡◌, ◌≢◌, refl, Bool, false, not, ◌&&◌, ◌==◌, leb, if◌then◌else◌, List, [], ◌∷◌,
  Option, none, some, arith, All,
}

pub record Detector : Type 0 where
  pub emitted : Option ℕ
  pub candidate : Option ℕ
  pub run : ℕ
  pub gap_run : ℕ

abbrev pub min_press_frames : ℕ
min_press_frames = 2

abbrev pub gap_release_frames : ℕ
gap_release_frames = 3

unfoldable pub init : Detector
init = record { emitted = none; candidate = none; run = 0; gap_run = 0 }

abbrev pub is_digit : Option ℕ → ℕ → Bool
is_digit none d = false
is_digit (some e) d = d == e

-- A frame with no validated tone.
unfoldable pub feed_gap : Detector → Detector
feed_gap s =
    let t = record s { candidate = none; run = 0 } in
    elim s.emitted [
      | none ↦ t
      | some held ↦
          if leb gap_release_frames (s.gap_run + 1)
          then record t { emitted = none; gap_run = 0 }
          else record t { gap_run = s.gap_run + 1 }
    ]

-- A frame with the tone of `digit`.
unfoldable pub feed_tone : Detector → ℕ → Detector × Option ℕ
feed_tone s digit =
    let run = if is_digit s.candidate digit then s.run + 1 else 1 in
    let t = record s { gap_run = 0; candidate = some digit; run = run } in
    if leb min_press_frames run && not (is_digit s.emitted digit)
    then (record t { emitted = some digit }, some digit)
    else (t, none)

unfoldable pub feed : Detector → Option ℕ → Detector × Option ℕ
unfolding feed_gap feed_tone
feed s none = (feed_gap s, none)
feed s (some digit) = feed_tone s digit

pub feeds : Detector → List (Option ℕ) → List (Option ℕ)
feeds s [] = []
feeds s (f ∷ fs) = let rest = feeds (feed s f).0 fs in (feed s f).1 ∷ rest

-- The frames of one held key: its tone, with fewer than three frames in a row that are lost.
abbrev pub Held : ℕ → ℕ → List (Option ℕ) → Type 0
Held d gaps [] = Unit {0}
Held d gaps (none ∷ fs) = (gaps + 1 < 3) × Held d (gaps + 1) fs
Held d gaps (some e ∷ fs) = (e ≡ d) × Held d 0 fs

abbrev pub IsSilent : Option ℕ → Type 0
IsSilent o = o ≡ none

feed-gap :
    (s : Detector) (d : ℕ)
    → s.emitted ≡ some d
    → s.gap_run + 1 < 3
    → ((feed s none).0.emitted ≡ some d) × ((feed s none).0.gap_run ≡ s.gap_run + 1)
unfolding feed
feed-gap s d held few = ground arith

feed-held :
    (s : Detector) (d e : ℕ)
    → s.emitted ≡ some d
    → e ≡ d
    → ((feed s (some e)).0.emitted ≡ some d)
      × ((feed s (some e)).0.gap_run ≡ 0)
      × ((feed s (some e)).1 ≡ none)
unfolding feed
feed-held s d e held same = ground arith

-- No duplicate digit from one press: once a key has been reported, its held tone, interrupted by no
-- more than two frames in a row, reports nothing more, however long it lasts.
pub feeds-Held :
    (s : Detector) (d : ℕ) (fs : List (Option ℕ))
    → s.emitted ≡ some d
    → Held d s.gap_run fs
    → All IsSilent (feeds s fs)
unfolding feeds
feeds-Held s d [] held h = tt
feeds-Held s d (none ∷ fs) held h =
    let (still, count) = feed-gap s d held h.0 in
    (unfold feed in refl, feeds-Held (feed s none).0 d fs still (rw count h.1))
feeds-Held s d (some e ∷ fs) held h =
    let (still, count, quiet) = feed-held s d e held h.0 in
    (quiet, feeds-Held (feed s (some e)).0 d fs still (rw count h.1))

-- The debounce: a digit that is reported is the tone of this frame, was the candidate with a run of
-- at least one frame before it, and is not the key that is held.
pub feed_debounced :
    (s : Detector) (f : Option ℕ) (d : ℕ)
    → (feed s f).1 ≡ some d
    → (f ≡ some d) × (s.emitted ≢ some d) × ((s.candidate ≡ some d) × (1 ≤ s.run))
unfolding feed
feed_debounced s none d h = absurd (cc)
feed_debounced s (some e) d h = ground arith
