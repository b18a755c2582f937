-- ===== src/Framer/Refine.antt =====
-- src/hermes_voip/transport/framing.py: how the stream is cut into chunks makes no difference.
use hermes_voip.Base.{
  ℕ, zero, suc, ◌+◌, ◌≤◌, ◌<◌, ◌≡◌, refl, sym, ap, ◌∙◌, List, [], ◌∷◌, ◌++◌, length, length-append,
  arith, append-nil, append_assoc, inl, inr, ◌⊎◌,
}
use hermes_voip.Base.Text.{Text}
use hermes_voip.Framer.{
  FramingError, drain, frames, run, prepend, Drained, Stop, waiting, out_of_fuel, failed,
}
use hermes_voip.Framer.Drain.{
  step_cases, next_message-append, next_message-waiting, next_message-shorter, drain-wait,
  drain-take, drain-fail, drain_fuel, drain-le, drain_same, failed-ne-waiting,
}

-- The bytes of the chunks.
abbrev pub concat : List (List ℕ) → List ℕ
concat [] = []
concat (c ∷ cs) = c ++ concat cs

prepend-prepend :
    (ms ns : List (List ℕ)) (d : Drained) → prepend ms (prepend ns d) ≡ prepend (ms ++ ns) d
prepend-prepend ms ns d =
    ap (λ (xs : List (List ℕ)). record d { messages = xs }) (sym (append_assoc ms ns d.messages))

Stop-cases :
    (s : Stop) → (s ≡ waiting) ⊎ ((s ≡ out_of_fuel) ⊎ ((e : FramingError) × (s ≡ failed e)))
Stop-cases waiting = inl refl
Stop-cases out_of_fuel = inr (inl refl)
Stop-cases (failed e) = inr (inr (e, refl))

-- Nothing comes behind a run that waits.
prepend_last :
    (d : Drained)
    → d.stop ≡ waiting
    → prepend d.messages (record { messages = []; stop = waiting; buffer = d.buffer }) ≡ d
prepend_last d w =
    ap (λ (ms : List (List ℕ)). record { messages = ms; stop = waiting; buffer = d.buffer })
      (append-nil d.messages)
    ∙ ap (λ (s : Stop). record d { stop = s }) (sym w)

module _ (decode : List ℕ → Text) where
  -- Input that arrives after the iteration has to wait is as good as input that was there before.
  drain-append :
      (fuel : ℕ) (b more : List ℕ)
      → length (b ++ more) < fuel
      → (drain decode fuel b).stop ≡ waiting
      → drain decode fuel (b ++ more)
        ≡ prepend
            (drain decode fuel b).messages
            (drain decode fuel ((drain decode fuel b).buffer ++ more))
  drain-append zero b more h w = absurd (omega arith)
  drain-append (suc fuel) b more h w = elim (step_cases decode b) [
    | inl (r, step) ↦ rw (drain-wait decode fuel b r step) (
        sym (
          drain_same decode fuel (r ++ more) (b ++ more)
            (next_message-waiting decode b r more step)))
    | inr (inl (m, r, step)) ↦
        let less = next_message-shorter decode b m r step in
        let later : (drain decode fuel r).stop ≡ waiting =
          rw (drain-take decode fuel b m r step) at w in
        let rest = drain decode fuel r in
        let room : length (r ++ more) < fuel =
          omega (arith, length-append b more, length-append r more) in
        let fits : length (rest.buffer ++ more) < fuel = omega (
          arith,
          drain-le decode fuel r later,
          length-append r more,
          length-append rest.buffer more,
        ) in
        drain-take decode fuel (b ++ more) m (r ++ more)
          (next_message-append decode b m r more step)
        ∙ ap (λ (d : Drained). prepend (m ∷ []) d)
            (drain-append fuel r more room later
              ∙ ap (λ (d : Drained). prepend rest.messages d)
                  (drain_fuel decode fuel (suc fuel) (rest.buffer ++ more) fits (omega arith)))
        ∙ sym (
            ap (λ (d : Drained). prepend d.messages (drain decode (suc fuel) (d.buffer ++ more)))
              (drain-take decode fuel b m r step))
    | inr (inr (e, r, step)) ↦
        absurd (failed-ne-waiting e (rw (drain-fail decode fuel b r e step) at w))
  ]

  frames-drain : (fuel : ℕ) (b : List ℕ) → length b < fuel → drain decode fuel b ≡ frames decode b
  unfolding frames
  frames-drain fuel b h = drain_fuel decode fuel (length b + 1) b h (omega arith)

  frames-append :
      (b more : List ℕ)
      → (frames decode b).stop ≡ waiting
      → frames decode (b ++ more)
        ≡ prepend (frames decode b).messages (frames decode ((frames decode b).buffer ++ more))
  frames-append b more w =
      let fuel = length (b ++ more) + 1 in
      let same = frames-drain fuel b (omega (arith, length-append b more)) in
      let left = (frames decode b).buffer in
      let stops : (drain decode fuel b).stop ≡ waiting = ap (λ (d : Drained). d.stop) same ∙ w in
      let shrinks : length left ≤ length b =
        rw (ap (λ (d : Drained). length d.buffer) same) at (drain-le decode fuel b stops) in
      sym (frames-drain fuel (b ++ more) (omega arith))
      ∙ drain-append fuel b more (omega arith) stops
      ∙ ap (λ (d : Drained). prepend d.messages (drain decode fuel (d.buffer ++ more))) same
      ∙ ap (λ (d : Drained). prepend (frames decode b).messages d)
          (frames-drain fuel (left ++ more)
            (omega (arith, shrinks, length-append left more, length-append b more)))

  -- A run that goes on behind its first chunk.
  run-cons :
      (b c : List ℕ) (cs : List (List ℕ))
      → (run decode b (c ∷ cs)).stop ≡ waiting
      → ((frames decode (b ++ c)).stop ≡ waiting)
        × (run decode b (c ∷ cs)
            ≡ prepend
                (frames decode (b ++ c)).messages
                (run decode (frames decode (b ++ c)).buffer cs))
  unfolding run
  run-cons b c cs w = elim (Stop-cases (frames decode (b ++ c)).stop) [
    | inl goes_on ↦ (goes_on, rw (goes_on, run) refl)
    | inr (inl never) ↦ absurd (ground (arith, never, w))
    | inr (inr (e, fails)) ↦ absurd (ground (arith, fails, w))
  ]

  run_frames :
      (b c : List ℕ) (cs : List (List ℕ))
      → (run decode b (c ∷ cs)).stop ≡ waiting
      → run decode b (c ∷ cs) ≡ frames decode (b ++ concat (c ∷ cs))
  unfolding run
  run_frames b c [] w =
      let (goes_on, shape) = run-cons b c [] w in
      shape
      ∙ prepend_last (frames decode (b ++ c)) goes_on
      ∙ ap (λ (s : List ℕ). frames decode (b ++ s)) (sym (append-nil c))
  run_frames b c (d ∷ ds) w =
      let (goes_on, shape) = run-cons b c (d ∷ ds) w in
      let left = (frames decode (b ++ c)).buffer in
      let later : (run decode left (d ∷ ds)).stop ≡ waiting = rw shape at w in
      shape
      ∙ ap (λ (s : Drained). prepend (frames decode (b ++ c)).messages s)
          (run_frames left d ds later)
      ∙ sym (frames-append (b ++ c) (concat (d ∷ ds)) goes_on)
      ∙ ap (λ (s : List ℕ). frames decode s) (append_assoc b c (concat (d ∷ ds)))

  -- However the stream is cut into chunks, a reader that feeds each chunk and takes every message
  -- before the next ends with the messages, the stop and the buffer that one reading of all the bytes
  -- ends with, where no reading fails.
  pub run_refines :
      (c : List ℕ) (cs : List (List ℕ))
      → (run decode [] (c ∷ cs)).stop ≡ waiting
      → run decode [] (c ∷ cs) ≡ frames decode (concat (c ∷ cs))
  run_refines c cs w = run_frames [] c cs w
