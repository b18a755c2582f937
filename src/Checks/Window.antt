-- ===== src/Checks/Window.antt =====
-- src/hermes_voip/rtp.py: the window, a source change and the recovery, on small buffers.
use hermes_voip.Base.{
  ℕ, ◌+◌, ◌≤◌, ◌<◌, ◌≡◌, refl, Bool, true, false, List, [], ◌∷◌, Option, none, some, arith,
}
use hermes_voip.Base.Dict.{lookup, setdefault}
use hermes_voip.Rtp.Serial.{seq_before, ahead}
use hermes_voip.Rtp.Jitter.{JitterBuffer, fresh, packet, push, pop}
use hermes_voip.Rtp.Jitter.Source.{pushes, pushes_hysteresis}
use hermes_voip.Rtp.Jitter.Window.{reanchor-pop, IsStranded, IsFar}
use hermes_voip.Checks.Playout.{voice, two}

-- Playout has begun: packet 65535 is out, 0 is missing, 1 is stored.
abbrev begun : JitterBuffer
begun = (pop two).1

pushes_hysteresis_example :
    (pushes two (voice 9 20 ∷ voice 9 21 ∷ [])
      ≡ record two { ssrc_candidate = some 9; ssrc_candidate_count = 2 })
    × (3 ≡ two.ssrc_hysteresis
        → push (pushes two (voice 9 20 ∷ voice 9 21 ∷ [])) (voice 9 22)
          ≡ push (fresh two.config) (voice 9 22))
unfolding push seq_before
pushes_hysteresis_example =
    pushes_hysteresis two 7 9 (voice 9 20 ∷ voice 9 21 ∷ []) (voice 9 22) refl refl
      (λ e. absurd (omega (arith, e))) (refl, (refl, tt)) refl (omega arith) (omega arith)

begun-IsStranded : IsStranded begun 0 7
unfolding push pop seq_before lookup setdefault hermes_voip.Rtp.Serial.seq_next
    hermes_voip.Base.Dict.contains hermes_voip.Base.Dict.remove
begun-IsStranded = record { bound = refl; at = refl; missing = refl; waits = omega arith }

voice-IsFar : (k : ℕ) → k < 3 → IsFar begun.max_ahead 0 7 (voice 7 (100 + k))
unfolding seq_before ahead push pop
voice-IsFar k h = record { home = refl; not_late = ground arith; outside = ground arith }

reanchor-pop_example :
    (pop (push (push (push begun (voice 7 100)) (voice 7 101)) (voice 7 102))).0
    ≡ some (packet (voice 7 102))
unfolding push pop seq_before lookup setdefault
reanchor-pop_example =
    reanchor-pop begun 0 7 (voice 7 100) (voice 7 101) (voice 7 102) begun-IsStranded refl
      (voice-IsFar 0 (omega arith)) (voice-IsFar 1 (omega arith)) (voice-IsFar 2 (omega arith)) refl
      refl
