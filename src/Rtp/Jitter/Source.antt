-- ===== src/Rtp/Jitter/Source.antt =====
-- src/hermes_voip/rtp.py: the hysteresis of `JitterBuffer` on a change of the source (SSRC).
use hermes_voip.Base.{
  ℕ, suc, ◌+◌, ◌≤◌, ◌<◌, ◌≡◌, ◌≢◌, refl, ◌∙◌, if◌then◌else◌, List, [], ◌∷◌, length, none, some,
  arith, All,
}
use hermes_voip.Rtp.Packet.{RtpPacket}
use hermes_voip.Rtp.Jitter.{JitterBuffer, push, check_ssrc, is_some_of, fresh}

-- The calls of `push` on a list of packets, in order.
pub pushes : JitterBuffer → List RtpPacket → JitterBuffer
pushes b [] = b
pushes b (p ∷ ps) = pushes (push b p) ps

-- The buffer that has counted `n` packets in a row of the foreign source `x`.
abbrev pub counting : JitterBuffer → ℕ → ℕ → JitterBuffer
counting b x n = record b { ssrc_candidate = some x; ssrc_candidate_count = n }

push_foreign :
    (b : JitterBuffer) (home x n : ℕ) (p : RtpPacket)
    → b.ssrc ≡ some home
    → p.ssrc ≡ x
    → x ≢ home
    → (if is_some_of b.ssrc_candidate x then b.ssrc_candidate_count + 1 else 1) ≡ n
    → n < b.ssrc_hysteresis
    → push b p ≡ counting b x n
unfolding push check_ssrc
push_foreign b home x n p h s d e lt = ground arith

-- The packet that completes the count.
push_switch :
    (b : JitterBuffer) (home x : ℕ) (p : RtpPacket)
    → b.ssrc ≡ some home
    → p.ssrc ≡ x
    → x ≢ home
    → b.ssrc_hysteresis ≤ (if is_some_of b.ssrc_candidate x then b.ssrc_candidate_count + 1 else 1)
    → push b p ≡ push (fresh b.config) p
unfolding push check_ssrc
push_switch b home x p h s d le = ground arith

abbrev pub AllFrom : ℕ → List RtpPacket → Type 0
AllFrom x ps = All (λ (p : RtpPacket). p.ssrc ≡ x) ps

pushes-counting :
    (b : JitterBuffer) (home x n : ℕ) (ps : List RtpPacket)
    → b.ssrc ≡ some home
    → x ≢ home
    → AllFrom x ps
    → n + length ps < b.ssrc_hysteresis
    → pushes (counting b x n) ps ≡ counting b x (n + length ps)
unfolding pushes
pushes-counting b home x n [] h d a lt = let same : n + 0 ≡ n = omega arith in rw same refl
pushes-counting b home x n (p ∷ ps) h d a lt =
    rw (push_foreign (counting b x n) home x (n + 1) p h a.0 d (ground arith) (omega arith)) (
      pushes-counting b home x (n + 1) ps h d a.1 (omega arith)
      ∙ (let same : n + 1 + length ps ≡ n + suc (length ps) = omega arith in rw same refl))

pushes_run :
    (b : JitterBuffer) (home x : ℕ) (p : RtpPacket) (ps : List RtpPacket)
    → b.ssrc ≡ some home
    → b.ssrc_candidate ≡ none
    → x ≢ home
    → AllFrom x (p ∷ ps)
    → suc (length ps) < b.ssrc_hysteresis
    → pushes b (p ∷ ps) ≡ counting b x (1 + length ps)
unfolding pushes
pushes_run b home x p ps h c d a lt =
    rw (push_foreign b home x 1 p h a.0 d (ground arith) (omega arith))
      (pushes-counting b home x 1 ps h d a.1 (omega arith))

-- Exactly at the hysteresis (of at least 2, with no foreign packet counted yet) the buffer changes over:
-- any fewer packets of a foreign source change nothing but the candidate and its count, and the
-- packet that completes the count leaves the buffer in every field as a new buffer of the same
-- configuration would be after that packet alone.
pub pushes_hysteresis :
    (b : JitterBuffer) (home x : ℕ) (ps : List RtpPacket) (q : RtpPacket)
    → b.ssrc ≡ some home
    → b.ssrc_candidate ≡ none
    → x ≢ home
    → AllFrom x ps
    → q.ssrc ≡ x
    → 1 ≤ length ps
    → length ps < b.ssrc_hysteresis
    → (pushes b ps ≡ record b { ssrc_candidate = some x; ssrc_candidate_count = length ps })
      × (suc (length ps) ≡ b.ssrc_hysteresis → push (pushes b ps) q ≡ push (fresh b.config) q)
pushes_hysteresis b home x [] q h c d a s pos few = absurd (omega arith)
pushes_hysteresis b home x (p ∷ ps) q h c d a s pos few =
    let one : 1 + length ps ≡ suc (length ps) = omega arith in
    rw (pushes_run b home x p ps h c d a (omega arith), one)
      (refl, (λ full. push_switch (counting b x (suc (length ps))) home x q h s d (ground arith)))
