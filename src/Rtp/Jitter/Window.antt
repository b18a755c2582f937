-- ===== src/Rtp/Jitter/Window.antt =====
-- src/hermes_voip/rtp.py: which packets `JitterBuffer.push` stores, drops and keeps.
use hermes_voip.Base.{
  ℕ, ◌+◌, ◌≤◌, ◌<◌, ◌≡◌, refl, ◌∙◌, true, false, ◌||◌, leb, if◌then◌else◌, [], ◌∷◌, length, none,
  some, arith,
}
use hermes_voip.Base.Dict.{lookup, contains, setdefault, lookup-setdefault_kept}
use hermes_voip.Rtp.Serial.{ahead, seq_before}
use hermes_voip.Rtp.Packet.{RtpPacket}
use hermes_voip.Rtp.Jitter.{
  JitterBuffer, packet, pop_at, pop, push, place, admit, check_ssrc, is_before,
}
use hermes_voip.Rtp.Jitter.Playout.{pop_anchored}

-- A packet of the home source goes through the source test with the playout state as it was.
pub push_home :
    (b : JitterBuffer) (p : RtpPacket)
    → b.ssrc ≡ some p.ssrc
    → push b p ≡ admit (record b { ssrc_candidate = none; ssrc_candidate_count = 0 }) p
unfolding push check_ssrc
push_home b p h = ground arith

place_of_admit :
    (b : JitterBuffer) (p : RtpPacket) (n : ℕ) → b.next ≡ some n → admit b p ≡ place b n p
unfolding admit
place_of_admit b p n at = ground arith

-- Past the source test, with the anchor at `n`: the case that every lemma below is about.
push_placed :
    (b : JitterBuffer) (p : RtpPacket) (n : ℕ)
    → b.ssrc ≡ some p.ssrc
    → b.next ≡ some n
    → push b p ≡ place (record b { ssrc_candidate = none; ssrc_candidate_count = 0 }) n p
push_placed b p n home at = push_home b p home ∙ place_of_admit _ p n at

place_keeps :
    (b : JitterBuffer) (p : RtpPacket) (n k : ℕ) {q : RtpPacket}
    → b.next ≡ some n
    → b.emitted ≡ true
    → (contains n b.packets || leb b.depth (length b.packets)) ≡ true
    → lookup k b.packets ≡ some q
    → ((place b n p).next ≡ some n) × (lookup k (place b n p).packets ≡ some q)
unfolding place
place_keeps b p n k {q} at started alive held =
    ground (arith, lookup-setdefault_kept p.sequence_number k p b.packets {w = q})

-- While playout can go on (the packet at the anchor is there, or enough packets are stored to
-- declare a loss) and has begun, a packet of the home source moves no anchor and evicts nothing:
-- what was stored under a number is still stored under it.
push_keeps :
    (b : JitterBuffer) (p : RtpPacket) (n k : ℕ) {q : RtpPacket}
    → b.ssrc ≡ some p.ssrc
    → b.next ≡ some n
    → b.emitted ≡ true
    → (contains n b.packets || leb b.depth (length b.packets)) ≡ true
    → lookup k b.packets ≡ some q
    → ((push b p).next ≡ some n) × (lookup k (push b p).packets ≡ some q)
push_keeps b p n k home at started alive held =
    rw (push_placed b p n home at) (place_keeps _ p n k at started alive held)

place_late :
    (b : JitterBuffer) (p : RtpPacket) (n : ℕ)
    → b.next ≡ some n
    → b.emitted ≡ true
    → seq_before p.sequence_number n ≡ true
    → ((place b n p).packets ≡ b.packets) × ((place b n p).next ≡ some n)
unfolding place
place_late b p n at started late = ground arith

place_inside :
    (b : JitterBuffer) (p : RtpPacket) (n : ℕ)
    → b.next ≡ some n
    → seq_before p.sequence_number n ≡ false
    → ahead n p.sequence_number ≤ b.max_ahead
    → ((place b n p).packets ≡ setdefault p.sequence_number p b.packets)
      × ((place b n p).next ≡ some n)
unfolding place
place_inside b p n at due inside = ground arith

-- After playout has begun, a packet of the home source that is before the anchor is dropped: the
-- packets and the anchor stay as they are.
pub push_late :
    (b : JitterBuffer) (p : RtpPacket) (n : ℕ)
    → b.ssrc ≡ some p.ssrc
    → b.next ≡ some n
    → b.emitted ≡ true
    → seq_before p.sequence_number n ≡ true
    → ((push b p).packets ≡ b.packets) × ((push b p).next ≡ some n)
push_late b p n home at started late =
    rw (push_placed b p n home at) (place_late _ p n at started late)

-- A packet of the home source that is not before the anchor and inside the window is stored under
-- its number, unless that number is taken (the first arrival wins); the anchor stays.
pub push_inside :
    (b : JitterBuffer) (p : RtpPacket) (n : ℕ)
    → b.ssrc ≡ some p.ssrc
    → b.next ≡ some n
    → seq_before p.sequence_number n ≡ false
    → ahead n p.sequence_number ≤ b.max_ahead
    → ((push b p).packets ≡ setdefault p.sequence_number p b.packets) × ((push b p).next ≡ some n)
push_inside b p n home at due inside =
    rw (push_placed b p n home at) (place_inside _ p n at due inside)

-- Playout is stuck at `n`: nothing is there, and too little is stored to declare a loss.
pub record IsStranded (b : JitterBuffer) (n source : ℕ) : Type 0 where
  pub bound : b.ssrc ≡ some source
  pub at : b.next ≡ some n
  pub missing : contains n b.packets ≡ false
  pub waits : length b.packets < b.depth

-- A packet of the source that is more than the window ahead of `n`.
pub record IsFar (window n source : ℕ) (p : RtpPacket) : Type 0 where
  pub home : p.ssrc ≡ source
  pub not_late : seq_before p.sequence_number n ≡ false
  pub outside : window < ahead n p.sequence_number

-- The buffer after a far packet that does not yet make a run of three.
abbrev counted : JitterBuffer → ℕ → ℕ → JitterBuffer
counted b s run = record b {
  ssrc_candidate = none;
  ssrc_candidate_count = 0;
  ahead_run = run;
  ahead_candidate = some s;
}

place_far :
    (b : JitterBuffer) (n source run : ℕ) (p : RtpPacket)
    → IsStranded b n source
    → IsFar b.max_ahead n source p
    → (if is_before b.ahead_candidate p.sequence_number then b.ahead_run + 1 else 1) ≡ run
    → run < 3
    → place b n p ≡ record b { ahead_run = run; ahead_candidate = some p.sequence_number }
unfolding place
place_far b n source run p stuck far e h = ground arith

push_far :
    (b : JitterBuffer) (n source run : ℕ) (p : RtpPacket)
    → IsStranded b n source
    → IsFar b.max_ahead n source p
    → (if is_before b.ahead_candidate p.sequence_number then b.ahead_run + 1 else 1) ≡ run
    → run < 3
    → push b p ≡ counted b p.sequence_number run
push_far b n source run p stuck far e h =
    push_placed b p n (ground arith) stuck.at ∙ place_far _ n source run p (ground arith) far e h

place_third :
    (b : JitterBuffer) (n source : ℕ) (p : RtpPacket)
    → IsStranded b n source
    → IsFar b.max_ahead n source p
    → is_before b.ahead_candidate p.sequence_number ≡ true
    → b.ahead_run ≡ 2
    → ((place b n p).next ≡ some p.sequence_number)
      × ((place b n p).packets ≡ (p.sequence_number, p) ∷ [])
unfolding place setdefault
place_third b n source p stuck far before run = ground arith

push_third :
    (b : JitterBuffer) (n source : ℕ) (p : RtpPacket)
    → IsStranded b n source
    → IsFar b.max_ahead n source p
    → is_before b.ahead_candidate p.sequence_number ≡ true
    → b.ahead_run ≡ 2
    → ((push b p).next ≡ some p.sequence_number)
      × ((push b p).packets ≡ (p.sequence_number, p) ∷ [])
push_third b n source p stuck far before run =
    rw (push_placed b p n (ground arith) stuck.at)
      (place_third _ n source p (ground arith) far before run)

pop_single :
    (b : JitterBuffer) (s : ℕ) (p : RtpPacket)
    → b.next ≡ some s
    → b.packets ≡ (s, p) ∷ []
    → (pop b).0 ≡ some (packet p)
unfolding pop_at lookup
pop_single b s p at only = rw (pop_anchored b s at, pop_at, only) (ground arith)

-- Recovery from a loss burst wider than the window: if playout is stuck, and no run of far packets
-- is counted, then three far packets of the home source in forward order move the anchor to the
-- third, and the next `pop` returns it.
pub reanchor-pop :
    (b : JitterBuffer) (n source : ℕ) (p q r : RtpPacket)
    → IsStranded b n source
    → b.ahead_candidate ≡ none
    → IsFar b.max_ahead n source p
    → IsFar b.max_ahead n source q
    → IsFar b.max_ahead n source r
    → seq_before p.sequence_number q.sequence_number ≡ true
    → seq_before q.sequence_number r.sequence_number ≡ true
    → (pop (push (push (push b p) q) r)).0 ≡ some (packet r)
reanchor-pop b n source p q r stuck idle fp fq fr pq qr =
    rw (push_far b n source 1 p stuck fp (ground arith) (omega arith)) (
      rw
        (push_far (counted b p.sequence_number 1) n source 2 q (ground arith) fq (ground arith)
          (omega arith))
        (let (at, only) =
            push_third (counted b q.sequence_number 2) n source r (ground arith) fr qr refl in
          pop_single _ r.sequence_number r at only))
