-- ===== src/Rtp/Jitter/Playout.antt =====
-- src/hermes_voip/rtp.py: what `JitterBuffer.pop` hands to the media loop.
use hermes_voip.Base.{
  ℕ, zero, suc, ◌+◌, ◌%◌, ◌≤◌, ◌<◌, ◌≡◌, refl, true, false, ◌==◌, ltb, leb, List, [], ◌∷◌, length,
  Option, none, some, arith, inl, inr, Bool-cases, Option-cases, ◌⊎◌, ltb→lt,
}
use hermes_voip.Base.Dict.{lookup, contains, lookup-All}
use hermes_voip.Rtp.Serial.{seq_mod, seq_half, ahead, seq_next}
use hermes_voip.Rtp.Jitter.{
  JitterBuffer, JitterOutput, packet, gone, pop_at, pop, peek, coalesced_gap, gap_scan,
}
use hermes_voip.Rtp.Jitter.Invariant.{IsSound, IsKeyed, pop-IsSound}

-- `peek` tells what the next `pop` will return, the length of a coalesced loss included.
peek-pop : (b : JitterBuffer) → peek b ≡ (pop b).0
unfolding peek pop
peek-pop b = ground arith

ahead_offset : (e g : ℕ) → e < seq_mod → g < seq_half → ahead e ((e + g) % seq_mod) ≡ g
unfolding ahead
ahead_offset e g he hg = omega arith

seq_next_offset : (e g : ℕ) → seq_next ((e + g) % seq_mod) ≡ (e + (g + 1)) % seq_mod
unfolding seq_next
seq_next_offset e g = omega arith

-- The slots from `from` up to `stop` behind the anchor hold nothing.
abbrev Empty : JitterBuffer → ℕ → ℕ → ℕ → Type 0
Empty b e from stop = (i : ℕ) → from ≤ i → i < stop → contains ((e + i) % seq_mod) b.packets ≡ false

Empty-extend :
    (b : JitterBuffer) (e from stop : ℕ)
    → contains ((e + from) % seq_mod) b.packets ≡ false
    → Empty b e (from + 1) stop
    → Empty b e from stop
Empty-extend b e from stop h rest i lo hi = elim (Bool-cases (from == i)) [
  | inl here ↦ let at : from ≡ i = ground arith in rw (← at) h
  | inr later ↦ rest i (ground arith) hi
]

-- What the scan has found when it stops at a count of `g`.
abbrev Scanned : JitterBuffer → ℕ → ℕ → ℕ → Type 0
Scanned b e from g =
    (from ≤ g)
    × (g ≤ b.max_ahead)
    × Empty b e from g
    × ((contains ((e + g) % seq_mod) b.packets ≡ true) ⊎ (g ≡ b.max_ahead))

Scanned-extend :
    (b : JitterBuffer) (e from g : ℕ)
    → contains ((e + from) % seq_mod) b.packets ≡ false
    → Scanned b e (from + 1) g
    → Scanned b e from g
Scanned-extend b e from g free (a, c, empty, stop) =
    (omega arith, c, Empty-extend b e from g free empty, stop)

gap_scan_lem :
    (rounds : ℕ) (b : JitterBuffer) (e from : ℕ)
    → e < seq_mod
    → b.max_ahead < seq_half
    → from ≤ b.max_ahead
    → b.max_ahead ≤ from + rounds
    → Scanned b e from (gap_scan rounds b e ((e + from) % seq_mod) from)
unfolding gap_scan
gap_scan_lem zero b e from he hw lo hi =
    (omega arith, omega arith, (λ i p q. absurd (omega arith)), inr (omega arith))
gap_scan_lem (suc rounds) b e from he hw lo hi =
    rw (seq_next_offset e from, ahead_offset e from he (omega arith))
      (elim (Bool-cases (contains ((e + from) % seq_mod) b.packets)) [
        | inl held ↦ rw held (omega arith, lo, (λ i p q. absurd (omega arith)), inl held)
        | inr free ↦ rw free (elim (Bool-cases (ltb from b.max_ahead)) [
          | inl more ↦
              let inside = ltb→lt from b.max_ahead more in
              rw more (
                Scanned-extend b e from _ free
                  (gap_scan_lem rounds b e (from + 1) he hw (omega arith) (omega arith)))
          | inr edge ↦
              rw edge (omega arith, lo, (λ i p q. absurd (omega arith)), inr (ground arith))
        ])
      ])

-- The first `n` slots from `e` on hold nothing.
abbrev pub Vacant : JitterBuffer → ℕ → ℕ → Type 0
Vacant b e zero = Unit {0}
Vacant b e (suc n) = Vacant b e n × (contains ((e + n) % seq_mod) b.packets ≡ false)

vacant :
    (b : JitterBuffer) (e n : ℕ)
    → ((i : ℕ) → i < n → contains ((e + i) % seq_mod) b.packets ≡ false)
    → Vacant b e n
vacant b e zero h = tt
vacant b e (suc n) h = (vacant b e n (λ i lt. h i (omega arith)), h n (omega arith))

-- The loss that `pop` declares at an empty anchor `e` of a sound buffer: at least one packet and at most the window,
-- every slot of it holds nothing, and it ends at a stored packet or at the edge of the window.
coalesced_gap_exact :
    (b : JitterBuffer) (e : ℕ)
    → IsSound b
    → e < seq_mod
    → contains e b.packets ≡ false
    → (1 ≤ coalesced_gap b e)
      × (coalesced_gap b e ≤ b.max_ahead)
      × Vacant b e (coalesced_gap b e)
      × ((contains ((e + coalesced_gap b e) % seq_mod) b.packets ≡ true)
          ⊎ (coalesced_gap b e ≡ b.max_ahead))
unfolding coalesced_gap seq_next
coalesced_gap_exact b e v he free =
    let (a, c, empty, stop) =
      gap_scan_lem b.max_ahead b e 1 he v.config_ok.window_half v.config_ok.window_pos
        (omega arith) in
    (a, c, vacant b e _ (first_slot empty), stop)
  where
    first_slot :
        {g : ℕ} → Empty b e 1 g → (i : ℕ) → i < g → contains ((e + i) % seq_mod) b.packets ≡ false
    first_slot empty zero h = let same : (e + 0) % seq_mod ≡ e = omega arith in rw same free
    first_slot empty (suc i) h = empty (suc i) (omega arith) h

-- The sequence number that an output starts at, and how many slots it stands for.
abbrev pub first : JitterOutput → ℕ
first (packet p) = p.sequence_number
first (gone l) = l.sequence

abbrev pub span : JitterOutput → ℕ
span (packet p) = 1
span (gone l) = l.count

-- The outputs stand for consecutive slots, from `s` up to `t`.
abbrev pub Tiles : ℕ → List JitterOutput → ℕ → Type 0
Tiles s [] t = s ≡ t
Tiles s (o ∷ os) t = (first o ≡ s) × Tiles ((s + span o) % seq_mod) os t

abbrev pub cons_output : Option JitterOutput → List JitterOutput → List JitterOutput
cons_output none os = os
cons_output (some o) os = o ∷ os

-- What `n` calls of `pop` return, and the buffer after them.
pub pops : ℕ → JitterBuffer → List JitterOutput × JitterBuffer
pops zero b = ([], b)
pops (suc n) b = let rest = pops n (pop b).1 in (cons_output (pop b).0 rest.0, rest.1)

-- One call either returns nothing and leaves the buffer alone, or returns what starts at the
-- anchor and moves the anchor behind it.
abbrev Advances : ℕ → JitterBuffer → Option JitterOutput → JitterBuffer → Type 0
Advances s b none c = c ≡ b
Advances s b (some o) c = (first o ≡ s) × (c.next ≡ some ((s + span o) % seq_mod))

pop_at-Advances :
    (b : JitterBuffer) (s : ℕ) → IsSound b → Advances s b (pop_at b s).0 (pop_at b s).1
unfolding pop_at seq_next
pop_at-Advances b s v = elim (Option-cases (lookup s b.packets)) [
  | inl absent ↦
      rw (absent, pop_at)
        (elim (Bool-cases (leb b.depth (length b.packets))) [
          | inl full ↦ rw full (refl, refl)
          | inr waits ↦ rw waits refl
        ])
  | inr (p, found) ↦
      rw (found, pop_at) ((lookup-All IsKeyed s b.packets v.keyed found).0, ground arith)
]

pub pop_anchored : (b : JitterBuffer) (s : ℕ) → b.next ≡ some s → pop b ≡ pop_at b s
unfolding pop
pop_anchored b s at = ground arith

pops_step :
    (n : ℕ) (b : JitterBuffer) (s : ℕ) (r : Option JitterOutput) (c : JitterBuffer)
    → Advances s b r c
    → b.next ≡ some s
    → ((s' : ℕ)
        → c.next ≡ some s'
        → (t : ℕ) × ((pops n c).1.next ≡ some t) × Tiles s' (pops n c).0 t)
    → (t : ℕ) × ((pops n c).1.next ≡ some t) × Tiles s (cons_output r (pops n c).0) t
pops_step n b s none c step at ih = ih s (ground arith)
pops_step n b s (some o) c step at ih =
    let (t, e, tiles) = ih ((s + span o) % seq_mod) step.1 in (t, e, (step.0, tiles))

-- Playout of a sound buffer is gapless and in order: over any number of pops the packets and the losses that come
-- out stand for consecutive sequence numbers from the anchor on, and the anchor ends behind the
-- last.
pub pops-Tiles :
    (n : ℕ) (b : JitterBuffer) (s : ℕ)
    → IsSound b
    → b.next ≡ some s
    → (t : ℕ) × ((pops n b).1.next ≡ some t) × Tiles s (pops n b).0 t
unfolding pops
pops-Tiles zero b s v at = (s, at, refl)
pops-Tiles (suc n) b s v at =
    pops_step n b s (pop b).0 (pop b).1 moved at
      (λ s' at'. pops-Tiles n (pop b).1 s' (pop-IsSound b v) at')
  where
    moved : Advances s b (pop b).0 (pop b).1
    moved = rw (pop_anchored b s at) (pop_at-Advances b s v)
