-- ===== src/Rtp/Jitter/Invariant.antt =====
-- src/hermes_voip/rtp.py: what holds of a `JitterBuffer` between two calls.
use hermes_voip.Base.{
  ℕ, ◌≤◌, ◌<◌, ◌≡◌, refl, Bool, true, false, [], ◌∷◌, Option, none, some, ok, arith, All, inl, inr,
  Bool-cases, Option-cases,
}
use hermes_voip.Base.Dict.{
  Dict, Distinct, setdefault-Distinct, setdefault-All, remove-All, remove-Distinct,
}
use hermes_voip.Rtp.Serial.{seq_mod, seq_half, ahead, seq_next}
use hermes_voip.Rtp.Packet.{RtpPacket}
use hermes_voip.Rtp.Jitter.{
  JitterBuffer, Config, fresh, init, reset, grow, check_ssrc, break_ahead_run, reanchor_if_stranded,
  store, place, admit, push, pop_at, pop,
}

-- What `__init__` checks.
pub record IsConfig (c : Config) : Type 0 where
  pub floor_pos : 1 ≤ c.floor
  pub window_pos : 1 ≤ c.max_ahead
  pub window_half : c.max_ahead < seq_half
  pub ceiling_ge : c.adapt ≡ true → c.floor ≤ c.ceiling
  pub hysteresis_pos : 1 ≤ c.ssrc_hysteresis

-- The depth stays between the floor and the ceiling, and does not move without adaptation.
pub record IsDepth (b : JitterBuffer) : Type 0 where
  pub at_least : b.floor ≤ b.depth
  pub at_most : b.adapt ≡ true → b.depth ≤ b.ceiling
  pub fixed : b.adapt ≡ false → b.depth ≡ b.floor

abbrev pub BelowMod : Option ℕ → Type 0
BelowMod none = Unit {0}
BelowMod (some n) = n < seq_mod

-- An entry stands under its packet's sequence number, which is a 16-bit number.
abbrev pub IsKeyed : ℕ × RtpPacket → Type 0
IsKeyed e = (e.1.sequence_number ≡ e.0) × (e.0 < seq_mod)

-- An entry comes from the source that the buffer is bound to.
abbrev pub IsFrom : Option ℕ → ℕ × RtpPacket → Type 0
IsFrom source e = source ≡ some e.1.ssrc

-- Without an anchor nothing is stored.
abbrev pub IsAnchored : Option ℕ → Dict RtpPacket → Type 0
IsAnchored none m = m ≡ []
IsAnchored (some n) m = n < seq_mod

pub record IsSound (b : JitterBuffer) : Type 0 where
  pub config_ok : IsConfig b.config
  pub depth_ok : IsDepth b
  pub distinct : Distinct b.packets
  pub keyed : All IsKeyed b.packets
  pub home : All (IsFrom b.ssrc) b.packets
  pub anchored : IsAnchored b.next b.packets

fresh-IsSound : (c : Config) → IsConfig c → IsSound (fresh c)
fresh-IsSound c v = ground arith

pub init-IsSound :
    (depth ahead : ℕ) (ceiling : Option ℕ) (adapt : Bool) (n : ℕ) {b : JitterBuffer}
    → init depth ahead ceiling adapt n ≡ ok b
    → IsSound b
unfolding init
init-IsSound depth ahead ceiling adapt n h = ground arith

reset-IsSound : {b : JitterBuffer} → IsSound b → IsSound (reset b)
unfolding reset
reset-IsSound v = ground arith

grow-IsSound : (b : JitterBuffer) → b.adapt ≡ true → IsSound b → IsSound (grow b)
unfolding grow
grow-IsSound b h v = ground arith

break_ahead_run-IsSound : (b : JitterBuffer) → IsSound b → IsSound (break_ahead_run b)
unfolding break_ahead_run
break_ahead_run-IsSound b v = ground arith

-- A packet that the source test lets through is from the source that the buffer is then bound to.
check_ssrc-home :
    (b : JitterBuffer) (p : RtpPacket)
    → (check_ssrc b p).1 ≡ true
    → (check_ssrc b p).0.ssrc ≡ some p.ssrc
unfolding check_ssrc
check_ssrc-home b p h = ground arith

-- A buffer that is bound to no source is empty, so it can be bound to any.
rebind : (s t : Option ℕ) (m : Dict RtpPacket) → s ≡ none → All (IsFrom s) m → All (IsFrom t) m
rebind s t [] e a = tt
rebind s t (x ∷ m) e a = absurd (let h : s ≡ some x.1.ssrc = a.0 in cc)

check_ssrc-IsSound : (b : JitterBuffer) (p : RtpPacket) → IsSound b → IsSound (check_ssrc b p).0
unfolding check_ssrc
check_ssrc-IsSound b p v = ground (arith, rebind b.ssrc (some p.ssrc) b.packets)

store-IsSound :
    (b : JitterBuffer) (p : RtpPacket) (n : ℕ)
    → p.sequence_number < seq_mod
    → b.ssrc ≡ some p.ssrc
    → b.next ≡ some n
    → IsSound b
    → IsSound (store b p)
unfolding store
store-IsSound b p n range source anchor v = record {
  config_ok = v.config_ok;
  depth_ok = ground arith;
  distinct = setdefault-Distinct p.sequence_number p b.packets v.distinct;
  keyed = setdefault-All IsKeyed p.sequence_number p b.packets (refl, range) v.keyed;
  home = setdefault-All (IsFrom b.ssrc) p.sequence_number p b.packets source v.home;
  anchored = ground arith;
}

reanchor_if_stranded-IsSound :
    (b : JitterBuffer) (next s : ℕ)
    → s < seq_mod
    → IsSound b
    → IsSound (reanchor_if_stranded b next s).0
unfolding reanchor_if_stranded
reanchor_if_stranded-IsSound b next s range v = ground arith

reanchor_if_stranded-ssrc :
    (b : JitterBuffer) (next s : ℕ) → (reanchor_if_stranded b next s).0.ssrc ≡ b.ssrc
unfolding reanchor_if_stranded
reanchor_if_stranded-ssrc b next s = ground arith

reanchor_if_stranded-next :
    (b : JitterBuffer) (next s : ℕ)
    → (reanchor_if_stranded b next s).1 ≡ false
    → (reanchor_if_stranded b next s).0.next ≡ some s
unfolding reanchor_if_stranded
reanchor_if_stranded-next b next s h = ground arith

place-IsSound :
    (b : JitterBuffer) (next : ℕ) (p : RtpPacket)
    → p.sequence_number < seq_mod
    → b.ssrc ≡ some p.ssrc
    → b.next ≡ some next
    → IsSound b
    → IsSound (place b next p)
unfolding place
place-IsSound b next p range source anchor v = ground (
  arith,
  setdefault-Distinct p.sequence_number p b.packets,
  setdefault-Distinct p.sequence_number p [],
  setdefault-All IsKeyed p.sequence_number p b.packets,
  setdefault-All IsKeyed p.sequence_number p [],
  setdefault-All (IsFrom b.ssrc) p.sequence_number p b.packets,
  setdefault-All (IsFrom b.ssrc) p.sequence_number p [],
)

admit-IsSound :
    (b : JitterBuffer) (p : RtpPacket)
    → p.sequence_number < seq_mod
    → b.ssrc ≡ some p.ssrc
    → IsSound b
    → IsSound (admit b p)
unfolding admit
admit-IsSound b p range source v = elim (Option-cases b.next) [
  | inl none_yet ↦
      rw (none_yet, admit)
        (store-IsSound (record b { next = some p.sequence_number }) p p.sequence_number range source
          refl (ground arith))
  | inr (n, at) ↦ rw (at, admit) (place-IsSound b n p range source at v)
]

-- Pushing a packet whose sequence number is a 16-bit number keeps the buffer sound: the depth in
-- its range, no sequence number twice, each packet under its number, and all from one source.
pub push-IsSound :
    (b : JitterBuffer) (p : RtpPacket)
    → p.sequence_number < seq_mod
    → IsSound b
    → IsSound (push b p)
unfolding push
push-IsSound b p range v = elim (Bool-cases (check_ssrc b p).1) [
  | inl home ↦ rw home (
      admit-IsSound (check_ssrc b p).0 p range (check_ssrc-home b p home)
        (check_ssrc-IsSound b p v))
  | inr foreign ↦ rw foreign (check_ssrc-IsSound b p v)
]

pop_at-IsSound : (b : JitterBuffer) (n : ℕ) → b.next ≡ some n → IsSound b → IsSound (pop_at b n).1
unfolding pop_at seq_next
pop_at-IsSound b n at v = ground (
  arith,
  remove-Distinct n b.packets,
  remove-All IsKeyed n b.packets,
  remove-All (IsFrom b.ssrc) n b.packets,
)

-- Popping keeps the buffer sound.
pub pop-IsSound : (b : JitterBuffer) → IsSound b → IsSound (pop b).1
unfolding pop
pop-IsSound b v = elim (Option-cases b.next) [
  | inl none_yet ↦ rw (none_yet, pop) v
  | inr (n, at) ↦ rw (at, pop) (pop_at-IsSound b n at v)
]
