-- ===== src/Rtp/Jitter/Flush.antt =====
-- src/hermes_voip/rtp.py: `JitterBuffer.flush`.
use mathlib.Core.List.{Perm}
use mathlib.Core.List.Perm
use hermes_voip.Base.{
  ℕ, ◌≤◌, ◌≡◌, refl, leb, List, [], ◌∷◌, map, some, arith, inl, inr, Bool-cases, Option-cases, All,
}
use hermes_voip.Base.Dict.{Dict}
use hermes_voip.Rtp.Serial.{ahead}
use hermes_voip.Rtp.Packet.{RtpPacket}
use hermes_voip.Rtp.Jitter.{JitterBuffer, flush, sort_by, insert_by, last_seq}
use hermes_voip.Rtp.Jitter.Invariant.{IsSound, IsKeyed}

insert_by-perm : (a : ℕ) (e : ℕ × RtpPacket) (m : Dict RtpPacket) → Perm (insert_by a e m) (e ∷ m)
unfolding insert_by
insert_by-perm a e [] = Perm.refl (e ∷ [])
insert_by-perm a e (f ∷ m) = elim (Bool-cases (leb (ahead a e.0) (ahead a f.0))) [
  | inl first ↦ rw first (Perm.refl (e ∷ f ∷ m))
  | inr later ↦ rw later (Perm.trans (Perm.cons f (insert_by-perm a e m)) (Perm.swap e f m))
]

sort_by-perm : (a : ℕ) (m : Dict RtpPacket) → Perm (sort_by a m) m
unfolding sort_by
sort_by-perm a [] = Perm.refl []
sort_by-perm a (e ∷ m) =
    Perm.trans (insert_by-perm a e (sort_by a m)) (Perm.cons e (sort_by-perm a m))

-- The distances from `a` do not fall along the list.
abbrev Rises : ℕ → Dict RtpPacket → Type 0
Rises a [] = Unit {0}
Rises a (e ∷ []) = Unit {0}
Rises a (e ∷ f ∷ m) = (ahead a e.0 ≤ ahead a f.0) × Rises a (f ∷ m)

abbrev pub InOrder : ℕ → List RtpPacket → Type 0
InOrder a [] = Unit {0}
InOrder a (p ∷ []) = Unit {0}
InOrder a (p ∷ q ∷ ps) =
    (ahead a p.sequence_number ≤ ahead a q.sequence_number) × InOrder a (q ∷ ps)

insert_by-Rises :
    (a : ℕ) (e : ℕ × RtpPacket) (m : Dict RtpPacket) → Rises a m → Rises a (insert_by a e m)
unfolding insert_by
insert_by-Rises a e [] r = tt
insert_by-Rises a e (f ∷ []) r = ground arith
insert_by-Rises a e (f ∷ g ∷ m) r = ground (arith, insert_by-Rises a e (g ∷ m) r.1)

sort_by-Rises : (a : ℕ) (m : Dict RtpPacket) → Rises a (sort_by a m)
unfolding sort_by
sort_by-Rises a [] = tt
sort_by-Rises a (e ∷ m) = insert_by-Rises a e (sort_by a m) (sort_by-Rises a m)

insert_by-IsKeyed :
    (a : ℕ) (e : ℕ × RtpPacket) (m : Dict RtpPacket)
    → IsKeyed e
    → All IsKeyed m
    → All IsKeyed (insert_by a e m)
unfolding insert_by
insert_by-IsKeyed a e [] k all = (k, tt)
insert_by-IsKeyed a e (f ∷ m) k all = ground (arith, insert_by-IsKeyed a e m k all.1)

sort_by-IsKeyed : (a : ℕ) (m : Dict RtpPacket) → All IsKeyed m → All IsKeyed (sort_by a m)
unfolding sort_by
sort_by-IsKeyed a [] all = tt
sort_by-IsKeyed a (e ∷ m) all =
    insert_by-IsKeyed a e (sort_by a m) all.0 (sort_by-IsKeyed a m all.1)

InOrder-of_Rises :
    (a : ℕ) (m : Dict RtpPacket) → All IsKeyed m → Rises a m → InOrder a (map (λ e. e.1) m)
InOrder-of_Rises a [] all r = tt
InOrder-of_Rises a (e ∷ []) all r = tt
InOrder-of_Rises a (e ∷ f ∷ m) all r =
    (rw (all.0.0, all.1.0.0) r.0, InOrder-of_Rises a (f ∷ m) all.1 r.1)

flush_entries :
    (b : JitterBuffer) (a : ℕ)
    → b.next ≡ some a
    → ((flush b).0 ≡ map (λ e. e.1) (sort_by a b.packets)) × ((flush b).1.packets ≡ [])
unfolding flush
flush_entries b a at = elim (Option-cases (last_seq (map (λ e. e.1) (sort_by a b.packets)))) [
  | inl nothing ↦ rw (at, flush, nothing) (refl, refl)
  | inr (s, last) ↦ rw (at, flush, last) (refl, refl)
]

-- A flush of a sound buffer with the anchor at `a` hands out every stored packet exactly once, in the order of the
-- distance from the anchor, and leaves nothing stored.
pub flush_playout :
    (b : JitterBuffer) (a : ℕ)
    → IsSound b
    → b.next ≡ some a
    → Perm (flush b).0 (map (λ e. e.1) b.packets)
      × InOrder a (flush b).0
      × ((flush b).1.packets ≡ [])
flush_playout b a v at =
    let (out, empty) = flush_entries b a at in
    (
      rw out (Perm.map (λ e. e.1) (sort_by-perm a b.packets)),
      rw out (
          InOrder-of_Rises a (sort_by a b.packets) (sort_by-IsKeyed a b.packets v.keyed)
            (sort_by-Rises a b.packets)),
      empty,
    )
