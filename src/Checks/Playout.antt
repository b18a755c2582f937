-- ===== src/Checks/Playout.antt =====
-- src/hermes_voip/rtp.py: the playout of a small buffer.
use hermes_voip.Base.{ℕ, ◌≡◌, refl, false, [], ◌∷◌, map, none, some, arith}
use hermes_voip.Rtp.Serial.{seq_mod}
use hermes_voip.Rtp.Packet.{RtpPacket, IsValid}
use hermes_voip.Rtp.Jitter.{Config, JitterBuffer, fresh, init, push, flush}
use hermes_voip.Rtp.Jitter.Invariant.{IsSound, init-IsSound, push-IsSound}
use hermes_voip.Rtp.Jitter.Playout.{pops, pops-Tiles, Tiles}
use hermes_voip.Rtp.Jitter.Flush.{flush_playout, InOrder}
use mathlib.Core.List.{Perm}

abbrev pub voice : ℕ → ℕ → RtpPacket
voice source seq = record {
  payload_type = 0;
  sequence_number = seq;
  timestamp = 160;
  ssrc = source;
  payload = 1 ∷ 2 ∷ [];
  marker = false;
}

abbrev pub settings : Config
settings = record { adapt = false; floor = 2; ceiling = 10; max_ahead = 8; ssrc_hysteresis = 3 }

-- Two packets about the wrap of the sequence number, with one missing between them.
abbrev pub one : JitterBuffer
one = push (fresh settings) (voice 7 65535)

abbrev pub two : JitterBuffer
two = push one (voice 7 1)

fresh-IsSound : IsSound (fresh settings)
unfolding init
fresh-IsSound = init-IsSound 2 8 none false 3 refl

pub two-IsSound : IsSound two
two-IsSound =
    push-IsSound one (voice 7 1) (omega arith)
      (push-IsSound (fresh settings) (voice 7 65535) (omega arith) fresh-IsSound)

pops-Tiles_example : (t : ℕ) × ((pops 3 two).1.next ≡ some t) × Tiles 65535 (pops 3 two).0 t
unfolding push hermes_voip.Rtp.Serial.seq_before
pops-Tiles_example = pops-Tiles 3 two 65535 two-IsSound refl

push-IsSound_example : IsSound (push two (voice 7 0))
push-IsSound_example = push-IsSound two (voice 7 0) (omega arith) two-IsSound

flush_playout_example :
    Perm (flush two).0 (map (λ e. e.1) two.packets)
    × InOrder 65535 (flush two).0
    × ((flush two).1.packets ≡ [])
unfolding push hermes_voip.Rtp.Serial.seq_before
flush_playout_example = flush_playout two 65535 two-IsSound refl

pub voice-IsValid : IsValid (voice 7 65535)
voice-IsValid = record {
  payload_type_le = omega arith;
  sequence_le = omega arith;
  timestamp_le = omega arith;
  ssrc_le = omega arith;
}
