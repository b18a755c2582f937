-- ===== src/Srtp/Link.antt =====
-- src/hermes_voip/media/srtp.py: a sender's session and a receiver's session on one stream, with
-- datagrams that are lost on the way.
use hermes_voip.Base.{
  ℕ, ◌+◌, ◌/◌, ◌%◌, ◌≤◌, ◌<◌, ◌≡◌, refl, sym, ap, ◌∙◌, Bool, true, false, if◌then◌else◌, List, [],
  ◌∷◌, Option, none, some, Result, ok, err, arith, Option-cases, inl, inr,
}
use hermes_voip.Rtp.Packet.{RtpPacket, IsValid}
use hermes_voip.Srtp.{
  Crypto, SrtpError, SrtpSession, protect, unprotect, seal, advance_sender, update_state,
  estimate_roc, packet_index, bind_ssrc, check_replay, replay_top, roc_mod,
}
use hermes_voip.Srtp.Roc.{estimate_roc_exact}
use hermes_voip.Srtp.Sealed.{IsSound, SameKeys, clear_header, protect_lem, unprotect-seal}

-- A session that stands at the packet index `i` of the source `x`.
pub record At (s : SrtpSession) (x i : ℕ) : Type 0 where
  pub source : s.ssrc ≡ some x
  pub counter : s.roc ≡ i / 65536
  pub top : s.seq_top ≡ some (i % 65536)

bind_ssrc-At : (s : SrtpSession) (x i : ℕ) → At s x i → bind_ssrc s x ≡ ok s
unfolding bind_ssrc
bind_ssrc-At s x i a = ground arith

-- The sender's next packet.
advance-At :
    (s : SrtpSession) (x i : ℕ)
    → At s x i
    → (i + 1) / 65536 < roc_mod
    → At (advance_sender s ((i + 1) % 65536)) x (i + 1)
unfolding advance_sender
advance-At s x i a room = ground arith

advance-SameKeys : (s r : SrtpSession) (q : ℕ) → SameKeys s r → SameKeys (advance_sender s q) r
unfolding advance_sender
advance-SameKeys s r q k = ground arith

estimate_roc-At :
    (r : SrtpSession) (x i j : ℕ)
    → At r x j
    → j / 65536 + 1 < roc_mod
    → j ≤ i
    → i + 1 < j + 32768
    → estimate_roc r ((i + 1) % 65536) ≡ (i + 1) / 65536
estimate_roc-At r x i j a room le near =
    (estimate_roc_exact r (j % 65536) (i + 1) a.top (omega arith) (omega (arith, a.counter))
      (omega (arith, a.counter)) (omega (arith, a.counter))).0

check_replay-At :
    (r : SrtpSession) (x j index : ℕ) → At r x j → j < index → check_replay r index ≡ ok tt
unfolding check_replay replay_top
check_replay-At r x j index a newer = ground arith

update-At :
    (r : SrtpSession) (x i j : ℕ)
    → At r x j
    → j < i
    → At (update_state r (i % 65536) (i / 65536) (packet_index (i / 65536) (i % 65536))) x i
unfolding update_state replay_top
update-At r x i j a newer = ground arith

update-SameKeys :
    (s r : SrtpSession) (q roc index : ℕ) → SameKeys s r → SameKeys s (update_state r q roc index)
unfolding update_state replay_top
update-SameKeys s r q roc index k = elim (Option-cases r.seq_top) [
  | inl e ↦ ground arith
  | inr (top, e) ↦ ground arith
]

-- The packets of a stream, each with what becomes of its datagram: what the receiver's calls return.
pub link :
    Crypto → SrtpSession → SrtpSession → List (RtpPacket × Bool) → List (Result SrtpError RtpPacket)
link c s r [] = []
link c s r ((p, arrives) ∷ ps) = elim (protect c s p) [
  | err e ↦ err e ∷ []
  | ok (wire, t) ↦
      let rest = link c t (if arrives then (unprotect c r wire).1 else r) ps in
      if arrives then (unprotect c r wire).0 ∷ rest else rest
]

abbrev pub arrived : List (RtpPacket × Bool) → List (Result SrtpError RtpPacket)
arrived [] = []
arrived ((p, arrives) ∷ ps) = let rest = arrived ps in if arrives then ok p ∷ rest else rest

-- The packets of the source `x` behind the packet index `i`, `gap` packets after the last one that
-- arrived: valid, numbered one by one, never 32767 of them lost in a row, and the rollover
-- counter stays below its end.
abbrev pub InOrder : ℕ → ℕ → ℕ → List (RtpPacket × Bool) → Type 0
InOrder x i gap [] = Unit {0}
InOrder x i gap ((p, arrives) ∷ ps) =
    IsValid p
    × (p.ssrc ≡ x)
    × (p.sequence_number ≡ (i + 1) % 65536)
    × (gap + 1 < 32768)
    × ((i + 1) / 65536 + 1 < roc_mod)
    × InOrder x (i + 1) (if arrives then 0 else gap + 1) ps

-- A session that has neither sent nor received, and that takes the source `x`.
pub record IsUnused (s : SrtpSession) (x : ℕ) : Type 0 where
  pub binds : bind_ssrc s x ≡ ok (record s { ssrc = some x })
  pub counter_zero : s.roc ≡ 0
  pub no_top : s.seq_top ≡ none

bound_keys :
    (s r : SrtpSession) (o u : Option ℕ)
    → SameKeys s r
    → SameKeys (record s { ssrc = o }) (record r { ssrc = u })
bound_keys s r o u k = record {
  encryption = k.encryption;
  salt = k.salt;
  authentication = k.authentication;
  tag_length = k.tag_length;
  tag_short = k.tag_short;
}

module _ (s : SrtpSession) (x q : ℕ) (new : IsUnused s x) (small : q ≤ 65535) where
  first_sent : At (advance_sender (record s { ssrc = some x }) q) x q
  unfolding advance_sender
  first_sent = ground (arith, new.no_top, new.counter_zero)

  first_received : At (update_state (record s { ssrc = some x }) q 0 (packet_index 0 q)) x q
  unfolding update_state replay_top
  first_received = ground (arith, new.no_top, new.counter_zero)

  first_fresh : (index : ℕ) → check_replay (record s { ssrc = some x }) index ≡ ok tt
  unfolding check_replay replay_top
  first_fresh index = ground (arith, new.no_top)

  first_estimate : estimate_roc s q ≡ 0
  unfolding estimate_roc
  first_estimate = ground (arith, new.no_top)

module _ (c : Crypto) (sound : IsSound c) where
  sent :
      (s : SrtpSession) (p : RtpPacket) (i : ℕ)
      → At s p.ssrc i
      → IsValid p
      → protect c s p
        ≡ ok (
          seal c
              (advance_sender s p.sequence_number)
              p.ssrc
              p.sequence_number
              (clear_header p)
              p.payload,
          advance_sender s p.sequence_number,
        )
  sent s p i a v = protect_lem c s s p v (bind_ssrc-At s p.ssrc i a)

  -- A packet that arrives is read, and the receiver stands where the sender does.
  received :
      (t r : SrtpSession) (p : RtpPacket) (i j : ℕ)
      → At t p.ssrc (i + 1)
      → At r p.ssrc j
      → SameKeys t r
      → IsValid p
      → p.sequence_number ≡ (i + 1) % 65536
      → (i + 1) / 65536 + 1 < roc_mod
      → j ≤ i
      → i + 1 < j + 32768
      → (unprotect c r (seal c t p.ssrc p.sequence_number (clear_header p) p.payload)).0 ≡ ok p
        × At
            (unprotect c r (seal c t p.ssrc p.sequence_number (clear_header p) p.payload)).1
            p.ssrc
            (i + 1)
        × SameKeys t
            (unprotect c r (seal c t p.ssrc p.sequence_number (clear_header p) p.payload)).1
  received t r p i j at ar keys v q room le near =
      let estimate : estimate_roc r p.sequence_number ≡ t.roc =
        ap (estimate_roc r) q
        ∙ estimate_roc-At r p.ssrc i j ar (omega arith) le near
        ∙ sym at.counter in
      let fresh : check_replay r (packet_index t.roc p.sequence_number) ≡ ok tt =
        check_replay-At r p.ssrc j _ ar (omega (arith, at.counter, q)) in
      let e =
        unprotect-seal c t sound keys.tag_short r r p v keys estimate (bind_ssrc-At r p.ssrc j ar)
          fresh in
      rw e (
        refl,
        rw (q, at.counter) (update-At r p.ssrc (i + 1) j ar (omega arith)),
        update-SameKeys t r _ _ _ keys,
      )

  link-cons :
      (s t r : SrtpSession) (p : RtpPacket) (wire : List ℕ) (arrives : Bool)
      (ps : List (RtpPacket × Bool))
      → protect c s p ≡ ok (wire, t)
      → link c s r ((p, arrives) ∷ ps) ≡ (
          let rest = link c t (if arrives then (unprotect c r wire).1 else r) ps in
          if arrives then (unprotect c r wire).0 ∷ rest else rest)
  unfolding link
  link-cons s t r p wire arrives ps e = rw (e, link) refl

  -- From sessions in step: the sender stands at `i`, the receiver at `j`.
  link-arrived :
      (s r : SrtpSession) (x i gap : ℕ) (ps : List (RtpPacket × Bool))
      → At s x (i + gap)
      → At r x i
      → SameKeys s r
      → InOrder x (i + gap) gap ps
      → link c s r ps ≡ arrived ps
  unfolding link
  link-arrived s r x i gap [] at_s at_r keys order = refl
  link-arrived s r x i gap ((p, true) ∷ ps) at_s at_r keys (v, source, q, near, room, order) =
      let t = advance_sender s p.sequence_number in
      let wire = seal c t p.ssrc p.sequence_number (clear_header p) p.payload in
      let at : At t p.ssrc (i + gap + 1) =
        rw (q, source) (advance-At s x (i + gap) at_s (omega arith)) in
      let (good, moved, same) =
        received t r p (i + gap) i at (rw source at_r) (advance-SameKeys s r p.sequence_number keys)
          v q room (omega arith) (omega arith) in
      let here : i + gap + 1 ≡ i + gap + 1 + 0 = omega arith in
      link-cons s t r p wire true ps (sent s p (i + gap) (rw source at_s) v)
      ∙ rw good (
          ap (λ rest. ok p ∷ rest)
            (link-arrived t (unprotect c r wire).1 p.ssrc (i + gap + 1) 0 ps (rw (← here) at) moved
              same (rw (← here, source) order)))
  link-arrived s r x i gap ((p, false) ∷ ps) at_s at_r keys (v, source, q, near, room, order) =
      let t = advance_sender s p.sequence_number in
      let wire = seal c t p.ssrc p.sequence_number (clear_header p) p.payload in
      let here : i + gap + 1 ≡ i + (gap + 1) = omega arith in
      link-cons s t r p wire false ps (sent s p (i + gap) (rw source at_s) v)
      ∙ link-arrived t r x i (gap + 1) ps
          (rw (← here, q) (advance-At s x (i + gap) at_s (omega arith))) at_r
          (advance-SameKeys s r p.sequence_number keys) (rw (← here) order)

  -- From two new sessions: the first packet starts the receiver, under the counter 0.
  pub link_new :
      (s r : SrtpSession) (p : RtpPacket) (ps : List (RtpPacket × Bool))
      → IsUnused s p.ssrc
      → IsUnused r p.ssrc
      → SameKeys s r
      → IsValid p
      → InOrder p.ssrc p.sequence_number 0 ps
      → link c s r ((p, true) ∷ ps) ≡ ok p ∷ arrived ps
  link_new s r p ps new_s new_r keys v order =
      let x = p.ssrc in
      let q = p.sequence_number in
      let t = advance_sender (record s { ssrc = some x }) q in
      let wire = seal c t x q (clear_header p) p.payload in
      let at_t = first_sent s x q new_s v.sequence_le in
      let zero_roc : t.roc ≡ 0 = omega (arith, at_t.counter, v.sequence_le) in
      let rb = record r { ssrc = some x } in
      let same : SameKeys t r =
        advance-SameKeys (record s { ssrc = some x }) r q (bound_keys s r (some x) r.ssrc keys) in
      let same_b : SameKeys t rb =
        advance-SameKeys (record s { ssrc = some x }) rb q
          (bound_keys s r (some x) (some x) keys) in
      let read =
        unprotect-seal c t sound same.tag_short r rb p v same
          (first_estimate r x q new_r v.sequence_le ∙ sym zero_roc) new_r.binds
          (first_fresh r x q new_r v.sequence_le (packet_index t.roc q)) in
      let here : q ≡ q + 0 = omega arith in
      link-cons s t r p wire true ps (protect_lem c s (record s { ssrc = some x }) p v new_s.binds)
      ∙ rw read (
          ap (λ rest. ok p ∷ rest)
            (link-arrived t (update_state rb q t.roc (packet_index t.roc q)) x q 0 ps
              (rw (← here) at_t) (rw zero_roc (first_received r x q new_r v.sequence_le))
              (update-SameKeys t rb q t.roc (packet_index t.roc q) same_b) (rw (← here) order)))
