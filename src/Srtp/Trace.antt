-- ===== src/Srtp/Trace.antt =====
-- src/hermes_voip/media/srtp.py: what `SrtpSession.unprotect` does to the session over a stream of
-- datagrams, whatever the datagrams are.
use hermes_voip.Base.{
  ℕ, ◌≡◌, ◌≢◌, refl, sym, ◌∙◌, true, List, [], ◌∷◌, Option, none, some, Result, ok, err, arith, All,
  inl, ◌⊎◌, Option-cases, Bool-cases, inr, Result-cases,
}
use hermes_voip.Rtp.Packet.{RtpPacket, RtpError}
use hermes_voip.Srtp.{
  Crypto, SrtpError, SrtpSession, Received, bad_rtp, check_replay, replay_top, bind_ssrc, auth_tag,
  packet_index, verify, decrypt, bind_source, receive, unprotect, estimate_roc, same_bytes,
  open_rtp, update_state,
}
use hermes_voip.Srtp.Replay.{Tracks, NotIn, check_replay-NotIn, update-Tracks}

-- The packet index of a datagram that passes every test of `unprotect`.
pub accepted : Crypto → SrtpSession → List ℕ → Option ℕ
accepted c s wire = elim (receive s.tag_len wire) [
  | err e ↦ none
  | ok r ↦ elim (verify c s r).0 [
    | err e ↦ none
    | ok u ↦ some (packet_index (estimate_roc s r.seq) r.seq)
  ]
]

-- What comes of the tests, with the session that they leave.
Verdict-cases :
    (q : Result SrtpError (Unit {0}) × SrtpSession)
    → ((t : SrtpSession) × (q ≡ (ok tt, t)))
      ⊎ ((e : SrtpError) × (t : SrtpSession) × (q ≡ (err e, t)))
Verdict-cases (ok u, t) = inl (t, refl)
Verdict-cases (err e, t) = inr (e, t, refl)

bind_ssrc-window :
    (s : SrtpSession) (x : ℕ) {bound : SrtpSession}
    → bind_ssrc s x ≡ ok bound
    → (replay_top bound ≡ replay_top s) × (bound.replay_mask ≡ s.replay_mask)
unfolding bind_ssrc replay_top
bind_ssrc-window s x h = ground arith

verify-ok :
    (c : Crypto) (s : SrtpSession) (r : Received) {bound : SrtpSession}
    → verify c s r ≡ (ok tt, bound)
    → (same_bytes (auth_tag c s.k_a r.header r.ciphertext (estimate_roc s r.seq) s.tag_len) r.tag
        ≡ true)
      × (bind_ssrc s r.ssrc ≡ ok bound)
      × (check_replay bound (packet_index (estimate_roc s r.seq) r.seq) ≡ ok tt)
unfolding verify bind_ssrc
verify-ok c s r h = ground arith

-- What the tests leave where they refuse: the session as it was, or bound to the source.
verify-err :
    (c : Crypto) (s : SrtpSession) (r : Received) {e : SrtpError} {left : SrtpSession}
    → verify c s r ≡ (err e, left)
    → (left ≡ s)
      ⊎ ((bind_ssrc s r.ssrc ≡ ok left)
          × (check_replay left (packet_index (estimate_roc s r.seq) r.seq) ≡ err e))
unfolding verify
verify-err c s r h =
    let expected = auth_tag c s.k_a r.header r.ciphertext (estimate_roc s r.seq) s.tag_len in
    elim (Bool-cases (same_bytes expected r.tag)) [
      | inr bad ↦ inl (ground (arith, bad))
      | inl good ↦ elim (Result-cases (bind_ssrc s r.ssrc)) [
        | inr (x, foreign) ↦ inl (ground (arith, good, rw (good, bind_source, foreign) at h))
        | inl (bound, b) ↦ inr (ground (arith, b, rw (good, bind_source, b) at h))
      ]
    ]

bound_Tracks :
    (s bound : SrtpSession) (x : ℕ) (h : List ℕ)
    → bind_ssrc s x ≡ ok bound
    → Tracks (replay_top s) s.replay_mask h
    → Tracks (replay_top bound) bound.replay_mask h
bound_Tracks s bound x h e t = let (a, m) = bind_ssrc-window s x e in rw (a, m) t

-- A step of the session: a datagram that is not accepted leaves the window, and the index of one that
-- is accepted is new.
abbrev Step : SrtpSession → SrtpSession → List ℕ → Option ℕ → Type 0
Step s t h none = Tracks (replay_top t) t.replay_mask h
Step s t h (some i) = NotIn i h × Tracks (replay_top t) t.replay_mask (i ∷ h)

verified_Step :
    (c : Crypto) (s bound : SrtpSession) (r : Received) (h : List ℕ)
    → Tracks (replay_top s) s.replay_mask h
    → verify c s r ≡ (ok tt, bound)
    → Step s (decrypt c s bound r).1 h (some (packet_index (estimate_roc s r.seq) r.seq))
unfolding decrypt
verified_Step c s bound r h t e =
    let (_, b, passed) = verify-ok c s r e in
    let tracked = bound_Tracks s bound r.ssrc h b t in
    (check_replay-NotIn bound _ h tracked passed, update-Tracks bound r.seq _ h tracked passed)

unprotect-Step :
    (c : Crypto) (s : SrtpSession) (wire h : List ℕ)
    → Tracks (replay_top s) s.replay_mask h
    → Step s (unprotect c s wire).1 h (accepted c s wire)
unfolding unprotect accepted
unprotect-Step c s wire h t = elim (Result-cases (receive s.tag_len wire)) [
  | inr (e, bad) ↦ rw (bad, unprotect, accepted) t
  | inl (r, cut) ↦ elim (Verdict-cases (verify c s r)) [
    | inr (e, left, refused) ↦
        rw (cut, unprotect, accepted, refused)
          (elim (verify-err c s r refused) [
            | inl same ↦ rw same t
            | inr (b, _) ↦ bound_Tracks s left r.ssrc h b t
          ])
    | inl (bound, passed) ↦
        rw (cut, unprotect, accepted, passed) (verified_Step c s bound r h t passed)
  ]
]

abbrev cons_index : Option ℕ → List ℕ → List ℕ
cons_index none is = is
cons_index (some i) is = i ∷ is

-- The indices that a stream of datagrams has accepted, in order of arrival.
pub indices : Crypto → SrtpSession → List (List ℕ) → List ℕ
indices c s [] = []
indices c s (wire ∷ wires) =
    let rest = indices c (unprotect c s wire).1 wires in cons_index (accepted c s wire) rest

-- No number stands twice.
abbrev pub AllDistinct : List ℕ → Type 0
AllDistinct [] = Unit {0}
AllDistinct (i ∷ is) = All (λ (j : ℕ). j ≢ i) is × AllDistinct is

abbrev AllNew : List ℕ → List ℕ → Type 0
AllNew h is = All (λ i. NotIn i h) is

AllNew-tail : (i : ℕ) (h is : List ℕ) → AllNew (i ∷ h) is → All (λ (j : ℕ). j ≢ i) is × AllNew h is
AllNew-tail i h [] a = (tt, tt)
AllNew-tail i h (j ∷ is) a =
    let rest = AllNew-tail i h is a.1 in ((λ e. a.0.0 (sym e), rest.0), (a.0.1, rest.1))

indices-Step :
    (s t : SrtpSession) (h rest : List ℕ) (o : Option ℕ)
    → Step s t h o
    → Tracks (replay_top s) s.replay_mask h
    → ((g : List ℕ) → Tracks (replay_top t) t.replay_mask g → AllNew g rest × AllDistinct rest)
    → AllNew h (cons_index o rest) × AllDistinct (cons_index o rest)
indices-Step s t h rest none same tracked ih = ih h same
indices-Step s t h rest (some i) new tracked ih =
    let (fresh, distinct) = ih (i ∷ h) new.1 in
    let (apart, older) = AllNew-tail i h rest fresh in ((new.0, older), (apart, distinct))

indices_new :
    (c : Crypto) (s : SrtpSession) (h : List ℕ) (wires : List (List ℕ))
    → Tracks (replay_top s) s.replay_mask h
    → AllNew h (indices c s wires) × AllDistinct (indices c s wires)
unfolding indices
indices_new c s h [] t = (tt, tt)
indices_new c s h (wire ∷ wires) t =
    indices-Step s (unprotect c s wire).1 h _ (accepted c s wire) (unprotect-Step c s wire h t) t
      (λ g tracked. indices_new c (unprotect c s wire).1 g wires tracked)

-- A session that has received nothing.
pub record IsNew (s : SrtpSession) : Type 0 where
  pub no_top : s.seq_top ≡ none

-- No replay: whatever datagrams arrive at a new session, in any order and however often, no packet
-- index is accepted twice. This holds also for packets behind the 64-packet window and across
-- rollovers of the 16-bit sequence number.
pub unprotect_once :
    (c : Crypto) (s : SrtpSession) (wires : List (List ℕ))
    → IsNew s
    → AllDistinct (indices c s wires)
unprotect_once c s wires new = (indices_new c s [] wires start).1
  where
    start : Tracks (replay_top s) s.replay_mask []
    start = unfold replay_top in rw new.no_top refl

open_rtp-err :
    (q : Result RtpError RtpPacket) (e : SrtpError)
    → open_rtp q ≡ err e
    → ((x : RtpError) → e ≢ bad_rtp x)
    → ⊥
open_rtp-err (ok p) e h no_rtp = cc
open_rtp-err (err x) e h no_rtp = no_rtp x (cc)

decrypt_error :
    (c : Crypto) (s bound : SrtpSession) (r : Received) (e : SrtpError)
    → (decrypt c s bound r).0 ≡ err e
    → ((x : RtpError) → e ≢ bad_rtp x)
    → ⊥
unfolding decrypt
decrypt_error c s bound r e h no_rtp = open_rtp-err _ e h no_rtp

-- A session that has received is bound to a source.
abbrev IsBound : SrtpSession → Type 0
IsBound s = s.ssrc ≡ none → s.seq_top ≡ none

bind_ssrc-some :
    (s : SrtpSession) (x : ℕ) {bound : SrtpSession} → bind_ssrc s x ≡ ok bound → bound.ssrc ≡ some x
unfolding bind_ssrc
bind_ssrc-some s x h = ground arith

some-IsBound : (s : SrtpSession) (x : ℕ) → s.ssrc ≡ some x → IsBound s
some-IsBound s x e none_yet = cc

decrypt-ssrc :
    (c : Crypto) (s bound : SrtpSession) (r : Received) → (decrypt c s bound r).1.ssrc ≡ bound.ssrc
unfolding decrypt update_state replay_top
decrypt-ssrc c s bound r = elim (Option-cases bound.seq_top) [
  | inl e ↦ ground arith
  | inr (top, e) ↦ ground arith
]

unprotect-IsBound :
    (c : Crypto) (s : SrtpSession) (wire : List ℕ) → IsBound s → IsBound (unprotect c s wire).1
unfolding unprotect
unprotect-IsBound c s wire v = elim (Result-cases (receive s.tag_len wire)) [
  | inr (e, bad) ↦ rw (bad, unprotect) v
  | inl (r, cut) ↦ elim (Verdict-cases (verify c s r)) [
    | inr (e, left, refused) ↦
        rw (cut, unprotect, refused)
          (elim (verify-err c s r refused) [
            | inl same ↦ rw same v
            | inr (b, _) ↦ some-IsBound left r.ssrc (bind_ssrc-some s r.ssrc b)
          ])
    | inl (bound, passed) ↦
        let (_, b, _) = verify-ok c s r passed in
        rw (cut, unprotect, passed)
          (some-IsBound (decrypt c s bound r).1 r.ssrc
            (decrypt-ssrc c s bound r ∙ bind_ssrc-some s r.ssrc b))
  ]
]

-- The session behind a stream of datagrams.
unfoldable pub after : Crypto → SrtpSession → List (List ℕ) → SrtpSession
after c s [] = s
after c s (wire ∷ wires) = after c (unprotect c s wire).1 wires

after-IsBound :
    (c : Crypto) (s : SrtpSession) (wires : List (List ℕ)) → IsBound s → IsBound (after c s wires)
unfolding after
after-IsBound c s [] v = v
after-IsBound c s (wire ∷ wires) v =
    after-IsBound c (unprotect c s wire).1 wires (unprotect-IsBound c s wire v)

rebind_lem :
    (s : SrtpSession) (x home : ℕ) {bound : SrtpSession}
    → s.ssrc ≡ some home
    → bind_ssrc s x ≡ ok bound
    → bound ≡ s
unfolding bind_ssrc
rebind_lem s x home e b = ground arith

empty_window :
    (s : SrtpSession) (index : ℕ) {e : SrtpError}
    → replay_top s ≡ none
    → check_replay s index ≡ err e
    → ⊥
unfolding check_replay
empty_window s index empty h = ground arith

replay_top-none : (s : SrtpSession) → s.seq_top ≡ none → replay_top s ≡ none
unfolding replay_top
replay_top-none s h = ground arith

-- A packet that the replay window refuses has bound no source: a session without one has no window.
verify-kept :
    (c : Crypto) (s : SrtpSession) (r : Received) {e : SrtpError} {left : SrtpSession}
    → IsBound s
    → verify c s r ≡ (err e, left)
    → left ≡ s
verify-kept c s r {left = left} v h = elim (verify-err c s r h) [
  | inl same ↦ same
  | inr (b, replay) ↦ elim (Option-cases s.ssrc) [
    | inr (home, e) ↦ rebind_lem s r.ssrc home e b
    | inl e ↦
        let (window, _) = bind_ssrc-window s r.ssrc b in
        absurd (empty_window left _ (window ∙ replay_top-none s (v e)) replay)
  ]
]

verdict_kept :
    (c : Crypto) (s : SrtpSession) (wire : List ℕ) (e : SrtpError)
    → IsBound s
    → (unprotect c s wire).0 ≡ err e
    → ((x : RtpError) → e ≢ bad_rtp x)
    → (unprotect c s wire).1 ≡ s
unfolding unprotect
verdict_kept c s wire e v h no_rtp = elim (Result-cases (receive s.tag_len wire)) [
  | inr (x, bad) ↦ rw (bad, unprotect) refl
  | inl (r, cut) ↦ elim (Verdict-cases (verify c s r)) [
    | inr (x, left, refused) ↦ rw (cut, unprotect, refused) (verify-kept c s r v refused)
    | inl (bound, passed) ↦
        absurd (decrypt_error c s bound r e (rw (cut, unprotect, passed) at h) no_rtp)
  ]
]

-- Whatever datagrams a new session has had, one that fails the cut, the tag, the source or the replay
-- test leaves it exactly as it was: a forged packet neither binds the source nor moves the window or
-- the counter. The only error that comes with a change of the session is that of an authentic packet
-- whose decrypted bytes are no RTP packet.
pub unprotect_refused :
    (c : Crypto) (s : SrtpSession) (wires : List (List ℕ)) (wire : List ℕ) (e : SrtpError)
    → IsNew s
    → (unprotect c (after c s wires) wire).0 ≡ err e
    → ((x : RtpError) → e ≢ bad_rtp x)
    → (unprotect c (after c s wires) wire).1 ≡ after c s wires
unprotect_refused c s wires wire e new h no_rtp =
    verdict_kept c (after c s wires) wire e (after-IsBound c s wires (λ unbound. new.no_top)) h
      no_rtp

-- What is handed out was accepted: if `unprotect` returns a packet for a datagram, the datagram was
-- accepted under some packet index.
unprotect-accepted :
    (c : Crypto) (s : SrtpSession) (wire : List ℕ) (p : RtpPacket)
    → (unprotect c s wire).0 ≡ ok p
    → (i : ℕ) × (accepted c s wire ≡ some i)
unfolding unprotect accepted
unprotect-accepted c s wire p h = elim (Result-cases (receive s.tag_len wire)) [
  | inr (e, bad) ↦ absurd (ground (arith, bad))
  | inl (r, cut) ↦ elim (Verdict-cases (verify c s r)) [
    | inr (e, left, bad) ↦ absurd (ground (arith, cut, bad))
    | inl (bound, good) ↦ (packet_index (estimate_roc s r.seq) r.seq, ground (arith, cut, good))
  ]
]
