-- ===== src/Srtp/Replay.antt =====
-- src/hermes_voip/media/srtp.py: the receiver's replay window.
use Prim.Native.Nat.{bit_and, bit_or}
use native.Mathlib.Nat.{one-le-pow}
use hermes_voip.Base.{
  ℕ, ◌+◌, ◌-◌, ◌*◌, ◌%◌, ◌^◌, ◌≤◌, ◌<◌, ◌≡◌, ◌≢◌, ap, ◌∙◌, true, ◌==◌, ltb, List, [], ◌∷◌, Option,
  none, some, Result, ok, arith, All, inl, inr, Bool-cases, Option-cases, ltb→lt,
}
use hermes_voip.Base.Bits.{bit, bit-bit_or, bit-le_one, bit-pow, bit_and-pow, bit-shift, bit-mod}
use hermes_voip.Srtp.{
  SrtpError, SrtpSession, check_replay_at, check_replay, replay_top, update_state, packet_index,
}

-- The index `i` was received: it is not above the top, and inside the window its bit is set.
abbrev Seen : ℕ → ℕ → ℕ → Type 0
Seen top mask i = (i ≤ top) × (top < i + 64 → bit (top - i) mask ≡ 1)

-- The window remembers the indices of `h`.
abbrev pub Tracks : Option ℕ → ℕ → List ℕ → Type 0
Tracks none mask h = h ≡ []
Tracks (some top) mask h = All (Seen top mask) h

abbrev pub NotIn : ℕ → List ℕ → Type 0
NotIn i h = All (λ (j : ℕ). j ≢ i) h

-- The test of the mask, as a bit.
tested : (mask d : ℕ) → d < 64 → (bit_and mask (2 ^ (d % 64)) == 0) ≡ true → bit d mask ≡ 0
tested mask d h e =
    let same : d % 64 ≡ d = omega arith in
    let clear : bit_and mask (2 ^ (d % 64)) ≡ 0 = ground arith in
    grind
      (arith, bit_and-pow d mask, one-le-pow d 2, ap (λ (t : ℕ). bit_and mask (2 ^ t)) same, clear)

not-Seen_of_clear :
    (mask top i j : ℕ)
    → Seen top mask j
    → (i ≤ top → top < i + 64)
    → (i ≤ top → bit (top - i) mask ≡ 0)
    → j ≢ i
not-Seen_of_clear mask top i j (below, set) inside clear e =
    let here : i ≤ top = rw (← e) below in
    let one : bit (top - i) mask ≡ 1 = rw (← e) (set (rw e (inside here))) in
    omega (arith, one, clear here)

check_replay_at-clear :
    (mask top i : ℕ)
    → check_replay_at mask top i ≡ ok tt
    → (i ≤ top → top < i + 64) × (i ≤ top → bit (top - i) mask ≡ 0)
unfolding check_replay_at
check_replay_at-clear mask top i h =
    ((λ le. ground arith), (λ le. tested mask (top - i) (ground arith) (ground arith)))

Seen-fresh :
    (mask top i : ℕ) (h : List ℕ)
    → check_replay_at mask top i ≡ ok tt
    → All (Seen top mask) h
    → NotIn i h
Seen-fresh mask top i [] ok_ a = tt
Seen-fresh mask top i (j ∷ h) ok_ a =
    let (inside, clear) = check_replay_at-clear mask top i ok_ in
    (not-Seen_of_clear mask top i j a.0 inside clear, Seen-fresh mask top i h ok_ a.1)

tracked_fresh :
    (o : Option ℕ) (mask i : ℕ) (h : List ℕ)
    → Tracks o mask h
    → ◌≡◌ {A = Result SrtpError (Unit {0})}
        (elim o [ none ↦ ok tt | some top ↦ check_replay_at mask top i ])
        (ok tt)
    → NotIn i h
tracked_fresh none mask i h t ok_ = rw t tt
tracked_fresh (some top) mask i h t ok_ = Seen-fresh mask top i h ok_ t

-- An index that passes the test is not one that was received.
pub check_replay-NotIn :
    (s : SrtpSession) (i : ℕ) (h : List ℕ)
    → Tracks (replay_top s) s.replay_mask h
    → check_replay s i ≡ ok tt
    → NotIn i h
unfolding check_replay
check_replay-NotIn s i h t ok_ = tracked_fresh (replay_top s) s.replay_mask i h t ok_

-- The window moves up by `shift`, and marks the new top.
shifted :
    (mask shift d : ℕ)
    → shift + d < 64
    → bit d mask ≡ 1
    → bit (shift + d) (bit_or (mask * 2 ^ shift) 1 % 2 ^ 64) ≡ 1
shifted mask shift d h one =
    bit-mod 64 (shift + d) (bit_or (mask * 2 ^ shift) 1) h
    ∙ bit-bit_or (shift + d) (mask * 2 ^ shift) 1
    ∙ omega (arith, bit-shift shift d mask, bit-le_one (shift + d) 1)

marked : (x : ℕ) → bit 0 (bit_or x 1 % 2 ^ 64) ≡ 1
marked x = bit-mod 64 0 (bit_or x 1) (omega arith) ∙ bit-bit_or 0 x 1 ∙ omega arith

shift-Seen :
    (mask top i : ℕ) (h : List ℕ)
    → top < i
    → All (Seen top mask) h
    → All (Seen i (bit_or (mask * 2 ^ (i - top)) 1 % 2 ^ 64)) h
shift-Seen mask top i [] lt a = tt
shift-Seen mask top i (j ∷ h) lt a = ((omega arith, moved), shift-Seen mask top i h lt a.1)
  where
    moved : i < j + 64 → bit (i - j) (bit_or (mask * 2 ^ (i - top)) 1 % 2 ^ 64) ≡ 1
    moved near =
        let parts : i - j ≡ (i - top) + (top - j) = omega (arith, a.0.0) in
        rw parts (shifted mask (i - top) (top - j) (omega (arith, a.0.0)) (a.0.1 (omega arith)))

mark-Seen :
    (mask top i : ℕ) (h : List ℕ)
    → All (Seen top mask) h
    → All (Seen top (bit_or mask (2 ^ ((top - i) % 64)))) h
mark-Seen mask top i [] a = tt
mark-Seen mask top i (j ∷ h) a = ((a.0.0, kept), mark-Seen mask top i h a.1)
  where
    kept : top < j + 64 → bit (top - j) (bit_or mask (2 ^ ((top - i) % 64))) ≡ 1
    kept near =
        bit-bit_or (top - j) mask _
        ∙ omega (arith, a.0.1 near, bit-le_one (top - j) (2 ^ ((top - i) % 64)))

mark_self : (mask top i : ℕ) → top < i + 64 → bit (top - i) (bit_or mask (2 ^ ((top - i) % 64))) ≡ 1
mark_self mask top i near =
    let same : (top - i) % 64 ≡ top - i = omega arith in
    bit-bit_or (top - i) mask _
    ∙ rw same (ground (arith, bit-pow (top - i) (top - i), bit-le_one (top - i) mask))

update_at-Tracks :
    (s : SrtpSession) (top seq roc : ℕ) (h : List ℕ)
    → s.seq_top ≡ some top
    → check_replay s (packet_index roc seq) ≡ ok tt
    → All (Seen (packet_index s.roc top) s.replay_mask) h
    → let t = update_state s seq roc (packet_index roc seq) in
      Tracks (replay_top t) t.replay_mask (packet_index roc seq ∷ h)
unfolding update_state check_replay
update_at-Tracks s top seq roc h at passed a =
    elim (Bool-cases (ltb (packet_index s.roc top) (packet_index roc seq))) [
      | inl higher ↦
          rw (at, update_state, higher)
            (
              (omega arith, λ n. here),
              shift-Seen s.replay_mask (packet_index s.roc top) (packet_index roc seq) h
                  (ltb→lt _ _ higher) a,
            )
      | inr lower ↦
          rw (at, update_state, lower)
            (rw (at, replay_top)
              (
                (
                  ground arith,
                  mark_self s.replay_mask (packet_index s.roc top) (packet_index roc seq),
                ),
                mark-Seen s.replay_mask (packet_index s.roc top) (packet_index roc seq) h a,
              ))
    ]
  where
    here :
        bit
          (packet_index roc seq - packet_index roc seq)
          (bit_or (s.replay_mask * 2 ^ (packet_index roc seq - packet_index s.roc top)) 1 % 2 ^ 64)
        ≡ 1
    here =
        let none_left : packet_index roc seq - packet_index roc seq ≡ 0 = omega arith in
        rw none_left (marked _)

pub update-Tracks :
    (s : SrtpSession) (seq roc : ℕ) (h : List ℕ)
    → Tracks (replay_top s) s.replay_mask h
    → check_replay s (packet_index roc seq) ≡ ok tt
    → let t = update_state s seq roc (packet_index roc seq) in
      Tracks (replay_top t) t.replay_mask (packet_index roc seq ∷ h)
unfolding update_state
update-Tracks s seq roc h a passed = elim (Option-cases s.seq_top) [
  | inl first ↦
      let nothing : h ≡ [] = rw (first, replay_top) at a in
      rw (first, update_state)
        (
          (
            omega arith,
            λ n.
                let zero_left : packet_index roc seq - packet_index roc seq ≡ 0 = omega arith in
                rw zero_left (marked _),
          ),
          rw nothing tt,
        )
  | inr (top, at) ↦ update_at-Tracks s top seq roc h at passed (rw (at, replay_top) at a)
]
