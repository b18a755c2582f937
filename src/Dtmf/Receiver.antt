-- ===== src/Dtmf/Receiver.antt =====
-- src/hermes_voip/dtmf.py: `DtmfReceiver`, which takes a digit only from two agreeing end packets.
use hermes_voip.Base.{
  ℕ, suc, ◌+◌, ◌≤◌, ◌≡◌, ◌≢◌, refl, sym, subst, ◌∙◌, Bool, true, false, not, ◌&&◌, ◌||◌, ◌==◌, leb,
  if◌then◌else◌, List, [], ◌∷◌, length, get_elem?, Option, none, some, Result, ok, guard, ◌>>◌,
  arith, inl, inr, Option-cases,
}
use hermes_voip.Base.Dict.{Dict, lookup, insert}
use hermes_voip.Dtmf.Event.{DtmfEvent, digits}

pub record PendingTimestamp : Type 0 where
  pub event : ℕ
  pub emitted : Bool
  pub poisoned : Bool

-- `DtmfPress` and `DtmfNoPress`.
pub data Outcome : Type 0 where
  press : ℕ → Outcome
  still_pressing awaiting_corroboration duplicate_end conflicting_event non_digit_event : Outcome

pub record DtmfReceiver : Type 0 where
  pub history : ℕ
  pub window : Dict PendingTimestamp

pub data ReceiverError : Type 0 where
  bad_history : ReceiverError

unfoldable pub init : ℕ → Result ReceiverError DtmfReceiver
init history = do guard (leb 1 history) bad_history; ok (record { history = history; window = [] })

-- `del self._window[next(iter(self._window))]` on a window that is full.
abbrev pub drop_oldest : Dict PendingTimestamp → Dict PendingTimestamp
drop_oldest [] = []
drop_oldest (e ∷ m) = m

abbrev pub evict : DtmfReceiver → Dict PendingTimestamp
evict r = if leb r.history (length r.window) then drop_oldest r.window else r.window

-- What a corroborated event code is to the caller.
unfoldable pub trusted : ℕ → Outcome
trusted code = elim (get_elem? digits code) [ none ↦ non_digit_event | some d ↦ press d ]

-- `feed` on an end packet at a timestamp that is remembered: the new state and the outcome.
unfoldable pub corroborate : PendingTimestamp → ℕ → PendingTimestamp × Outcome
corroborate s code =
    let disagrees = not (s.event == code) in
    let t = record s { poisoned = if disagrees then true else s.poisoned } in
    if disagrees || (t.poisoned && not t.emitted)
    then (t, conflicting_event)
    else if t.emitted
    then (t, duplicate_end)
    else (record t { emitted = true }, trusted t.event)

unfoldable pub feed : DtmfReceiver → DtmfEvent → ℕ → DtmfReceiver × Outcome
feed r e timestamp = if not e.end then (r, still_pressing) else elim (lookup timestamp r.window) [
  | none ↦ (
    record r {
      window =
          insert timestamp (record { event = e.event; emitted = false; poisoned = false })
            (evict r);
    },
    awaiting_corroboration,
  )
  | some s ↦
      let (t, out) = corroborate s e.event in
      (record r { window = insert timestamp t r.window }, out)
]

-- The outcomes of a series of packets at one timestamp, and the receiver after them.
unfoldable pub feeds : DtmfReceiver → ℕ → List DtmfEvent → List Outcome
feeds r ts [] = []
feeds r ts (e ∷ es) = let rest = feeds (feed r e ts).0 ts es in (feed r e ts).1 ∷ rest

abbrev pub is_press : Outcome → Bool
is_press (press d) = true
is_press _ = false

-- The outcomes that are a press.
abbrev pub presses : List Outcome → ℕ
presses [] = 0
presses (o ∷ os) = let rest = presses os in if is_press o then suc rest else rest

lookup_none-insert :
    (ts : ℕ) (s : PendingTimestamp) (m : Dict PendingTimestamp) → lookup ts (insert ts s m) ≡ some s
unfolding lookup insert
lookup_none-insert ts s [] = ground arith
lookup_none-insert ts s ((j, w) ∷ m) = ground (arith, lookup_none-insert ts s m)

-- What is remembered of `ts` after one more packet.
unfoldable pub next_state : Option PendingTimestamp → DtmfEvent → Option PendingTimestamp
next_state o e = if not e.end then o else elim o [
  | none ↦ some (record { event = e.event; emitted = false; poisoned = false })
  | some s ↦ some (corroborate s e.event).0
]

unfoldable pub outcome : Option PendingTimestamp → DtmfEvent → Outcome
outcome o e =
    if not e.end
    then still_pressing
    else elim o [ none ↦ awaiting_corroboration | some s ↦ (corroborate s e.event).1 ]

-- At one timestamp a packet acts on what is remembered of that timestamp alone.
pub lookup-feed :
    (r : DtmfReceiver) (e : DtmfEvent) (ts : ℕ)
    → (lookup ts (feed r e ts).0.window ≡ next_state (lookup ts r.window) e)
      × ((feed r e ts).1 ≡ outcome (lookup ts r.window) e)
unfolding feed next_state outcome
lookup-feed r e ts = elim (Option-cases (lookup ts r.window)) [
  | inl absent ↦
      rw (absent, feed, next_state, outcome)
        (ground (
          arith,
          lookup_none-insert ts (record { event = e.event; emitted = false; poisoned = false })
              (evict r),
        ))
  | inr (s, held) ↦
      rw (held, feed, next_state, outcome)
        (ground (arith, lookup_none-insert ts (corroborate s e.event).0 r.window))
]

-- The outcomes at one timestamp, from what is remembered of it.
unfoldable pub outcomes : Option PendingTimestamp → List DtmfEvent → List Outcome
unfolding outcome next_state
outcomes o [] = []
outcomes o (e ∷ es) = outcome o e ∷ outcomes (next_state o e) es

pub feeds-outcomes :
    (r : DtmfReceiver) (ts : ℕ) (es : List DtmfEvent)
    → feeds r ts es ≡ outcomes (lookup ts r.window) es
unfolding feeds outcomes
feeds-outcomes r ts [] = refl
feeds-outcomes r ts (e ∷ es) =
    let (state, out) = lookup-feed r e ts in cc (out, feeds-outcomes (feed r e ts).0 ts es, state)

-- How many presses can still come at a timestamp.
abbrev budget : Option PendingTimestamp → ℕ
budget none = 1
budget (some s) = if s.emitted || s.poisoned then 0 else 1

abbrev spent : Outcome → ℕ
spent o = if is_press o then 1 else 0

spent-le_one : (o : Outcome) → spent o ≤ 1
spent-le_one (press d) = omega arith
spent-le_one _ = omega arith

spent-trusted : (code : ℕ) → spent (trusted code) ≤ 1
spent-trusted code = spent-le_one (trusted code)

budget_step :
    (o : Option PendingTimestamp) (e : DtmfEvent)
    → spent (outcome o e) + budget (next_state o e) ≤ budget o
unfolding outcome next_state corroborate
budget_step none e = ground arith
budget_step (some s) e = ground (arith, spent-trusted s.event)

presses-le-budget :
    (r : DtmfReceiver) (ts : ℕ) (es : List DtmfEvent)
    → presses (feeds r ts es) ≤ budget (lookup ts r.window)
unfolding feeds
presses-le-budget r ts [] = omega arith
presses-le-budget r ts (e ∷ es) =
    let (state, out) = lookup-feed r e ts in
    let rest = presses-le-budget (feed r e ts).0 ts es in
    let after : presses (feeds (feed r e ts).0 ts es) ≤ budget (next_state (lookup ts r.window) e) =
      rw (← state) rest in
    rw out (ground (arith, after, budget_step (lookup ts r.window) e))

-- One press for one timestamp: however many packets arrive at an RTP timestamp in a row, genuine,
-- redundant or forged, at most one digit comes out of them.
pub feeds_one_press :
    (r : DtmfReceiver) (ts : ℕ) (es : List DtmfEvent) → presses (feeds r ts es) ≤ 1
feeds_one_press r ts es =
    omega (arith, presses-le-budget r ts es, budget_le_one (lookup ts r.window))
  where
    budget_le_one : (o : Option PendingTimestamp) → budget o ≤ 1
    budget_le_one none = omega arith
    budget_le_one (some s) = ground arith

trusted-press : (code d : ℕ) → trusted code ≡ press d → get_elem? digits code ≡ some d
unfolding trusted
trusted-press code d h = elim (Option-cases (get_elem? digits code)) [
  | inl missing ↦ let k = rw (missing, trusted) at h in cc
  | inr (x, found) ↦ let k = rw (found, trusted) at h in cc
]

agrees-press :
    (s : PendingTimestamp) (e : DtmfEvent) (d : ℕ)
    → outcome (some s) e ≡ press d
    → (e.end ≡ true)
      × (s.event ≡ e.event)
      × (s.emitted ≡ false)
      × (s.poisoned ≡ false)
      × (trusted s.event ≡ press d)
unfolding outcome corroborate
agrees-press s e d h = ground arith

outcome-press :
    (o : Option PendingTimestamp) (e : DtmfEvent) (d : ℕ)
    → outcome o e ≡ press d
    → (s : PendingTimestamp) × (o ≡ some s)
      × (e.end ≡ true)
      × (s.event ≡ e.event)
      × (s.emitted ≡ false)
      × (s.poisoned ≡ false)
      × (get_elem? digits e.event ≡ some d)
unfolding outcome
outcome-press none e d h = absurd (ground arith)
outcome-press (some s) e d h =
    let (a, b, c, p, t) = agrees-press s e d h in
    (
      s,
      refl,
      a,
      b,
      c,
      p,
      subst (λ (n : ℕ). get_elem? digits n ≡ some d) b (trusted-press s.event d t),
    )

-- A digit comes out only on corroboration: on an end packet whose event code agrees with the one
-- remembered for its timestamp, where no digit was given out and no packet disagreed before.
pub feed_corroborated :
    (r : DtmfReceiver) (e : DtmfEvent) (ts d : ℕ)
    → (feed r e ts).1 ≡ press d
    → (s : PendingTimestamp) × (lookup ts r.window ≡ some s)
      × (e.end ≡ true)
      × (s.event ≡ e.event)
      × (s.emitted ≡ false)
      × (s.poisoned ≡ false)
      × (get_elem? digits e.event ≡ some d)
feed_corroborated r e ts d h =
    let shown : outcome (lookup ts r.window) e ≡ press d = sym (lookup-feed r e ts).1 ∙ h in
    outcome-press (lookup ts r.window) e d shown

conflict_state :
    (s : PendingTimestamp) (e : DtmfEvent)
    → e.end ≡ true
    → s.emitted ≡ false
    → s.event ≢ e.event
    → budget (next_state (some s) e) ≡ 0
unfolding next_state corroborate
conflict_state s e at open_ differs = ground arith

-- Fail safe: once two end packets of a timestamp disagree before a digit was given out, no digit
-- comes out of that timestamp, whatever packets of it arrive next in a row.
pub feeds_contested :
    (r : DtmfReceiver) (ts : ℕ) (s : PendingTimestamp) (e : DtmfEvent) (es : List DtmfEvent)
    → lookup ts r.window ≡ some s
    → s.emitted ≡ false
    → e.end ≡ true
    → s.event ≢ e.event
    → presses (feeds (feed r e ts).0 ts es) ≡ 0
feeds_contested r ts s e es held fresh at differs =
    let (state, _) = lookup-feed r e ts in
    let none_left : budget (lookup ts (feed r e ts).0.window) ≡ 0 =
      rw (state, held) (conflict_state s e at fresh differs) in
    omega (arith, presses-le-budget (feed r e ts).0 ts es, none_left)

length-insert :
    (ts : ℕ) (s : PendingTimestamp) (m : Dict PendingTimestamp)
    → length (insert ts s m) ≤ suc (length m)
unfolding insert
length-insert ts s [] = omega arith
length-insert ts s ((j, w) ∷ m) = ground (arith, length-insert ts s m)

length-insert_held :
    (ts : ℕ) (s : PendingTimestamp) (m : Dict PendingTimestamp) {o : PendingTimestamp}
    → lookup ts m ≡ some o
    → length (insert ts s m) ≡ length m
unfolding insert lookup
length-insert_held ts s [] h = cc
length-insert_held ts s ((j, w) ∷ m) {o} h = ground (arith, length-insert_held ts s m {o = o})

length-evict :
    (r : DtmfReceiver)
    → 1 ≤ r.history
    → length r.window ≤ r.history
    → suc (length (evict r)) ≤ r.history
length-evict r pos h = ground arith

-- The memory of the receiver is bounded: if it remembers at most `history` timestamps, and that is
-- at least one, then so it does after any packet.
feed_bounded :
    (r : DtmfReceiver) (e : DtmfEvent) (ts : ℕ)
    → 1 ≤ r.history
    → length r.window ≤ r.history
    → length (feed r e ts).0.window ≤ r.history
unfolding feed
feed_bounded r e ts pos h = elim (Option-cases (lookup ts r.window)) [
  | inl absent ↦
      rw (absent, feed)
        (ground (
          arith,
          length-evict r pos h,
          length-insert ts (record { event = e.event; emitted = false; poisoned = false })
              (evict r),
        ))
  | inr (s, held) ↦
      rw (held, feed)
        (ground (arith, length-insert_held ts (corroborate s e.event).0 r.window held))
]
