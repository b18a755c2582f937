-- ===== src/Framer/Drain.antt =====
-- src/hermes_voip/transport/framing.py: what one step takes from the buffer, what more input changes,
-- and that the iteration ends.
use hermes_voip.Base.{
  ℕ, zero, suc, ◌+◌, ◌≤◌, ◌<◌, ◌≡◌, ◌≢◌, refl, sym, ap, ◌∙◌, true, false, ◌&&◌, ◌==◌, List, [], ◌∷◌,
  ◌++◌, length, take, drop, length-append, length-drop, drop-append_le, take-append_le, ◌⊎◌, Option,
  none, some, Result, ok, err, arith, Option-cases, Bool-cases, Result-cases, inl, inr,
}
use hermes_voip.Base.Text.{Text}
use hermes_voip.Message.Parse.{find_end, starts_with, head_end}
use hermes_voip.Framer.{
  FramingError, declared_length, skip_keepalive, next_at, next_message, drain, Drained, prepend,
  waiting, out_of_fuel, failed, max_message,
}

-- Keep-alives in front of what is left are skipped however the input was cut.
skip_keepalive-append :
    (b more : List ℕ) → skip_keepalive (skip_keepalive b ++ more) ≡ skip_keepalive (b ++ more)
unfolding skip_keepalive
skip_keepalive-append [] more = refl
skip_keepalive-append (c ∷ []) more = refl
skip_keepalive-append (c ∷ d ∷ b) more = elim (Bool-cases (c == 13 && d == 10)) [
  | inl ping ↦ rw ping (skip_keepalive-append b more)
  | inr head ↦ rw head (rw head refl)
]

skip_keepalive-long :
    (b more : List ℕ)
    → 2 ≤ length (skip_keepalive b)
    → skip_keepalive (b ++ more) ≡ skip_keepalive b ++ more
unfolding skip_keepalive
skip_keepalive-long [] more h = absurd (omega arith)
skip_keepalive-long (c ∷ []) more h = absurd (omega arith)
skip_keepalive-long (c ∷ d ∷ b) more h = elim (Bool-cases (c == 13 && d == 10)) [
  | inl ping ↦ rw ping (skip_keepalive-long b more (ground arith))
  | inr head ↦ rw head refl
]

length-skip_keepalive : (b : List ℕ) → length (skip_keepalive b) ≤ length b
unfolding skip_keepalive
length-skip_keepalive [] = omega arith
length-skip_keepalive (c ∷ []) = omega arith
length-skip_keepalive (c ∷ d ∷ b) = ground (arith, length-skip_keepalive b)

starts_with-append :
    (p s more : List ℕ) → length p ≤ length s → starts_with p (s ++ more) ≡ starts_with p s
starts_with-append [] s more h = refl
starts_with-append (x ∷ p) [] more h = absurd (omega arith)
starts_with-append (x ∷ p) (c ∷ s) more h = rw (starts_with-append p s more (omega arith)) refl

starts_with-length : (p s : List ℕ) → starts_with p s ≡ true → length p ≤ length s
starts_with-length [] s h = omega arith
starts_with-length (x ∷ p) [] h = cc
starts_with-length (x ∷ p) (c ∷ s) h = omega (arith, starts_with-length p s (ground arith))

find_end-cons :
    (c : ℕ) (s head body : List ℕ)
    → find_end (c ∷ s) ≡ some (head, body)
    → ((starts_with head_end (c ∷ s) ≡ true) × ((head ≡ []) × (body ≡ drop 3 s)))
      ⊎ ((starts_with head_end (c ∷ s) ≡ false)
          × ((tail : List ℕ) × (head ≡ c ∷ tail) × (find_end s ≡ some (tail, body))))
unfolding find_end
find_end-cons c s head body h = elim (Bool-cases (starts_with head_end (c ∷ s))) [
  | inl here ↦ inl (here, ground arith)
  | inr later ↦ elim (Option-cases (find_end s)) [
    | inl absent ↦ absurd (ground (arith, absent, later))
    | inr ((tail, behind), found) ↦
        inr (later, (tail, ground (arith, found, later), ground (arith, found, later)))
  ]
]

pub length-find_end :
    (s head body : List ℕ)
    → find_end s ≡ some (head, body)
    → length s ≡ length head + 4 + length body
length-find_end [] head body h = unfold find_end in cc
length-find_end (c ∷ s) head body h = elim (find_end-cons c s head body h) [
  | inl (here, (empty, rest)) ↦ omega (
    arith,
    starts_with-length head_end (c ∷ s) here,
    ap (λ (t : List ℕ). length t) empty,
    ap (λ (t : List ℕ). length t) rest,
    length-drop 3 s,
  )
  | inr (later, (tail, front, found)) ↦
      omega (arith, length-find_end s tail body found, ap (λ (t : List ℕ). length t) front)
]

find_end-here :
    (c : ℕ) (s : List ℕ)
    → starts_with head_end (c ∷ s) ≡ true
    → find_end (c ∷ s) ≡ some ([], drop 3 s)
unfolding find_end
find_end-here c s here = rw here refl

find_end-later :
    (c : ℕ) (s tail body : List ℕ)
    → starts_with head_end (c ∷ s) ≡ false
    → find_end s ≡ some (tail, body)
    → find_end (c ∷ s) ≡ some (c ∷ tail, body)
unfolding find_end
find_end-later c s tail body later found = rw (later, found) refl

find_end-append :
    (s head body more : List ℕ)
    → find_end s ≡ some (head, body)
    → find_end (s ++ more) ≡ some (head, body ++ more)
find_end-append [] head body more h = unfold find_end in cc
find_end-append (c ∷ s) head body more h = elim (find_end-cons c s head body h) [
  | inl (here, (empty, rest)) ↦
      let enough = starts_with-length head_end (c ∷ s) here in
      find_end-here c (s ++ more) (starts_with-append head_end (c ∷ s) more enough ∙ here)
      ∙ rw (drop-append_le 3 s more (omega arith), empty, rest) refl
  | inr (later, (tail, front, found)) ↦
      let enough = length-find_end s tail body found in
      find_end-later c (s ++ more) tail (body ++ more)
        (starts_with-append head_end (c ∷ s) more (omega arith) ∙ later)
        (find_end-append s tail body more found)
      ∙ rw front refl
]

pub failed-ne-waiting : (e : FramingError) → failed e ≢ waiting
failed-ne-waiting e h = cc

-- A list of two bytes or more that is left behind the keep-alives starts with none.
long_head : (b head body : List ℕ) → find_end b ≡ some (head, body) → 2 ≤ length b
long_head b head body h = omega (arith, length-find_end b head body h)

module _ (decode : List ℕ → Text) where
  -- What a step that found a message did.
  pub record Takes (b m r : List ℕ) : Type 0 where
    pub head : List ℕ
    pub body : List ℕ
    pub size : ℕ
    pub found : find_end (skip_keepalive b) ≡ some (head, body)
    pub declared : declared_length (decode head) ≡ ok size
    pub small : length head + 4 + size ≤ max_message
    pub there : length head + 4 + size ≤ length (skip_keepalive b)
    pub message : m ≡ take (length head + 4 + size) (skip_keepalive b)
    pub left : r ≡ drop (length head + 4 + size) (skip_keepalive b)

  pub next_message-Takes : (b m r : List ℕ) → next_message decode b ≡ (ok (some m), r) → Takes b m r
  unfolding next_message
  next_message-Takes b m r h = elim (Option-cases (find_end (skip_keepalive b))) [
    | inl absent ↦ absurd (ground (arith, absent))
    | inr ((head, body), found) ↦ elim (Result-cases (declared_length (decode head))) [
      | inr (e, bad) ↦ absurd (ground (arith, found, bad))
      | inl (n, declared) ↦ record {
        head = head;
        body = body;
        size = n;
        found = found;
        declared = declared;
        small = ground (arith, found, declared);
        there = ground (arith, found, declared);
        message = ground (arith, found, declared);
        left = ground (arith, found, declared);
      }
    ]
  ]

  pub Takes-next_message : (b m r : List ℕ) → Takes b m r → next_message decode b ≡ (ok (some m), r)
  unfolding next_message
  Takes-next_message b m r t = ground (arith, t.found, t.declared)

  -- More input behind a complete message changes nothing but what is left.
  pub next_message-append :
      (b m r more : List ℕ)
      → next_message decode b ≡ (ok (some m), r)
      → next_message decode (b ++ more) ≡ (ok (some m), r ++ more)
  next_message-append b m r more h =
      let t = next_message-Takes b m r h in
      let same = skip_keepalive-long b more (long_head (skip_keepalive b) t.head t.body t.found) in
      Takes-next_message (b ++ more) m (r ++ more) (record {
        head = t.head;
        body = t.body ++ more;
        size = t.size;
        found = rw same (find_end-append (skip_keepalive b) t.head t.body more t.found);
        declared = t.declared;
        small = t.small;
        there = rw same (omega (arith, t.there, length-append (skip_keepalive b) more));
        message = rw same (
            t.message
            ∙ sym (take-append_le (length t.head + 4 + t.size) (skip_keepalive b) more t.there));
        left =
            rw (same, drop-append_le (length t.head + 4 + t.size) (skip_keepalive b) more t.there)
              (ap (λ (s : List ℕ). s ++ more) t.left);
      })

  next_at-waiting : (b r : List ℕ) → next_at decode b ≡ (ok none, r) → r ≡ b
  unfolding next_at
  next_at-waiting b r h = elim (Option-cases (find_end b)) [
    | inl absent ↦ ground (arith, absent)
    | inr ((head, body), found) ↦ elim (Result-cases (declared_length (decode head))) [
      | inl (n, declared) ↦ ground (arith, found, declared)
      | inr (e, bad) ↦ ground (arith, found, bad)
    ]
  ]

  waiting_buffer : (b r : List ℕ) → next_message decode b ≡ (ok none, r) → r ≡ skip_keepalive b
  unfolding next_message
  waiting_buffer b r h = next_at-waiting (skip_keepalive b) r h

  next_message_same :
      (b c : List ℕ)
      → skip_keepalive b ≡ skip_keepalive c
      → next_message decode b ≡ next_message decode c
  unfolding next_message
  next_message_same b c same = ap (λ (s : List ℕ). next_at decode s) same

  -- A step that has to wait can be taken again with more input.
  pub next_message-waiting :
      (b r more : List ℕ)
      → next_message decode b ≡ (ok none, r)
      → next_message decode (r ++ more) ≡ next_message decode (b ++ more)
  next_message-waiting b r more h =
      rw (waiting_buffer b r h)
        (next_message_same (skip_keepalive b ++ more) (b ++ more) (skip_keepalive-append b more))

  pub next_message-shorter :
      (b m r : List ℕ) → next_message decode b ≡ (ok (some m), r) → length r < length b
  next_message-shorter b m r h =
      let t = next_message-Takes b m r h in
      omega (
        arith,
        ap (λ (s : List ℕ). length s) t.left,
        length-drop (length t.head + 4 + t.size) (skip_keepalive b),
        length-skip_keepalive b,
        t.there,
      )

  waiting-le : (b r : List ℕ) → next_message decode b ≡ (ok none, r) → length r ≤ length b
  waiting-le b r h = rw (waiting_buffer b r h) (length-skip_keepalive b)

  -- The outcomes of a step, with their equation.
  pub step_cases :
      (b : List ℕ)
      → ((r : List ℕ) × (next_message decode b ≡ (ok none, r)))
        ⊎ (((m : List ℕ) × (r : List ℕ) × (next_message decode b ≡ (ok (some m), r)))
            ⊎ ((e : FramingError) × (r : List ℕ) × (next_message decode b ≡ (err e, r))))
  step_cases b = outcome_cases (next_message decode b).0 (next_message decode b).1
    where
      outcome_cases :
          (o : Result FramingError (Option (List ℕ))) (r : List ℕ)
          → ((s : List ℕ) × (◌≡◌ {A = Result FramingError (Option (List ℕ)) × List ℕ}
                (o, r)
                (ok none, s)))
            ⊎ (((m : List ℕ) × (s : List ℕ) × (◌≡◌
                    {A = Result FramingError (Option (List ℕ)) × List ℕ}
                    (o, r)
                    (ok (some m), s)))
                ⊎ ((e : FramingError) × (s : List ℕ) × (◌≡◌
                      {A = Result FramingError (Option (List ℕ)) × List ℕ}
                      (o, r)
                      (err e, s))))
      outcome_cases (ok none) r = inl (r, refl)
      outcome_cases (ok (some m)) r = inr (inl (m, r, refl))
      outcome_cases (err e) r = inr (inr (e, r, refl))

  -- The iteration on each outcome of its first step.
  pub drain-wait :
      (fuel : ℕ) (b r : List ℕ)
      → next_message decode b ≡ (ok none, r)
      → drain decode (suc fuel) b ≡ record { messages = []; stop = waiting; buffer = r }
  unfolding drain
  drain-wait fuel b r step = ground (arith, step)

  pub drain-take :
      (fuel : ℕ) (b m r : List ℕ)
      → next_message decode b ≡ (ok (some m), r)
      → drain decode (suc fuel) b ≡ prepend (m ∷ []) (drain decode fuel r)
  unfolding drain
  drain-take fuel b m r step = ground (arith, step)

  pub drain-fail :
      (fuel : ℕ) (b r : List ℕ) (e : FramingError)
      → next_message decode b ≡ (err e, r)
      → drain decode (suc fuel) b ≡ record { messages = []; stop = failed e; buffer = r }
  unfolding drain
  drain-fail fuel b r e step = ground (arith, step)

  -- The iteration ends by itself: with the fuel of `frames`, and with any fuel above the length of the
  -- buffer, it stops because it waits for input or because framing failed.
  pub drain_ends :
      (fuel : ℕ) (b : List ℕ) → length b < fuel → (drain decode fuel b).stop ≢ out_of_fuel
  drain_ends zero b h = absurd (omega arith)
  drain_ends (suc fuel) b h = elim (step_cases b) [
    | inl (r, step) ↦ rw (drain-wait fuel b r step) (λ e. cc)
    | inr (inl (m, r, step)) ↦
        rw (drain-take fuel b m r step)
          (drain_ends fuel r (omega (arith, next_message-shorter b m r step)))
    | inr (inr (e, r, step)) ↦ rw (drain-fail fuel b r e step) (λ e. cc)
  ]

  -- Fuel above the length of the buffer makes no difference.
  pub drain_fuel :
      (f g : ℕ) (b : List ℕ) → length b < f → length b < g → drain decode f b ≡ drain decode g b
  drain_fuel zero g b p q = absurd (omega arith)
  drain_fuel (suc f) zero b p q = absurd (omega arith)
  drain_fuel (suc f) (suc g) b p q = elim (step_cases b) [
    | inl (r, step) ↦ drain-wait f b r step ∙ sym (drain-wait g b r step)
    | inr (inl (m, r, step)) ↦
        let less = next_message-shorter b m r step in
        drain-take f b m r step
        ∙ ap (λ (s : Drained). prepend (m ∷ []) s) (drain_fuel f g r (omega arith) (omega arith))
        ∙ sym (drain-take g b m r step)
    | inr (inr (e, r, step)) ↦ drain-fail f b r e step ∙ sym (drain-fail g b r e step)
  ]

  pub drain-le :
      (fuel : ℕ) (b : List ℕ)
      → (drain decode fuel b).stop ≡ waiting
      → length (drain decode fuel b).buffer ≤ length b
  drain-le zero b h = unfold drain in cc
  drain-le (suc fuel) b h = elim (step_cases b) [
    | inl (r, step) ↦ rw (drain-wait fuel b r step) (waiting-le b r step)
    | inr (inl (m, r, step)) ↦
        let less = next_message-shorter b m r step in
        let rest = drain-le fuel r (rw (drain-take fuel b m r step) at h) in
        rw (drain-take fuel b m r step) (omega arith)
    | inr (inr (e, r, step)) ↦ absurd (failed-ne-waiting e (rw (drain-fail fuel b r e step) at h))
  ]

  -- The iteration depends on the buffer through its first step.
  pub drain_same :
      (fuel : ℕ) (b c : List ℕ)
      → next_message decode b ≡ next_message decode c
      → drain decode (suc fuel) b ≡ drain decode (suc fuel) c
  drain_same fuel b c same = elim (step_cases c) [
    | inl (r, step) ↦ drain-wait fuel b r (same ∙ step) ∙ sym (drain-wait fuel c r step)
    | inr (inl (m, r, step)) ↦
        drain-take fuel b m r (same ∙ step) ∙ sym (drain-take fuel c m r step)
    | inr (inr (e, r, step)) ↦
        drain-fail fuel b r e (same ∙ step) ∙ sym (drain-fail fuel c r e step)
  ]
