-- ===== src/Dtmf/Press.antt =====
-- src/hermes_voip/dtmf.py: one key-press from the sender's digit to the receiver's.
use hermes_voip.Base.{
  ℕ, suc, ◌+◌, ◌≤◌, ◌≡◌, refl, ap, ◌∙◌, Bool, true, false, ◌==◌, ltb, leb, List, [], ◌∷◌, ◌++◌, map,
  length, get_elem?, replicate, Option, none, some, Result, ok, err, guard, ◌>>=◌, ◌>>◌, arith, inl,
  inr, Result-cases, Option-cases, Bool-cases, ==_iff, ◌-◌, ◌&&◌,
}
use hermes_voip.Base.Dict.{lookup}
use hermes_voip.Dtmf.Event.{
  DtmfEvent, DtmfError, digits, make, encode, decode, encode_all, press_events, event_payloads,
  digit_to_event, durations, update, final, upper, index_of, make-IsValid, decode-encode,
}
use hermes_voip.Dtmf.Receiver.{
  DtmfReceiver, PendingTimestamp, press, still_pressing, awaiting_corroboration, duplicate_end,
  feeds, corroborate, trusted, outcomes, feeds-outcomes,
}

-- The payloads that arrive, decoded.
pub decode_all : List (List ℕ) → Result DtmfError (List DtmfEvent)
decode_all [] = ok []
decode_all (w ∷ ws) = do e ← decode w; es ← decode_all ws; ok (e ∷ es)

decode_all-encode_all :
    (es : List DtmfEvent) (ws : List (List ℕ)) → encode_all es ≡ ok ws → decode_all ws ≡ ok es
unfolding decode_all encode_all
decode_all-encode_all [] ws h = let nothing : ws ≡ [] = cc in rw nothing refl
decode_all-encode_all (e ∷ es) ws h = elim (Result-cases (make e)) [
  | inr (x, bad) ↦ let k = rw bad at h in cc
  | inl (f, made) ↦ elim (Result-cases (encode_all es)) [
    | inr (x, bad) ↦ let k = rw (made, bad) at h in cc
    | inl (rest, coded) ↦
        let (valid, same) = make-IsValid e f made in
        let all : ok (encode f ∷ rest) ≡ ok ws = rw (made, coded) at h in
        let wire : ws ≡ encode e ∷ rest = cc in
        rw wire (rw (decode-encode e valid) (rw (decode_all-encode_all es rest coded) refl))
  ]
]

-- What the receiver answers to the updates, which carry no end bit.
outcomes_updates :
    (o : Option PendingTimestamp) (event volume : ℕ) (ds : List ℕ) (es : List DtmfEvent)
    → outcomes o (map (update event volume) ds ++ es)
      ≡ replicate (length ds) still_pressing ++ outcomes o es
unfolding outcomes
outcomes_updates o event volume [] es = refl
outcomes_updates o event volume (d ∷ ds) es =
    ap (λ t. still_pressing ∷ t) (outcomes_updates o event volume ds es)

outcomes_ends :
    (event volume total d : ℕ)
    → trusted event ≡ press d
    → outcomes none (update event volume total ∷ replicate 3 (final event volume total))
      ≡ still_pressing ∷ awaiting_corroboration ∷ press d ∷ duplicate_end ∷ []
unfolding outcomes corroborate
outcomes_ends event volume total d digit = ground arith

index_of-get_elem? :
    (i c n : ℕ) (ds : List ℕ) → index_of i c ds ≡ some n → (i ≤ n) × (get_elem? ds (n - i) ≡ some c)
index_of-get_elem? i c n [] h = absurd (cc)
index_of-get_elem? i c n (d ∷ ds) h = elim (Bool-cases (d == c)) [
  | inl hit ↦
      let same : d ≡ c = (==_iff d c).0 hit in
      let at : i ≡ n = let k = rw hit at h in cc in
      let none_left : n - i ≡ 0 = omega arith in (omega arith, rw (none_left, same) refl)
  | inr miss ↦
      let (le, found) = index_of-get_elem? (i + 1) c n ds (let k = rw miss at h in k) in
      let more : n - i ≡ suc (n - (i + 1)) = omega (arith, le) in (omega (arith, le), rw more found)
]

digit_to_event-trusted :
    (c event : ℕ) → digit_to_event (c ∷ []) ≡ ok event → trusted event ≡ press (upper c)
unfolding digit_to_event trusted
digit_to_event-trusted c event h = elim (Option-cases (index_of 0 (upper c) digits)) [
  | inl missing ↦ let k = rw missing at h in absurd (cc)
  | inr (n, found) ↦
      let k = rw found at h in
      let same : n ≡ event = cc in
      let whole : n - 0 ≡ event = omega (arith, same) in
      let at = rw whole at ((index_of-get_elem? 0 (upper c) n digits found).1) in
      rw (at, trusted) refl
]

guarded_ok :
    {E A B : Type 0} (g k : Bool) (x y : E) (r : Result E A) (f : A → Result E B) {b : B}
    → (guard g x >> (guard k y >> (r >>= f))) ≡ ok b
    → (a : A) × (r ≡ ok a) × (f a ≡ ok b)
guarded_ok true true x y (ok a) f h = (a, refl, h)
guarded_ok true true x y (err e) f h = absurd (cc)
guarded_ok true false x y r f h = absurd (cc)
guarded_ok false k x y r f h = absurd (cc)

received :
    (r : DtmfReceiver) (ts c event total step volume : ℕ)
    → lookup ts r.window ≡ none
    → digit_to_event (c ∷ []) ≡ ok event
    → feeds r ts (press_events event total step volume)
      ≡ replicate (length (durations total step step total)) still_pressing
        ++ (still_pressing ∷ awaiting_corroboration ∷ press (upper c) ∷ duplicate_end ∷ [])
unfolding press_events
received r ts c event total step volume absent code =
    feeds-outcomes r ts _
    ∙ rw absent (outcomes_updates none event volume (durations total step step total) _)
    ∙ ap (λ t. replicate (length (durations total step step total)) still_pressing ++ t)
        (outcomes_ends event volume total (upper c) (digit_to_event-trusted c event code))

-- One key-press arrives once: whatever payloads `event_payloads` sends for a character, the other
-- side decodes them all, and a receiver that does not remember their timestamp answers with the
-- updates, then one end that waits, then that character (in upper case), then a duplicate.
pub event_payloads-feeds :
    (r : DtmfReceiver) (ts c total step volume : ℕ) {ws : List (List ℕ)}
    → event_payloads (c ∷ []) total step volume ≡ ok ws
    → lookup ts r.window ≡ none
    → (es : List DtmfEvent) × (n : ℕ) × (decode_all ws ≡ ok es)
      × (feeds r ts es
          ≡ replicate n still_pressing
            ++ (still_pressing ∷ awaiting_corroboration ∷ press (upper c) ∷ duplicate_end ∷ []))
unfolding event_payloads
event_payloads-feeds r ts c total step volume {ws} h absent =
    let (event, code, wire) =
      guarded_ok (ltb 0 step) (leb 1 total && leb total 65535) _ _ (digit_to_event (c ∷ []))
        (λ e. encode_all (press_events e total step volume)) h in
    (
      press_events event total step volume,
      length (durations total step step total),
      decode_all-encode_all _ ws wire,
      received r ts c event total step volume absent code,
    )
