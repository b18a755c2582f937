-- ===== src/Dtmf/Event.antt =====
-- src/hermes_voip/dtmf.py: the telephone-event payload, the keypad, and the payloads of one
-- key-press. A text is the list of its code points.
use Prim.Native.Nat.{bit_and, bit_or}
use hermes_voip.Base.{
  ℕ, zero, suc, ◌+◌, ◌-◌, ◌≤◌, ◌≡◌, refl, Bool, true, false, not, ◌&&◌, ◌==◌, ltb, leb,
  if◌then◌else◌, List, [], ◌∷◌, ◌++◌, map, length, get_or, get_elem?, replicate, Option, none, some,
  Result, ok, err, guard, or_fail, ◌>>=◌, ◌>>◌, arith,
}
use hermes_voip.Base.Bytes.{
  be16, from_be, bit_or-high, bit_or-zero_left, bit_and-high, bit_and-low6,
}

pub record DtmfEvent : Type 0 where
  pub event : ℕ
  pub end : Bool
  pub volume : ℕ
  pub duration : ℕ

pub data DtmfError : Type 0 where
  bad_event bad_volume bad_duration bad_length not_a_digit no_digit bad_step bad_total : DtmfError

abbrev pub max_duration : ℕ
max_duration = 65535

-- `__post_init__`. No field is negative here.
unfoldable pub make : DtmfEvent → Result DtmfError DtmfEvent
make e = do
  guard (leb e.event 255) bad_event
  guard (leb e.volume 63) bad_volume
  guard (leb e.duration max_duration) bad_duration
  ok e

unfoldable pub encode : DtmfEvent → List ℕ
encode e = e.event ∷ bit_or (if e.end then 128 else 0) e.volume ∷ be16 e.duration

unfoldable pub decode : List ℕ → Result DtmfError DtmfEvent
unfolding make
decode wire = do
  guard (length wire == 4) bad_length
  make (record {
    event = get_or wire 0 0;
    end = not (bit_and (get_or wire 1 0) 128 == 0);
    volume = bit_and (get_or wire 1 0) 63;
    duration = from_be 0 (get_or wire 2 0 ∷ get_or wire 3 0 ∷ []);
  })

-- `_DIGITS`: 0 to 9, `*`, `#`, A to D.
abbrev pub digits : List ℕ
digits = 48 ∷ 49 ∷ 50 ∷ 51 ∷ 52 ∷ 53 ∷ 54 ∷ 55 ∷ 56 ∷ 57 ∷ 42 ∷ 35 ∷ 65 ∷ 66 ∷ 67 ∷ 68 ∷ []

-- `str.upper` of one character, as far as it can give a character of the keypad: a to z.
abbrev pub upper : ℕ → ℕ
upper c = if leb 97 c && leb c 122 then c - 32 else c

abbrev pub index_of : ℕ → ℕ → List ℕ → Option ℕ
index_of i c [] = none
index_of i c (d ∷ ds) = if d == c then some i else index_of (i + 1) c ds

unfoldable pub digit_to_event : List ℕ → Result DtmfError ℕ
digit_to_event (c ∷ []) = or_fail (index_of 0 (upper c) digits) not_a_digit
digit_to_event _ = err not_a_digit

unfoldable pub event_to_digit : ℕ → Result DtmfError ℕ
event_to_digit n = or_fail (get_elem? digits n) no_digit

-- The loop of `event_payloads`: the durations before the full one. A step is at least 1, so
-- `total` rounds are enough.
unfoldable pub durations : ℕ → ℕ → ℕ → ℕ → List ℕ
durations zero duration step total = []
durations (suc rounds) duration step total =
    let rest = durations rounds (duration + step) step total in
    if ltb duration total then duration ∷ rest else []

-- `DtmfEvent(…).encode()` for each event, until one is refused.
unfoldable pub encode_all : List DtmfEvent → Result DtmfError (List (List ℕ))
unfolding make encode
encode_all [] = ok []
encode_all (e ∷ es) = do valid ← make e; rest ← encode_all es; ok (encode valid ∷ rest)

abbrev pub update : ℕ → ℕ → ℕ → DtmfEvent
update event volume duration = record {
  event = event;
  end = false;
  volume = volume;
  duration = duration;
}

abbrev pub final : ℕ → ℕ → ℕ → DtmfEvent
final event volume duration = record {
  event = event;
  end = true;
  volume = volume;
  duration = duration;
}

-- The events of one key-press, in the order of sending.
unfoldable pub press_events : ℕ → ℕ → ℕ → ℕ → List DtmfEvent
unfolding durations
press_events event total step volume =
    map (update event volume) (durations total step step total)
    ++ (update event volume total ∷ replicate 3 (final event volume total))

-- `event_payloads`. The generator is run to its end; every event has the same volume, so one that
-- is refused is the first.
unfoldable pub event_payloads : List ℕ → ℕ → ℕ → ℕ → Result DtmfError (List (List ℕ))
event_payloads digit total step volume = do
  guard (ltb 0 step) bad_step
  guard (leb 1 total && leb total max_duration) bad_total
  event ← digit_to_event digit
  encode_all (press_events event total step volume)

-- What the constructor checks.
pub record IsValid (e : DtmfEvent) : Type 0 where
  pub event_le : e.event ≤ 255
  pub volume_le : e.volume ≤ 63
  pub duration_le : e.duration ≤ 65535

byte1 : Bool → ℕ → ℕ
byte1 e v = bit_or (if e then 128 else 0) v

byte1_fields :
    (e : Bool) (v : ℕ)
    → v ≤ 63
    → (bit_and (byte1 e v) 63 ≡ v) × (not (bit_and (byte1 e v) 128 == 0) ≡ e)
unfolding byte1
byte1_fields true v h =
    rw (bit_or-high v (omega arith))
      (ground (arith, bit_and-low6 (128 + v) (omega arith), bit_and-high (128 + v) (omega arith)))
byte1_fields false v h =
    rw (bit_or-zero_left v (omega arith))
      (ground (arith, bit_and-low6 v (omega arith), bit_and-high v (omega arith)))

-- The round trip of the payload: an event with its fields in range decodes from its encoding.
pub decode-encode : (e : DtmfEvent) → IsValid e → decode (encode e) ≡ ok e
unfolding decode encode byte1
decode-encode e v = ground (arith, byte1_fields e.end e.volume)

code_of :
    (k n c : ℕ)
    → digit_to_event (k ∷ []) ≡ ok n
    → ◌≡◌ {A = Result DtmfError ℕ} (ok k) (ok c)
    → digit_to_event (c ∷ []) ≡ ok n
code_of k n c at h = let same : k ≡ c = cc in rw (← same) at

-- The keypad and the event codes: the character that an event code maps to, if there is one, maps
-- back to that code.
pub digit_to_event-event_to_digit :
    (n c : ℕ) → event_to_digit n ≡ ok c → digit_to_event (c ∷ []) ≡ ok n
unfolding digit_to_event event_to_digit
digit_to_event-event_to_digit zero c h = code_of 48 0 c refl h
digit_to_event-event_to_digit (suc zero) c h = code_of 49 1 c refl h
digit_to_event-event_to_digit (suc (suc zero)) c h = code_of 50 2 c refl h
digit_to_event-event_to_digit (suc (suc (suc zero))) c h = code_of 51 3 c refl h
digit_to_event-event_to_digit (suc (suc (suc (suc zero)))) c h = code_of 52 4 c refl h
digit_to_event-event_to_digit (suc (suc (suc (suc (suc zero))))) c h = code_of 53 5 c refl h
digit_to_event-event_to_digit (suc (suc (suc (suc (suc (suc zero)))))) c h = code_of 54 6 c refl h
digit_to_event-event_to_digit (suc (suc (suc (suc (suc (suc (suc zero))))))) c h =
    code_of 55 7 c refl h
digit_to_event-event_to_digit (suc (suc (suc (suc (suc (suc (suc (suc zero)))))))) c h =
    code_of 56 8 c refl h
digit_to_event-event_to_digit (suc (suc (suc (suc (suc (suc (suc (suc (suc zero))))))))) c h =
    code_of 57 9 c refl h
digit_to_event-event_to_digit (suc (suc (suc (suc (suc (suc (suc (suc (suc (suc zero)))))))))) c h =
    code_of 42 10 c refl h
digit_to_event-event_to_digit (suc (suc (suc (suc (suc (suc (suc (suc (suc (suc (suc zero)))))))))))
      c h =
    code_of 35 11 c refl h
digit_to_event-event_to_digit
      (suc (suc (suc (suc (suc (suc (suc (suc (suc (suc (suc (suc zero)))))))))))) c h =
    code_of 65 12 c refl h
digit_to_event-event_to_digit
      (suc (suc (suc (suc (suc (suc (suc (suc (suc (suc (suc (suc (suc zero))))))))))))) c h =
    code_of 66 13 c refl h
digit_to_event-event_to_digit
      (suc (suc (suc (suc (suc (suc (suc (suc (suc (suc (suc (suc (suc (suc zero)))))))))))))) c h =
    code_of 67 14 c refl h
digit_to_event-event_to_digit
      (suc (suc (suc (suc (suc (suc (suc (suc (suc (suc (suc (suc (suc (suc (suc zero)))))))))))))))
      c h =
    code_of 68 15 c refl h
digit_to_event-event_to_digit
      (suc
        (suc (suc (suc (suc (suc (suc (suc (suc (suc (suc (suc (suc (suc (suc (suc n))))))))))))))))
      c h =
    cc

pub make-IsValid : (e f : DtmfEvent) → make e ≡ ok f → IsValid e × (f ≡ e)
unfolding make
make-IsValid e f h = ground arith
