-- ===== src/Rtp/Jitter.antt =====
-- src/hermes_voip/rtp.py: `Lost` and `JitterBuffer`. A method that changes the buffer returns the
-- new one; the dictionary of packets is an association list in insertion order. What `__init__`
-- stores and no method changes is the record `Config`.
pub mod Invariant
pub mod Playout
pub mod Source
pub mod Window
pub mod Flush
use hermes_voip.Base.{
  ℕ, zero, suc, ◌+◌, ◌-◌, ◌%◌, Bool, true, false, not, ◌&&◌, ◌||◌, ◌==◌, ltb, leb, if◌then◌else◌,
  List, [], ◌∷◌, map, length, Option, none, some, Result, ok, err, guard, ◌>>=◌, ◌>>◌,
}
use hermes_voip.Base.Dict.{Dict, lookup, contains, setdefault, remove}
use hermes_voip.Rtp.Serial.{seq_mod, seq_half, ahead, seq_before, seq_next}
use hermes_voip.Rtp.Packet.{RtpPacket}

-- The loss of `count` packets from `sequence` on.
pub record Lost : Type 0 where
  pub sequence : ℕ
  pub count : ℕ

pub data JitterOutput : Type 0 where
  packet : RtpPacket → JitterOutput
  gone : Lost → JitterOutput

pub record Config : Type 0 where
  pub adapt : Bool
  pub floor : ℕ
  pub ceiling : ℕ
  pub max_ahead : ℕ
  pub ssrc_hysteresis : ℕ

pub record JitterBuffer : Type 0 where
  pub config : Config
  pub open config use *
  pub depth : ℕ
  pub packets : Dict RtpPacket
  pub next : Option ℕ
  pub ssrc : Option ℕ
  pub emitted : Bool
  pub highest : Option ℕ
  pub clean_run : ℕ
  pub ssrc_candidate : Option ℕ
  pub ssrc_candidate_count : ℕ
  pub ahead_candidate : Option ℕ
  pub ahead_run : ℕ

pub data JitterError : Type 0 where
  bad_depth bad_ahead bad_window bad_ceiling bad_hysteresis : JitterError

abbrev pub default_max_depth : ℕ
default_max_depth = 10

abbrev pub shrink_after : ℕ
shrink_after = 50

abbrev pub reanchor_after : ℕ
reanchor_after = 3

abbrev pub fresh : Config → JitterBuffer
fresh c = record {
  config = c;
  depth = c.floor;
  packets = [];
  next = none;
  ssrc = none;
  emitted = false;
  highest = none;
  clean_run = 0;
  ssrc_candidate = none;
  ssrc_candidate_count = 0;
  ahead_candidate = none;
  ahead_run = 0;
}

abbrev or_default : Option ℕ → ℕ → ℕ
or_default none d = d
or_default (some n) d = n

-- `__init__`.
unfoldable pub init : ℕ → ℕ → Option ℕ → Bool → ℕ → Result JitterError JitterBuffer
init target_depth max_ahead max_depth adapt ssrc_hysteresis = do
  guard (leb 1 target_depth) bad_depth
  guard (leb 1 max_ahead) bad_ahead
  guard (ltb max_ahead seq_half) bad_window
  let ceiling = or_default max_depth default_max_depth
  guard (not (adapt && ltb ceiling target_depth)) bad_ceiling
  guard (leb 1 ssrc_hysteresis) bad_hysteresis
  ok (
      fresh (record {
        adapt = adapt;
        floor = target_depth;
        ceiling = ceiling;
        max_ahead = max_ahead;
        ssrc_hysteresis = ssrc_hysteresis;
      }))

unfoldable pub reset : JitterBuffer → JitterBuffer
reset b = record b {
  packets = [];
  next = none;
  ssrc = none;
  emitted = false;
  highest = none;
  clean_run = 0;
  depth = b.floor;
  ssrc_candidate = none;
  ssrc_candidate_count = 0;
  ahead_candidate = none;
  ahead_run = 0;
}

unfoldable pub grow : JitterBuffer → JitterBuffer
grow b = record b { depth = if ltb b.depth b.ceiling then b.depth + 1 else b.depth; clean_run = 0 }

abbrev pub is_some_of : Option ℕ → ℕ → Bool
is_some_of none n = false
is_some_of (some m) n = n == m

-- The end of `_check_ssrc`, on a packet of a foreign source.
count_foreign : JitterBuffer → ℕ → JitterBuffer × Bool
unfolding reset
count_foreign b source =
    let n = if is_some_of b.ssrc_candidate source then b.ssrc_candidate_count + 1 else 1 in
    if ltb n b.ssrc_hysteresis
    then (record b { ssrc_candidate = some source; ssrc_candidate_count = n }, false)
    else (record (reset b) { ssrc = some source }, true)

-- `_check_ssrc`: the buffer, and whether the packet may be stored.
unfoldable pub check_ssrc : JitterBuffer → RtpPacket → JitterBuffer × Bool
unfolding count_foreign
check_ssrc b p = elim b.ssrc [
  | none ↦ (record b { ssrc = some p.ssrc; ssrc_candidate = none; ssrc_candidate_count = 0 }, true)
  | some home ↦
      if p.ssrc == home
      then (record b { ssrc_candidate = none; ssrc_candidate_count = 0 }, true)
      else count_foreign b p.ssrc
]

unfoldable pub break_ahead_run : JitterBuffer → JitterBuffer
break_ahead_run b = record b { ahead_run = 0; ahead_candidate = none }

abbrev pub is_before : Option ℕ → ℕ → Bool
is_before none s = false
is_before (some c) s = seq_before c s

-- `_reanchor_if_stranded` where the anchor is `next`: the buffer, and whether to drop the packet.
unfoldable pub reanchor_if_stranded : JitterBuffer → ℕ → ℕ → JitterBuffer × Bool
unfolding break_ahead_run
reanchor_if_stranded b next s =
    if contains next b.packets || leb b.depth (length b.packets)
    then (break_ahead_run b, true)
    else let run = if is_before b.ahead_candidate s then b.ahead_run + 1 else 1 in
      let counted = record b { ahead_run = run; ahead_candidate = some s } in
      if ltb run reanchor_after
      then (counted, true)
      else (record counted { packets = []; next = some s }, false)

abbrev pub raise_highest : Option ℕ → ℕ → Option ℕ
raise_highest none s = some s
raise_highest (some h) s = if seq_before h s then some s else some h

-- The end of `push`, which an arrival in the window reaches.
unfoldable pub store : JitterBuffer → RtpPacket → JitterBuffer
unfolding break_ahead_run
store b p =
    let c = break_ahead_run b in
    record c {
      highest = raise_highest c.highest p.sequence_number;
      packets = setdefault p.sequence_number p c.packets;
    }

abbrev pub is_wide : JitterBuffer → ℕ → Option ℕ → Bool
is_wide b s none = false
is_wide b s (some h) = b.adapt && (seq_before s h && leb b.depth (ahead s h))

-- `push` with the anchor at `next`.
unfoldable pub place : JitterBuffer → ℕ → RtpPacket → JitterBuffer
unfolding break_ahead_run reanchor_if_stranded store grow
place b next p =
    let s = p.sequence_number in
    if seq_before s next
    then (if b.emitted
        then break_ahead_run (if b.adapt && leb (ahead s next) b.max_ahead then grow b else b)
        else if ltb b.max_ahead (ahead s next)
        then break_ahead_run b
        else store (record b { next = some s }) p)
    else if ltb b.max_ahead (ahead next s)
    then (let (c, dropped) = reanchor_if_stranded b next s in if dropped then c else store c p)
    else store (if is_wide b s b.highest then grow b else b) p

-- `push` past the test of the source.
unfoldable pub admit : JitterBuffer → RtpPacket → JitterBuffer
unfolding place store
admit b p = elim b.next [
  | none ↦ store (record b { next = some p.sequence_number }) p
  | some next ↦ place b next p
]

unfoldable pub push : JitterBuffer → RtpPacket → JitterBuffer
unfolding check_ssrc admit
push b p = let (c, home) = check_ssrc b p in if home then admit c p else c

-- The loop of `_coalesced_gap`. The count starts at 1 and stays below the window, so `max_ahead`
-- rounds are enough.
unfoldable pub gap_scan : ℕ → JitterBuffer → ℕ → ℕ → ℕ → ℕ
gap_scan zero b expected scan gap = gap
gap_scan (suc rounds) b expected scan gap =
    let rest = gap_scan rounds b expected (seq_next scan) (gap + 1) in
    if not (contains scan b.packets) && ltb (ahead expected scan) b.max_ahead then rest else gap

unfoldable pub coalesced_gap : JitterBuffer → ℕ → ℕ
unfolding gap_scan
coalesced_gap b expected = gap_scan b.max_ahead b expected (seq_next expected) 1

-- `pop` after a packet was found at the anchor.
unfoldable pub emit : JitterBuffer → ℕ → JitterBuffer
emit b expected =
    let c = record b {
      packets = remove expected b.packets;
      emitted = true;
      next = some (seq_next expected);
    } in
    if c.adapt
    then (let run = c.clean_run + 1 in
        if leb shrink_after run && ltb c.floor c.depth
        then record c { depth = c.depth - 1; clean_run = 0 }
        else record c { clean_run = run })
    else c

unfoldable pub pop_at : JitterBuffer → ℕ → Option JitterOutput × JitterBuffer
unfolding emit coalesced_gap
pop_at b expected = elim (lookup expected b.packets) [
  | some p ↦ (some (packet p), emit b expected)
  | none ↦
      if leb b.depth (length b.packets)
      then (let gap = coalesced_gap b expected in
          (
            some (gone (record { sequence = expected; count = gap })),
            record b {
              emitted = true;
              clean_run = if b.adapt then 0 else b.clean_run;
              next = some ((expected + gap) % seq_mod);
            },
          ))
      else (none, b)
]

unfoldable pub pop : JitterBuffer → Option JitterOutput × JitterBuffer
unfolding pop_at
pop b = elim b.next [ none ↦ (none, b) | some expected ↦ pop_at b expected ]

unfoldable pub peek_at : JitterBuffer → ℕ → Option JitterOutput
unfolding coalesced_gap
peek_at b expected = elim (lookup expected b.packets) [
  | some p ↦ some (packet p)
  | none ↦
      if leb b.depth (length b.packets)
      then some (gone (record { sequence = expected; count = coalesced_gap b expected }))
      else none
]

unfoldable pub peek : JitterBuffer → Option JitterOutput
unfolding peek_at
peek b = elim b.next [ none ↦ none | some expected ↦ peek_at b expected ]

unfoldable pub peek_next : JitterBuffer → Option RtpPacket
peek_next b = elim b.next [ none ↦ none | some expected ↦ lookup expected b.packets ]

-- `sorted(packets, key=…)`: a stable insertion by the distance from the anchor.
unfoldable pub insert_by : ℕ → ℕ × RtpPacket → Dict RtpPacket → Dict RtpPacket
insert_by anchor e [] = e ∷ []
insert_by anchor e (f ∷ m) =
    if leb (ahead anchor e.0) (ahead anchor f.0) then e ∷ f ∷ m else f ∷ insert_by anchor e m

unfoldable pub sort_by : ℕ → Dict RtpPacket → Dict RtpPacket
unfolding insert_by
sort_by anchor [] = []
sort_by anchor (e ∷ m) = insert_by anchor e (sort_by anchor m)

abbrev pub last_seq : List RtpPacket → Option ℕ
last_seq [] = none
last_seq (p ∷ []) = some p.sequence_number
last_seq (p ∷ q ∷ ps) = last_seq (q ∷ ps)

unfoldable pub flush : JitterBuffer → List RtpPacket × JitterBuffer
unfolding sort_by
flush b = elim b.next [
  | none ↦ ([], b)
  | some anchor ↦
      let drained = map (λ e. e.1) (sort_by anchor b.packets) in
      let c = record b { packets = [] } in
      (
        drained,
        elim (last_seq drained) [
          | none ↦ c
          | some last ↦ record c {
            next = some (seq_next last);
            emitted = true;
            clean_run = if b.adapt then 0 else b.clean_run;
          }
        ],
      )
]
