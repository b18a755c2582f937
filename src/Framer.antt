-- ===== src/Framer.antt =====
-- src/hermes_voip/transport/framing.py: `SipMessageFramer`, which cuts a byte stream into messages.
-- The codec of the standard library is the parameter `decode`. An exception leaves the buffer as it
-- is behind the keep-alives.
pub mod Drain
pub mod Refine
use hermes_voip.Base.{
  ℕ, zero, suc, ◌+◌, ◌*◌, Bool, true, false, not, ◌&&◌, ◌||◌, ◌==◌, ltb, leb, if◌then◌else◌, List,
  [], ◌∷◌, ◌++◌, length, take, drop, Option, none, some, Result, ok, err, guard, ◌>>=◌, ◌>>◌,
}
use hermes_voip.Base.Text.{Text, strip, lower, same_text, is_digit, is_empty, read, partition, all}
use hermes_voip.Message.{content_length}
use hermes_voip.Message.Parse.{ParseError, find_end, split_lines, unfold_lines, join}

pub data FramingError : Type 0 where
  head_too_long too_large nothing_to_continue duplicate_length non_numeric too_many_digits
        no_length :
      FramingError

abbrev pub max_head : ℕ
max_head = 64 * 1024

abbrev pub max_message : ℕ
max_message = 256 * 1024

-- `_CONTENT_LENGTH_NAMES`.
abbrev pub names_length : Text → Bool
names_length name = same_text (lower content_length) name || same_text (108 ∷ []) name

-- The value of a length: `int` refuses more than 4300 digits.
unfoldable pub length_value : Text → Result FramingError ℕ
length_value stripped = do
  guard (not (is_empty stripped) && all is_digit stripped) non_numeric
  guard (leb (length stripped) 4300) too_many_digits
  ok (read 0 stripped)

-- The loop over the unfolded lines, with what was found so far.
unfoldable pub scan_lengths : Option ℕ → List (List Text) → Result FramingError (Option ℕ)
scan_lengths found [] = ok found
scan_lengths found (parts ∷ others) =
    let rest = scan_lengths found others in
    elim (partition 58 (join parts)) [
      | none ↦ rest
      | some (name, value) ↦
          if names_length (lower (strip name))
          then elim found [
            | some _ ↦ err duplicate_length
            | none ↦ (do n ← length_value (strip value); scan_lengths (some n) others)
          ]
          else rest
    ]

abbrev pub as_framing :
    Result ParseError (List (List Text)) → Result FramingError (List (List Text))
as_framing (ok groups) = ok groups
as_framing (err e) = err nothing_to_continue

abbrev pub or_no_length : Option ℕ → Result FramingError ℕ
or_no_length none = err no_length
or_no_length (some n) = ok n

-- `_content_length`: the start line is skipped.
unfoldable pub declared_length : Text → Result FramingError ℕ
unfolding scan_lengths
declared_length head = do
  groups ← as_framing (unfold_lines (split_lines head).1)
  found ← scan_lengths none groups
  or_no_length found

-- `_skip_keepalive_crlf`.
unfoldable pub skip_keepalive : List ℕ → List ℕ
skip_keepalive [] = []
skip_keepalive (c ∷ []) = c ∷ []
skip_keepalive (c ∷ d ∷ cs) =
    let rest = skip_keepalive cs in if c == 13 && d == 10 then rest else c ∷ d ∷ cs

-- Why the iteration stops; `out_of_fuel` is the model's own.
pub data Stop : Type 0 where
  waiting out_of_fuel : Stop
  failed : FramingError → Stop

pub record Drained : Type 0 where
  pub messages : List (List ℕ)
  pub stop : Stop
  pub buffer : List ℕ

-- Messages in front of what an iteration gives.
abbrev pub prepend : List (List ℕ) → Drained → Drained
prepend ms d = record { messages = ms ++ d.messages; stop = d.stop; buffer = d.buffer }

module _ (decode : List ℕ → Text) where
  -- `_next_message` on a buffer that starts with no keep-alive: the message, if there is one, and the
  -- buffer behind the call.
  unfoldable pub next_at : List ℕ → Result FramingError (Option (List ℕ)) × List ℕ
  next_at buffer = elim (find_end buffer) [
    | none ↦ (if ltb max_head (length buffer) then err head_too_long else ok none, buffer)
    | some (head, _) ↦ elim (declared_length (decode head)) [
      | err e ↦ (err e, buffer)
      | ok n ↦
          let body_end = length head + 4 + n in
          if ltb max_message body_end
          then (err too_large, buffer)
          else if ltb (length buffer) body_end
          then (ok none, buffer)
          else (ok (some (take body_end buffer)), drop body_end buffer)
    ]
  ]

  unfoldable pub next_message : List ℕ → Result FramingError (Option (List ℕ)) × List ℕ
  unfolding next_at
  next_message buffer = next_at (skip_keepalive buffer)

  -- `__iter__`, run to its end.
  unfoldable pub drain : ℕ → List ℕ → Drained
  drain zero buffer = record { messages = []; stop = out_of_fuel; buffer = buffer }
  drain (suc fuel) buffer =
      let step = next_message buffer in
      let rest = drain fuel step.1 in
      elim step.0 [
        | err e ↦ record { messages = []; stop = failed e; buffer = step.1 }
        | ok none ↦ record { messages = []; stop = waiting; buffer = step.1 }
        | ok (some m) ↦ prepend (m ∷ []) rest
      ]

  -- A message is at least four bytes long, so this fuel is enough.
  unfoldable pub frames : List ℕ → Drained
  frames buffer = drain (length buffer + 1) buffer

  -- What a reader gets that feeds each chunk and iterates; it stops at the first failure.
  unfoldable pub run : List ℕ → List (List ℕ) → Drained
  run buffer [] = record { messages = []; stop = waiting; buffer = buffer }
  run buffer (chunk ∷ chunks) =
      let now = frames (buffer ++ chunk) in
      let later = prepend now.messages (run now.buffer chunks) in
      elim now.stop [ waiting ↦ later | out_of_fuel ↦ now | failed e ↦ now ]
