-- ===== src/Message/Parse/Lines.antt =====
-- src/hermes_voip/message.py: a text that is put together from lines is taken apart into them.
use hermes_voip.Base.{
  ℕ, ◌≡◌, ◌≢◌, refl, ◌∙◌, Bool, false, ◌==◌, List, [], ◌∷◌, ◌++◌, some, arith, All, append_assoc,
  append-nil, Option-cases, inl, inr,
}
use hermes_voip.Base.Text.{Text, any, partition}
use hermes_voip.Message.{crlf}
use hermes_voip.Message.Parse.{find_end, cut, split_lines}

-- A text in which no character is a carriage return.
abbrev pub has_return : Text → Bool
has_return s = any (λ (c : ℕ). c == 13) s

abbrev pub IsLine : Text → Type 0
IsLine s = has_return s ≡ false

-- A line of at least one character.
abbrev pub IsFilled : Text → Type 0
IsFilled [] = ⊥
IsFilled (c ∷ cs) = IsLine (c ∷ cs)

-- The lines with a line break in front of each.
abbrev pub broken : List Text → Text
broken [] = []
broken (l ∷ ls) = crlf ++ (l ++ broken ls)

split_lines-behind :
    (s t : Text)
    → IsLine s
    → split_lines (s ++ (13 ∷ 10 ∷ t)) ≡ (s, (split_lines t).0 ∷ (split_lines t).1)
unfolding split_lines
split_lines-behind [] t h = refl
split_lines-behind (c ∷ []) t h = ground arith
split_lines-behind (c ∷ d ∷ s) t h = ground (arith, split_lines-behind (d ∷ s) t)

split_lines-line : (s : Text) → IsLine s → split_lines s ≡ (s, [])
unfolding split_lines
split_lines-line [] h = refl
split_lines-line (c ∷ []) h = refl
split_lines-line (c ∷ d ∷ s) h = ground (arith, split_lines-line (d ∷ s))

-- Lines that are joined by line breaks are split into the same lines.
pub split_lines-broken :
    (l : Text) (ls : List Text) → IsLine l → All IsLine ls → split_lines (l ++ broken ls) ≡ (l, ls)
split_lines-broken l [] h hs = rw append-nil (split_lines-line l h)
split_lines-broken l (m ∷ ms) h hs =
    split_lines-behind l (m ++ broken ms) h ∙ rw (split_lines-broken m ms hs.0 hs.1) refl

pub find_end-line :
    (s t head body : Text)
    → IsLine s
    → find_end t ≡ some (head, body)
    → find_end (s ++ t) ≡ some (s ++ head, body)
unfolding find_end
find_end-line [] t head body h found = found
find_end-line (c ∷ s) t head body h found =
    rw (find_end-line s t head body (ground arith) found) (ground arith)

find_end-end : (body : Text) → find_end (crlf ++ (crlf ++ body)) ≡ some ([], body)
unfolding find_end
find_end-end body = refl

find_end-break :
    (c : ℕ) (t head body : Text)
    → c ≢ 13
    → find_end (c ∷ t) ≡ some (head, body)
    → find_end (13 ∷ 10 ∷ c ∷ t) ≡ some (13 ∷ 10 ∷ head, body)
find_end-break c t head body h found = unfold find_end in rw found (ground arith)

-- The head of a message ends at the first empty line.
pub find_end-broken :
    (l : Text) (ls : List Text) (body : Text)
    → IsLine l
    → All IsFilled ls
    → find_end (l ++ (broken ls ++ (crlf ++ (crlf ++ body)))) ≡ some (l ++ broken ls, body)
find_end-broken l [] body h hs =
    find_end-line l (crlf ++ (crlf ++ body)) [] body h (find_end-end body)
find_end-broken l ([] ∷ ms) body h hs = absurd hs.0
find_end-broken l ((c ∷ m) ∷ ms) body h hs =
    rw (append_assoc {A = ℕ} (c ∷ m) (broken ms) (crlf ++ (crlf ++ body))) (
      find_end-line l (13 ∷ 10 ∷ c ∷ (m ++ (broken ms ++ (crlf ++ (crlf ++ body)))))
        (crlf ++ (c ∷ (m ++ broken ms))) body h
        (find_end-break c (m ++ (broken ms ++ (crlf ++ (crlf ++ body)))) (c ∷ (m ++ broken ms)) body
          (ground (arith, hs.0)) (find_end-broken (c ∷ m) ms body hs.0 hs.1)))

pub cut-broken :
    (l : Text) (ls : List Text) (body : Text)
    → IsLine l
    → All IsFilled ls
    → cut (l ++ (broken ls ++ (crlf ++ (crlf ++ body)))) ≡ (l ++ broken ls, body)
unfolding cut
cut-broken l ls body h hs = rw (find_end-broken l ls body h hs, cut) refl

-- What stands in front of the first separator.
pub partition-first :
    (sep : ℕ) (s t : Text)
    → any (λ (c : ℕ). c == sep) s ≡ false
    → partition sep (s ++ sep ∷ t) ≡ some (s, t)
unfolding partition
partition-first sep [] t h = elim (Option-cases (partition sep t)) [
  | inl absent ↦ rw absent (ground arith)
  | inr (later, found) ↦ rw found (ground arith)
]
partition-first sep (c ∷ s) t h = rw (partition-first sep s t (ground arith)) (ground arith)
