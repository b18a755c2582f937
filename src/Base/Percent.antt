-- ===== src/Base/Percent.antt =====
-- `quote(…, safe="")` and `unquote` of Python's `urllib.parse`, with UTF-8 and its decoder that
-- replaces what is malformed by U+FFFD.
use hermes_voip.Base.Tests.{◌==◌, ltb, leb, if◌then◌else◌, Bool-cases}
use hermes_voip.Base.Text.{Text, any, all, is_digit}
use Prim.Native.Nat.{ℕ, ◌+◌, ◌-◌, ◌*◌, ◌/◌, ◌%◌, ◌<◌}
use mathlib.Core.Path.{◌≡◌, refl, ap, ◌∙◌}
use mathlib.Core.Logic.{inl, inr}
use mathlib.Core.Bool.{Bool, true, false, ◌&&◌, ◌||◌}
use mathlib.Core.Option.{Option, none, some}
use mathlib.Core.List.{List, [], ◌∷◌, ◌++◌, append-nil}
use native.Mathlib.Omega.{arith}

-- The bytes of a code point.
unfoldable pub utf8 : ℕ → List ℕ
utf8 c =
    if ltb c 128
    then c ∷ []
    else if ltb c 2048
    then (192 + c / 64) ∷ (128 + c % 64) ∷ []
    else if ltb c 65536
    then (224 + c / 4096) ∷ (128 + c / 64 % 64) ∷ (128 + c % 64) ∷ []
    else (240 + c / 262144) ∷ (128 + c / 4096 % 64) ∷ (128 + c / 64 % 64) ∷ (128 + c % 64) ∷ []

-- The characters that are never quoted.
abbrev pub is_unreserved : ℕ → Bool
is_unreserved c =
    is_digit c
    || ((leb 65 c && leb c 90)
        || ((leb 97 c && leb c 122) || (c == 95 || (c == 46 || (c == 45 || c == 126)))))

abbrev pub hex_digit : ℕ → ℕ
hex_digit v = if ltb v 10 then 48 + v else 55 + v

unfoldable pub quote_byte : ℕ → Text
quote_byte b = if is_unreserved b then b ∷ [] else 37 ∷ hex_digit (b / 16) ∷ hex_digit (b % 16) ∷ []

unfoldable pub quote_bytes : List ℕ → Text
quote_bytes [] = []
quote_bytes (b ∷ bs) = quote_byte b ++ quote_bytes bs

unfoldable pub quote : Text → Text
quote [] = []
quote (c ∷ cs) = quote_bytes (utf8 c) ++ quote cs

unfoldable pub hex_value : ℕ → Option ℕ
hex_value c =
    if is_digit c
    then some (c - 48)
    else if leb 65 c && leb c 70
    then some (c - 55)
    else if leb 97 c && leb c 102
    then some (c - 87)
    else none

-- What a text is made of for `unquote`: bytes, and characters that are not ASCII.
pub data Item : Type 0 where
  byte : ℕ → Item
  wide : ℕ → Item

abbrev pub plain_item : ℕ → Item
plain_item c = if ltb c 128 then byte c else wide c

abbrev pub hex_pair : ℕ → ℕ → Option ℕ
hex_pair a b = elim (hex_value a) [
  | none ↦ none
  | some high ↦ elim (hex_value b) [ none ↦ none | some low ↦ some (high * 16 + low) ]
]

-- `unquote_to_bytes` on the runs of ASCII characters.
unfoldable pub items : Text → List Item
items [] = []
items (c ∷ []) = plain_item c ∷ []
items (c ∷ d ∷ []) = plain_item c ∷ plain_item d ∷ []
items (c ∷ a ∷ b ∷ cs) =
    let behind = items cs in
    let next = items (a ∷ b ∷ cs) in
    if c == 37
    then elim (hex_pair a b) [ none ↦ plain_item c ∷ next | some v ↦ byte v ∷ behind ]
    else plain_item c ∷ next

-- The decoder between two bytes: none of a character, or so many bytes to come, the first of them
-- in a range, behind the bits that were read.
pub data Decoder : Type 0 where
  ready : Decoder
  pending : ℕ → ℕ → ℕ → ℕ → Decoder

abbrev pub replacement : ℕ
replacement = 65533

abbrev pub begin : ℕ → List ℕ × Decoder
begin b =
    if ltb b 128
    then (b ∷ [], ready)
    else if leb 194 b && leb b 223
    then ([], pending 1 (b - 192) 128 191)
    else if b == 224
    then ([], pending 2 0 160 191)
    else if b == 237
    then ([], pending 2 13 128 159)
    else if leb 225 b && leb b 239
    then ([], pending 2 (b - 224) 128 191)
    else if b == 240
    then ([], pending 3 0 144 191)
    else if leb 241 b && leb b 243
    then ([], pending 3 (b - 240) 128 191)
    else if b == 244
    then ([], pending 3 4 128 143)
    else (replacement ∷ [], ready)

unfoldable pub decode_byte : Decoder → ℕ → List ℕ × Decoder
decode_byte ready b = begin b
decode_byte (pending n bits low high) b =
    if leb low b && leb b high
    then (if leb n 1
        then ((bits * 64 + (b - 128)) ∷ [], ready)
        else ([], pending (n - 1) (bits * 64 + (b - 128)) 128 191))
    else (replacement ∷ (begin b).0, (begin b).1)

abbrev pub flush : Decoder → List ℕ
flush ready = []
flush (pending n bits low high) = replacement ∷ []

unfoldable pub decode_items : Decoder → List Item → Text
decode_items d [] = flush d
decode_items d (byte b ∷ rest) = (decode_byte d b).0 ++ decode_items (decode_byte d b).1 rest
decode_items d (wide c ∷ rest) = flush d ++ (c ∷ decode_items ready rest)

unfoldable pub unquote : Text → Text
unquote s = decode_items ready (items s)

items-plain : (c : ℕ) (cs : Text) → (c == 37) ≡ false → items (c ∷ cs) ≡ plain_item c ∷ items cs
unfolding items
items-plain c [] h = refl
items-plain c (d ∷ []) h = refl
items-plain c (d ∷ e ∷ cs) h = rw (items, h) refl

hex_value-hex_digit : (v : ℕ) → v < 16 → hex_value (hex_digit v) ≡ some v
unfolding hex_value
hex_value-hex_digit v h = ground arith

items-quoted :
    (b : ℕ) (cs : Text)
    → b < 256
    → items (37 ∷ hex_digit (b / 16) ∷ hex_digit (b % 16) ∷ cs) ≡ byte b ∷ items cs
unfolding items
items-quoted b cs h =
    let whole : b / 16 * 16 + b % 16 ≡ b = omega arith in
    rw
      (
        hex_value-hex_digit (b / 16) (omega arith),
        hex_value-hex_digit (b % 16) (omega arith),
        whole,
      )
      refl

items-quote_byte : (b : ℕ) (cs : Text) → b < 128 → items (quote_byte b ++ cs) ≡ byte b ∷ items cs
unfolding quote_byte
items-quote_byte b cs h = elim (Bool-cases (is_unreserved b)) [
  | inl kept ↦ rw kept (items-plain b cs (ground (arith, kept)) ∙ ground arith)
  | inr quoted ↦ rw quoted (items-quoted b cs (omega arith))
]

abbrev pub IsAscii : Text → Type 0
IsAscii s = any (λ (c : ℕ). leb 128 c) s ≡ false

quote-cons : (c : ℕ) (cs : Text) → c < 128 → quote (c ∷ cs) ≡ quote_byte c ++ quote cs
unfolding quote quote_bytes utf8
quote-cons c cs h =
    let small : ltb c 128 ≡ true = ground arith in rw (small, append-nil (quote_byte c)) refl

decode_items-ascii :
    (b : ℕ) (rest : List Item)
    → b < 128
    → decode_items ready (byte b ∷ rest) ≡ b ∷ decode_items ready rest
unfolding decode_items decode_byte
decode_items-ascii b rest h = let small : ltb b 128 ≡ true = ground arith in rw small refl

-- A quoted ASCII text is unquoted to itself.
pub unquote-quote : (s : Text) → IsAscii s → unquote (quote s) ≡ s
unfolding unquote
unquote-quote [] h = unfold decode_items items quote in refl
unquote-quote (c ∷ cs) h =
    let small : c < 128 = ground arith in
    ap (decode_items ready) (ap items (quote-cons c cs small) ∙ items-quote_byte c (quote cs) small)
    ∙ decode_items-ascii c (items (quote cs)) small
    ∙ ap (λ (t : Text). c ∷ t) (unquote-quote cs (ground arith))

-- The characters of a quoted ASCII text.
abbrev pub is_quoted_char : ℕ → Bool
is_quoted_char c = is_unreserved c || c == 37

all-append :
    (p : ℕ → Bool) (xs ys : Text) → all p xs ≡ true → all p ys ≡ true → all p (xs ++ ys) ≡ true
all-append p [] ys h k = k
all-append p (x ∷ xs) ys h k = ground (arith, all-append p xs ys)

quote_byte-plain : (b : ℕ) → b < 128 → all is_quoted_char (quote_byte b) ≡ true
unfolding quote_byte
quote_byte-plain b h = ground arith

pub quote-plain : (s : Text) → IsAscii s → all is_quoted_char (quote s) ≡ true
quote-plain [] h = unfold quote in refl
quote-plain (c ∷ cs) h = rw (quote-cons c cs (ground arith)) (
    all-append is_quoted_char (quote_byte c) (quote cs) (quote_byte-plain c (ground arith))
      (quote-plain cs (ground arith)))
