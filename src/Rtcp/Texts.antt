-- ===== src/Rtcp/Texts.antt =====
-- UTF-8 as `bytes.decode("utf-8")` reads it, with an error where a byte does not fit.
use hermes_voip.Base.{
  ℕ, ◌+◌, ◌-◌, ◌*◌, ◌≡◌, refl, Bool, true, ◌&&◌, ◌||◌, ltb, leb, if◌then◌else◌, List, [], ◌∷◌, ◌++◌,
  Option, none, some, arith,
}
use hermes_voip.Base.Text.{Text}
use hermes_voip.Base.Percent.{Decoder, ready, pending, begin, utf8, IsAscii}

abbrev pub starts_character : ℕ → Bool
starts_character b = ltb b 128 || (leb 194 b && leb b 244)

-- A byte that does not fit is an error.
unfoldable pub strict_byte : Decoder → ℕ → Option (List ℕ × Decoder)
strict_byte ready b = if starts_character b then some (begin b) else none
strict_byte (pending n bits low high) b =
    if leb low b && leb b high
    then (if leb n 1
        then some ((bits * 64 + (b - 128)) ∷ [], ready)
        else some ([], pending (n - 1) (bits * 64 + (b - 128)) 128 191))
    else none

abbrev pub with_front : List ℕ → Option Text → Option Text
with_front front none = none
with_front front (some rest) = some (front ++ rest)

unfoldable pub decode_from : Decoder → List ℕ → Option Text
decode_from ready [] = some []
decode_from (pending n bits low high) [] = none
decode_from d (b ∷ bs) = elim (strict_byte d b) [
  | none ↦ none
  | some (front, next) ↦ with_front front (decode_from next bs)
]

unfoldable pub decode : List ℕ → Option Text
decode bytes = decode_from ready bytes

-- `str.encode("utf-8")`.
unfoldable pub encode : Text → List ℕ
encode [] = []
encode (c ∷ cs) = utf8 c ++ encode cs

-- An ASCII text is its own encoding.
pub encode-ascii : (s : Text) → IsAscii s → encode s ≡ s
unfolding encode utf8
encode-ascii [] h = refl
encode-ascii (c ∷ cs) h =
    let small : ltb c 128 ≡ true = ground arith in rw (small, encode-ascii cs (ground arith)) refl

pub decode-ascii : (s : Text) → IsAscii s → decode s ≡ some s
unfolding decode decode_from strict_byte
decode-ascii [] h = refl
decode-ascii (c ∷ cs) h =
    let small : ltb c 128 ≡ true = ground arith in
    let rest : decode_from ready cs ≡ some cs = decode-ascii cs (ground arith) in
    rw (decode_from, small, rest) refl
