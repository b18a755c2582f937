-- ===== src/Sdp/Crypto/RoundTrip.antt =====
-- src/hermes_voip/sdp.py: `CryptoAttribute.parse` on what `render` wrote, and the answer's attribute.
use hermes_voip.Base.{
  ℕ, suc, ◌+◌, ◌≤◌, ◌<◌, ◌^◌, ◌≡◌, refl, ap, ◌∙◌, subst, sym, Bool, true, false, ◌&&◌, leb, List,
  [], ◌∷◌, ◌++◌, length, some, ok, arith, Bool-cases, ==_iff, inl, inr, All, ◌⊎◌,
}
use hermes_voip.Base.Text.{Text, is_space, is_empty, any, show, decimal, same_text}
use hermes_voip.Base.Text.Decimal.{show-Digits, read-show, show-nonempty}
use hermes_voip.Base.Text.Laws.{
  show-lead, LeadsWith, length-show, Digits→all, Digits→solid, same_text→≡, split-whole,
}
use hermes_voip.Base.Base64.{b64encode, b64decode, b64decode-b64encode, b64encode-plain, IsByte}
use hermes_voip.Message.{parse_decimal}
use hermes_voip.Message.Parse.{starts_with}
use hermes_voip.Sdp.{words, push_word, split_words}
use hermes_voip.Sdp.Crypto.{
  CryptoAttribute, validate_crypto, parse_crypto, parse_fields, render_crypto, is_supported,
  suite_80, suite_32, has_leading_zero, key_text, inline_prefix, generate_answer_crypto,
}

any-cons :
    (p : ℕ → Bool) (c : ℕ) (w : Text) → any p (c ∷ w) ≡ false → (p c ≡ false) × (any p w ≡ false)
any-cons p c w h = elim (Bool-cases (p c)) [
  | inl yes_c ↦ absurd (ground (arith, yes_c))
  | inr no_c ↦ (no_c, ground (arith, no_c))
]

words-word :
    (w s : Text)
    → any is_space w ≡ false
    → words (w ++ (32 ∷ s)) ≡ (w, push_word (words s).0 (words s).1)
unfolding words
words-word [] s h = refl
words-word (c ∷ w) s h =
    let (solid, rest) = any-cons is_space c w h in rw (words-word w s rest, solid) refl

words-end : (w : Text) → any is_space w ≡ false → words w ≡ (w, [])
unfolding words
words-end [] h = refl
words-end (c ∷ w) h =
    let (solid, rest) = any-cons is_space c w h in rw (words-end w rest, solid) refl

-- A word in front of a space.
split_words-word :
    (w s : Text)
    → is_empty w ≡ false
    → any is_space w ≡ false
    → split_words (w ++ (32 ∷ s)) ≡ w ∷ split_words s
unfolding split_words
split_words-word w s full solid = rw (words-word w s solid, push_word, full) refl

split_words-end : (w : Text) → is_empty w ≡ false → any is_space w ≡ false → split_words w ≡ w ∷ []
unfolding split_words
split_words-end w full solid = rw (words-end w solid, push_word, full) refl

decimal-nonempty : (n : ℕ) → is_empty (decimal n) ≡ false
decimal-nonempty n =
    let e : n + 1 ≡ suc n = omega arith in
    subst (λ (k : ℕ). is_empty (show k n) ≡ false) (sym e) (show-nonempty n n)

parse_decimal-decimal : (n d : ℕ) → n < 10 ^ suc d → d < 4300 → parse_decimal (decimal n) ≡ some n
unfolding parse_decimal
parse_decimal-decimal n d small short =
    let fits : leb (length (decimal n)) 4300 ≡ true =
      within (length (decimal n)) (length-show (n + 1) n d small) in
    rw
      (
        decimal-nonempty n,
        Digits→all (decimal n) (show-Digits (n + 1) n),
        fits,
        read-show (n + 1) n (omega arith),
      )
      refl
  where
    within : (l : ℕ) → l ≤ suc d → leb l 4300 ≡ true
    within l h = ground arith

leading : (ds : Text) → LeadsWith (λ c. 48 < c) ds → has_leading_zero ds ≡ false
leading [] h = refl
leading (c ∷ []) h = refl
leading (c ∷ d ∷ ds) h = ground arith

-- What the validation asks of an attribute.
pub record IsValid (a : CryptoAttribute) : Type 0 where
  pub tag_range : (1 ≤ a.tag) × (a.tag ≤ 999999999)
  pub suite_known : (a.suite ≡ suite_80) ⊎ (a.suite ≡ suite_32)
  pub supported : is_supported a.suite ≡ true
  pub prefixed : starts_with inline_prefix a.key_params ≡ true

is_supported-cases :
    (suite : Text) → is_supported suite ≡ true → (suite ≡ suite_80) ⊎ (suite ≡ suite_32)
is_supported-cases suite h = elim (Bool-cases (same_text suite suite_80)) [
  | inl e ↦ inl (same_text→≡ suite suite_80 e)
  | inr e ↦ elim (Bool-cases (same_text suite suite_32)) [
    | inl f ↦ inr (same_text→≡ suite suite_32 f)
    | inr f ↦ absurd (ground (arith, e, f))
  ]
]

pub validate_crypto-IsValid :
    (a b : CryptoAttribute) → validate_crypto a ≡ ok b → IsValid a × (b ≡ a)
unfolding validate_crypto
validate_crypto-IsValid a b h = (
  record {
    tag_range = (ground arith, ground arith);
    suite_known = is_supported-cases a.suite (ground arith);
    supported = ground arith;
    prefixed = ground arith;
  },
  ground arith,
)

solid_suite :
    (a : CryptoAttribute) → IsValid a → (is_empty a.suite ≡ false) × (any is_space a.suite ≡ false)
solid_suite a v = elim v.suite_known [ inl e ↦ rw e (refl, refl) | inr e ↦ rw e (refl, refl) ]

key_nonempty : (key : Text) → starts_with inline_prefix key ≡ true → is_empty key ≡ false
key_nonempty [] h = cc
key_nonempty (c ∷ cs) h = refl

parse_fields-ok :
    (a : CryptoAttribute)
    → IsValid a
    → validate_crypto a ≡ ok a
    → parse_fields (decimal a.tag ∷ a.suite ∷ a.key_params ∷ []) ≡ ok a
unfolding parse_fields
parse_fields-ok a v valid =
    let lead = leading (decimal a.tag) (show-lead (a.tag + 1) a.tag (omega arith) (omega arith)) in
    rw (parse_decimal-decimal a.tag 8 (omega arith) (omega arith), lead) valid

-- The round trip of the attribute: what `render` writes of an attribute that passes the validation,
-- `parse` reads back as that attribute, if its key parameters have no white space.
pub parse_crypto-render_crypto :
    (a : CryptoAttribute)
    → validate_crypto a ≡ ok a
    → any is_space a.key_params ≡ false
    → parse_crypto (render_crypto a) ≡ ok a
unfolding parse_crypto render_crypto
parse_crypto-render_crypto a valid solid =
    let (v, _) = validate_crypto-IsValid a a valid in
    let (full, unbroken) = solid_suite a v in
    let tag_solid = Digits→solid (decimal a.tag) (show-Digits (a.tag + 1) a.tag) in
    let fields : split_words (decimal a.tag ++ (32 ∷ (a.suite ++ (32 ∷ a.key_params))))
        ≡ decimal a.tag ∷ a.suite ∷ a.key_params ∷ [] =
      split_words-word (decimal a.tag) _ (decimal-nonempty a.tag) tag_solid
      ∙ ap (λ t. decimal a.tag ∷ t)
          (split_words-word a.suite a.key_params full unbroken
            ∙ ap (λ t. a.suite ∷ t)
                (split_words-end a.key_params (key_nonempty a.key_params v.prefixed) solid)) in
    ap parse_fields fields ∙ parse_fields-ok a v valid

starts_with-append : (p s : Text) → starts_with p (p ++ s) ≡ true
starts_with-append [] s = refl
starts_with-append (c ∷ p) s = ground (arith, starts_with-append p s)

-- Another key for a valid attribute.
pub validate_crypto-rekeyed :
    (a : CryptoAttribute) (key : Text) (decoded : List ℕ)
    → IsValid a
    → starts_with inline_prefix key ≡ true
    → b64decode true (key_text key) ≡ some decoded
    → length decoded ≡ 30
    → validate_crypto (record a { key_params = key }) ≡ ok (record a { key_params = key })
unfolding validate_crypto
validate_crypto-rekeyed a key decoded v prefixed decodes thirty =
    rw
      (
        in_range a.tag v.tag_range.0 v.tag_range.1,
        v.supported,
        prefixed,
        decodes,
        (==_iff (length decoded) 30).1 thirty,
      )
      refl
  where
    in_range : (t : ℕ) → 1 ≤ t → t ≤ 999999999 → (leb 1 t && leb t 999999999) ≡ true
    in_range t p q = ground arith

-- The answer that is keyed with 30 random bytes is a valid attribute with the offer's tag and suite,
-- the peer reads it from the answer as it is, and both ends decode the 30 bytes from it.
pub generate_answer_crypto-keyed :
    (token : List ℕ) (accepted : CryptoAttribute)
    → length token ≡ 30
    → All IsByte token
    → validate_crypto accepted ≡ ok accepted
    → (answer : CryptoAttribute) × (generate_answer_crypto token accepted ≡ ok answer)
      × (answer.tag ≡ accepted.tag)
      × (answer.suite ≡ accepted.suite)
      × (answer.key_params ≡ inline_prefix ++ b64encode token)
      × (parse_crypto (render_crypto answer) ≡ ok answer)
      × (b64decode false (key_text answer.key_params) ≡ some token)
unfolding generate_answer_crypto
generate_answer_crypto-keyed token accepted thirty bytes valid =
    let answer : CryptoAttribute = record {
      tag = accepted.tag;
      suite = accepted.suite;
      key_params = inline_prefix ++ b64encode token;
    } in
    let key : key_text (inline_prefix ++ b64encode token) ≡ b64encode token =
      ap (λ (parts : Text × List Text). parts.0)
        (split-whole 124 (b64encode token) (b64encode-plain token).0) in
    let good : validate_crypto answer ≡ ok answer =
      validate_crypto-rekeyed accepted (inline_prefix ++ b64encode token) token
        (validate_crypto-IsValid accepted accepted valid).0
        (starts_with-append inline_prefix (b64encode token))
        (rw key (b64decode-b64encode true token bytes)) thirty in
    (
      answer,
      good,
      refl,
      refl,
      refl,
      parse_crypto-render_crypto answer good (b64encode-plain token).1,
      rw key (b64decode-b64encode false token bytes),
    )
