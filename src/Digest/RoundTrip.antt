-- ===== src/Digest/RoundTrip.antt =====
-- src/hermes_voip/digest.py: an answer, read as a header of the same syntax.
use hermes_voip.Base.{
  ℕ, zero, suc, ◌+◌, ◌<◌, ◌≡◌, refl, ap, ◌∙◌, Bool, true, false, not, ◌&&◌, ◌||◌, ◌==◌, leb, List,
  [], ◌∷◌, ◌++◌, map, length, Option, none, some, Option-cases, Bool-cases, ok, arith, inl, inr,
  Result-cases, All, if◌then◌else◌,
}
use hermes_voip.Base.Text.{Text, all, lower, lower_char, strip, split, is_empty, is_digit}
use hermes_voip.Digest.{
  DigestError, DigestChallenge, DigestCredentials, rank_of, render, answer_params, response_params,
  build_authorization, find_params, param_here, param_behind, parse_challenge, challenge_of, param,
  filled, missing_nonce, missing_realm, opaque_param, hex, has_token, auth,
}
use hermes_voip.Digest.Answer.{span-append}
use hermes_voip.Digest.Plain.{
  plain-is_bare_value, hex-is_plain, hex-filled, algorithm-is_bare_value,
}
use hermes_voip.Digest.Rendered.{
  Param, pair_of, is_name_char, IsName, IsParam, find_params-render, find_params-skip,
}

-- `\w` on ASCII.
abbrev pub is_ascii_word : ℕ → Bool
is_ascii_word c = is_digit c || ((leb 65 c && leb c 90) || ((leb 97 c && leb c 122) || c == 95))

abbrev pub ReadsAscii : (ℕ → Bool) → Type 0
ReadsAscii is_word = (c : ℕ) → c < 128 → is_word c ≡ is_ascii_word c

build_authorization-parts :
    (md5_hex sha256_hex : Text → Text) (ch : DigestChallenge) (credentials : DigestCredentials)
    (method uri cnonce : Text) (nc : ℕ) (text : Text)
    → build_authorization md5_hex sha256_hex ch credentials method uri cnonce nc ≡ ok text
    → (s : ℕ) × (rank_of ch ≡ some s)
      × (inner : Text) × (render
            (answer_params md5_hex sha256_hex ch credentials method uri cnonce nc)
          ≡ ok inner)
      × (text ≡ (68 ∷ 105 ∷ 103 ∷ 101 ∷ 115 ∷ 116 ∷ []) ++ (32 ∷ inner))
unfolding build_authorization
build_authorization-parts md5_hex sha256_hex ch credentials method uri cnonce nc text e =
    elim (Result-cases
      (render (answer_params md5_hex sha256_hex ch credentials method uri cnonce nc))) [
        | inl (inner, good) ↦ elim (Option-cases (rank_of ch)) [
          | inl none_known ↦ absurd (ground (arith, none_known))
          | inr (s, known) ↦ (s, known, inner, good, ground (arith, known))
        ]
        | inr (x, bad) ↦ absurd (ground arith)
      ]

module _ (is_word : ℕ → Bool) (ascii : ReadsAscii is_word) where
  abbrev is_ascii_letter : ℕ → Bool
  is_ascii_letter c = (leb 65 c && leb c 90) || (leb 97 c && leb c 122)

  abbrev is_small : ℕ → Bool
  is_small c = leb 97 c && leb c 122

  ascii_chars : (cs : Text) → all is_ascii_letter cs ≡ true → all (is_name_char is_word) cs ≡ true
  ascii_chars [] h = refl
  ascii_chars (c ∷ cs) h =
      let word : is_word c ≡ true = ascii c (ground arith) ∙ ground arith in
      let rest = ascii_chars cs (ground arith) in ground (arith, word, rest)

  small_chars :
      (cs : Text)
      → all is_small cs ≡ true
      → (all (is_name_char is_word) cs ≡ true) × (lower cs ≡ cs)
  small_chars [] h = (refl, refl)
  small_chars (c ∷ cs) h =
      let (names, low) = small_chars cs (ground arith) in
      let word : is_word c ≡ true = ascii c (ground arith) ∙ ground arith in
      (
        ground (arith, word, names),
        (let same : lower_char c ≡ c = ground arith in
            ap (λ (d : ℕ). d ∷ lower cs) same ∙ ap (λ (t : Text). c ∷ t) low),
      )

  small-IsName :
      (name : Text) → (not (is_empty name) && all is_small name) ≡ true → IsName is_word name
  small-IsName [] h = absurd (ground arith)
  small-IsName (c ∷ cs) h =
      let word : is_word c ≡ true = ascii c (ground arith) ∙ ground arith in
      let (names, low) = small_chars (c ∷ cs) (ground arith) in (word, names, low)

  Params-append :
      (ps qs : List Param)
      → All (IsParam is_word) ps
      → All (IsParam is_word) qs
      → All (IsParam is_word) (ps ++ qs)
  Params-append [] qs h k = k
  Params-append ((n, v, flag) ∷ ps) qs (p, h) k = (p, Params-append ps qs h k)

  opaque_param-IsParam : (o : Option Text) → All (IsParam is_word) (opaque_param o)
  opaque_param-IsParam none = tt
  opaque_param-IsParam (some text) =
      ((small-IsName (111 ∷ 112 ∷ 97 ∷ 113 ∷ 117 ∷ 101 ∷ []) refl, refl), tt)

  response_params-IsParam :
      (md5_hex sha256_hex : Text → Text) (ch : DigestChallenge) (credentials : DigestCredentials)
      (method uri cnonce : Text) (nc : ℕ)
      → All
          (IsParam is_word)
          (response_params md5_hex sha256_hex ch credentials method uri cnonce nc)
  unfolding response_params
  response_params-IsParam md5_hex sha256_hex ch credentials method uri cnonce nc =
      let response = small-IsName (114 ∷ 101 ∷ 115 ∷ 112 ∷ 111 ∷ 110 ∷ 115 ∷ 101 ∷ []) refl in
      elim (Bool-cases (has_token auth ch.qop)) [
        | inr legacy ↦ rw legacy ((response, refl), tt)
        | inl use_auth ↦ rw use_auth (
          (small-IsName (113 ∷ 111 ∷ 112 ∷ []) refl, refl),
          (
            (
              small-IsName (110 ∷ 99 ∷ []) refl,
              plain-is_bare_value (hex 8 nc) (hex-filled 7 nc) (hex-is_plain 8 nc),
            ),
            (
              (small-IsName (99 ∷ 110 ∷ 111 ∷ 110 ∷ 99 ∷ 101 ∷ []) refl, refl),
              ((response, refl), tt),
            ),
          ),
        )
      ]

  -- The parameters of an answer to a challenge whose algorithm is supported.
  answer_params-IsParam :
      (md5_hex sha256_hex : Text → Text) (ch : DigestChallenge) (credentials : DigestCredentials)
      (method uri cnonce : Text) (nc s : ℕ)
      → rank_of ch ≡ some s
      → All (IsParam is_word) (answer_params md5_hex sha256_hex ch credentials method uri cnonce nc)
  unfolding answer_params
  answer_params-IsParam md5_hex sha256_hex ch credentials method uri cnonce nc s known = (
    (small-IsName (117 ∷ 115 ∷ 101 ∷ 114 ∷ 110 ∷ 97 ∷ 109 ∷ 101 ∷ []) refl, refl),
    (
      (small-IsName (114 ∷ 101 ∷ 97 ∷ 108 ∷ 109 ∷ []) refl, refl),
      (
        (small-IsName (110 ∷ 111 ∷ 110 ∷ 99 ∷ 101 ∷ []) refl, refl),
        (
          (small-IsName (117 ∷ 114 ∷ 105 ∷ []) refl, refl),
          (
            (
              small-IsName (97 ∷ 108 ∷ 103 ∷ 111 ∷ 114 ∷ 105 ∷ 116 ∷ 104 ∷ 109 ∷ []) refl,
              algorithm-is_bare_value ch.algorithm s known,
            ),
            Params-append (response_params md5_hex sha256_hex ch credentials method uri cnonce nc)
                (opaque_param ch.opaque)
                (response_params-IsParam md5_hex sha256_hex ch credentials method uri cnonce nc)
                (opaque_param-IsParam ch.opaque),
          ),
        ),
      ),
    ),
  )

  param_behind-blank : (name t : Text) → param_behind name (32 ∷ t) ≡ none
  unfolding param_behind
  param_behind-blank name t = refl

  param_here-word :
      (c : ℕ) (cs t : Text)
      → all (is_name_char is_word) (c ∷ cs) ≡ true
      → param_here is_word (c ∷ (cs ++ (32 ∷ t))) ≡ none
  unfolding param_here
  param_here-word c cs t h =
      let blank : is_word 32 ≡ false = ascii 32 (omega arith) in
      elim (Bool-cases (is_word c)) [
        | inr other ↦ rw (param_here, other) refl
        | inl word ↦
            rw
              (
                param_here,
                word,
                span-append (is_name_char is_word) (c ∷ cs) (32 ∷ t) h (rw blank refl),
              )
              (param_behind-blank (c ∷ cs) t)
      ]

  find_params-word :
      (w t : Text) (f g : ℕ)
      → f ≡ length w + g
      → all (is_name_char is_word) w ≡ true
      → find_params is_word f (w ++ (32 ∷ t)) ≡ find_params is_word g (32 ∷ t)
  unfolding find_params
  find_params-word [] t f g e h = ap (λ (n : ℕ). find_params is_word n (32 ∷ t)) (omega (arith, e))
  find_params-word (c ∷ cs) t zero g e h = absurd (omega (arith, e))
  find_params-word (c ∷ cs) t (suc f) g e h =
      rw (find_params, param_here-word c cs t h)
        (find_params-word cs t f g (omega (arith, e)) (ground (arith, h)))

  find_params-digest :
      (inner : Text)
      → find_params is_word
          (length (68 ∷ 105 ∷ 103 ∷ 101 ∷ 115 ∷ 116 ∷ [] ++ (32 ∷ inner)))
          (68 ∷ 105 ∷ 103 ∷ 101 ∷ 115 ∷ 116 ∷ [] ++ (32 ∷ inner))
        ≡ find_params is_word (length inner) inner
  find_params-digest inner =
      let blank : is_word 32 ≡ false = ascii 32 (omega arith) in
      find_params-word (68 ∷ 105 ∷ 103 ∷ 101 ∷ 115 ∷ 116 ∷ []) inner
        (length (68 ∷ 105 ∷ 103 ∷ 101 ∷ 115 ∷ 116 ∷ [] ++ (32 ∷ inner))) (suc (length inner))
        (omega arith) (ascii_chars (68 ∷ 105 ∷ 103 ∷ 101 ∷ 115 ∷ 116 ∷ []) refl)
      ∙ find_params-skip is_word (ascii 61 (omega arith)) (ascii 44 (omega arith)) blank
          (length inner) 32 inner blank

filled-some : (s : Text) (e : DigestError) → is_empty s ≡ false → filled (some s) e ≡ ok s
filled-some [] e h = absurd (ground arith)
filled-some (c ∷ cs) e h = refl

-- What a challenge says that has the realm, the nonce, the algorithm and the opaque value of another
-- and asks for no more than authentication.
abbrev pub echo : DigestChallenge → DigestChallenge
echo ch = record ch { qop = if has_token auth ch.qop then auth ∷ [] else [] }

challenge_of-answer_params :
    (is_word : ℕ → Bool) (md5_hex sha256_hex : Text → Text) (ch : DigestChallenge)
    (credentials : DigestCredentials) (method uri cnonce : Text) (nc : ℕ)
    → is_empty ch.realm ≡ false
    → is_empty ch.nonce ≡ false
    → challenge_of (
        map
          (pair_of is_word)
          (answer_params md5_hex sha256_hex ch credentials method uri cnonce nc))
      ≡ ok (echo ch)
unfolding challenge_of answer_params response_params param strip split
challenge_of-answer_params is_word md5_hex sha256_hex ch credentials method uri cnonce nc r n =
    elim (Bool-cases (has_token auth ch.qop)) [
      | inl use_auth ↦ elim (Option-cases ch.opaque) [
        | inl closed ↦
            rw
              (
                use_auth,
                closed,
                filled-some ch.nonce missing_nonce n,
                filled-some ch.realm missing_realm r,
              )
              refl
        | inr (text, opaque) ↦
            rw
              (
                use_auth,
                opaque,
                filled-some ch.nonce missing_nonce n,
                filled-some ch.realm missing_realm r,
              )
              refl
      ]
      | inr legacy ↦ elim (Option-cases ch.opaque) [
        | inl closed ↦
            rw
              (
                legacy,
                closed,
                filled-some ch.nonce missing_nonce n,
                filled-some ch.realm missing_realm r,
              )
              refl
        | inr (text, opaque) ↦
            rw
              (
                legacy,
                opaque,
                filled-some ch.nonce missing_nonce n,
                filled-some ch.realm missing_realm r,
              )
              refl
      ]
    ]

-- An answer that is built to a challenge with a realm and a nonce is read, by the parser of
-- challenges, as one that has the challenge's realm, nonce, algorithm and opaque value, whatever
-- characters stand in these and in the name of the user, and whatever the hashes give. The word
-- characters of the expression are those of ASCII below 128.
pub parse_challenge-build_authorization :
    (is_word : ℕ → Bool) (md5_hex sha256_hex : Text → Text) (ch : DigestChallenge)
    (credentials : DigestCredentials) (method uri cnonce : Text) (nc : ℕ) (text : Text)
    → ReadsAscii is_word
    → is_empty ch.realm ≡ false
    → is_empty ch.nonce ≡ false
    → build_authorization md5_hex sha256_hex ch credentials method uri cnonce nc ≡ ok text
    → parse_challenge is_word text ≡ ok (echo ch)
unfolding parse_challenge
parse_challenge-build_authorization is_word md5_hex sha256_hex ch credentials method uri cnonce nc
      text ascii r n e =
    let (s, known, inner, good, shape) =
      build_authorization-parts md5_hex sha256_hex ch credentials method uri cnonce nc text e in
    let ps = answer_params md5_hex sha256_hex ch credentials method uri cnonce nc in
    let params =
      answer_params-IsParam is_word ascii md5_hex sha256_hex ch credentials method uri cnonce nc s
        known in
    rw shape (
      ap (λ (qs : List (Text × Text)). challenge_of qs)
        (find_params-digest is_word ascii inner
          ∙ find_params-render is_word (ascii 61 (omega arith)) (ascii 44 (omega arith))
              (ascii 32 (omega arith)) ps inner (length inner) params good (omega arith))
      ∙ challenge_of-answer_params is_word md5_hex sha256_hex ch credentials method uri cnonce nc r
          n)
