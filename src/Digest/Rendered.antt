-- ===== src/Digest/Rendered.antt =====
-- src/hermes_voip/digest.py: the parameters of an answer, as `_PARAM` finds them.
use hermes_voip.Base.{
  All, map, ◌⊎◌, ℕ, zero, suc, ◌≤◌, ◌≡◌, refl, sym, ap, ◌∙◌, Bool, true, false, ◌||◌, ◌==◌, List,
  [], ◌∷◌, ◌++◌, append_assoc, append-nil, length, length-append, none, some, Bool-cases, ok, err,
  arith, inl, inr, Result, Result-cases,
}
use hermes_voip.Base.Text.{Text, all, any, lower}
use hermes_voip.Message.{is_control}
use hermes_voip.Digest.{
  param_behind, DigestError, control_character, quoted, escape, param_value, find_params,
  param_here, render, render_one, is_bare,
}
use hermes_voip.Digest.Answer.{
  stops, span-append, param_value-escape, is_bare_value, param_value-bare,
}

abbrev pub Param : Type 0
Param = Text × Text × Bool

abbrev ok_text : Text → Result DigestError Text
ok_text t = ok t

ok-injective : {a b : Text} → ok_text a ≡ ok_text b → a ≡ b
ok-injective e = cc

quoted-cases : (v : Text) → (quoted v ≡ ok (escape v)) ⊎ (quoted v ≡ err control_character)
unfolding quoted
quoted-cases v = elim (Bool-cases (any is_control v)) [
  | inl dirty ↦ inr (rw (quoted, dirty) refl)
  | inr clean ↦ inl (rw (quoted, clean) refl)
]

-- What is written of a parameter: its name, and a text that is read as its value.
render_one-parts :
    (name value : Text) (flag : Bool) (t : Text)
    → (flag || is_bare_value value) ≡ true
    → render_one name value flag ≡ ok t
    → (body : Text) × (t ≡ name ++ (61 ∷ body))
      × ((rest : Text)
          → stops is_bare rest ≡ true
          → param_value (body ++ rest) ≡ some (value, rest))
unfolding render_one
render_one-parts name value true t b e = elim (quoted-cases value) [
  | inr dirty ↦ absurd (ground (arith, rw dirty at e))
  | inl clean ↦
      let written : ok (name ++ (61 ∷ 34 ∷ (escape value ++ 34 ∷ []))) ≡ ok t = rw clean at e in
      (
        34 ∷ (escape value ++ 34 ∷ []),
        cc,
        (λ rest s. rw (append_assoc (escape value) (34 ∷ []) rest) (param_value-escape value rest)),
      )
]
render_one-parts name value false t b e = (value, cc, (λ rest s. param_value-bare value rest b s))

param_behind-value :
    (name body value rest : Text)
    → lower name ≡ name
    → param_value body ≡ some (value, rest)
    → param_behind name (61 ∷ body) ≡ some ((name, value), rest)
unfolding param_behind
param_behind-value name body value rest l e =
    rw (param_behind, e) (ap (λ (n : Text). some ((n, value), rest)) l)

module _ (is_word : ℕ → Bool) where
  abbrev pub is_name_char : ℕ → Bool
  is_name_char c = is_word c || c == 45

  -- A name that `_PARAM` finds whole, in lower case.
  abbrev pub IsName : Text → Type 0
  IsName [] = ⊥
  IsName (c ∷ cs) =
      (is_word c ≡ true) × (all is_name_char (c ∷ cs) ≡ true) × (lower (c ∷ cs) ≡ c ∷ cs)

  abbrev pub IsParam : Param → Type 0
  IsParam (name, value, flag) = IsName name × ((flag || is_bare_value value) ≡ true)

  abbrev pub pair_of : Param → Text × Text
  pair_of (name, value, flag) = (name, value)

module _ (is_word : ℕ → Bool) (equals_sign : is_word 61 ≡ false) (comma : is_word 44 ≡ false)
    (blank : is_word 32 ≡ false) where
  param_here-skip : (c : ℕ) (cs : Text) → is_word c ≡ false → param_here is_word (c ∷ cs) ≡ none
  unfolding param_here
  param_here-skip c cs h = rw (param_here, h) refl

  param_here-name :
      (name body value rest : Text)
      → IsName is_word name
      → param_value body ≡ some (value, rest)
      → param_here is_word (name ++ (61 ∷ body)) ≡ some ((name, value), rest)
  unfolding param_here
  param_here-name [] body value rest n e = absurd n
  param_here-name (c ∷ cs) body value rest (w, a, l) e =
      rw
        (
          param_here,
          w,
          span-append (is_name_char is_word) (c ∷ cs) (61 ∷ body) a (rw equals_sign refl),
        )
        (param_behind-value (c ∷ cs) body value rest l e)

  pub find_params-skip :
      (fuel c : ℕ) (cs : Text)
      → is_word c ≡ false
      → find_params is_word (suc fuel) (c ∷ cs) ≡ find_params is_word fuel cs
  unfolding find_params
  find_params-skip fuel c cs h = rw (find_params, param_here-skip c cs h) refl

  find_params-name :
      (fuel : ℕ) (name body value rest : Text)
      → IsName is_word name
      → param_value body ≡ some (value, rest)
      → find_params is_word (suc fuel) (name ++ (61 ∷ body))
        ≡ (name, value) ∷ find_params is_word fuel rest
  unfolding find_params
  find_params-name fuel [] body value rest n e = absurd n
  find_params-name fuel (c ∷ cs) body value rest n e =
      rw (find_params, param_here-name (c ∷ cs) body value rest n e) refl

  -- A parameter that another one follows behind a comma.
  find_params-entry :
      (fuel : ℕ) (name body value more : Text)
      → IsName is_word name
      → param_value (body ++ (44 ∷ 32 ∷ more)) ≡ some (value, 44 ∷ 32 ∷ more)
      → length (name ++ (61 ∷ (body ++ (44 ∷ 32 ∷ more)))) ≤ fuel
      → (f : ℕ) × (length more ≤ f)
        × (find_params is_word fuel (name ++ (61 ∷ (body ++ (44 ∷ 32 ∷ more))))
            ≡ (name, value) ∷ find_params is_word f more)
  find_params-entry fuel [] body value more n e h = absurd n
  find_params-entry (suc (suc (suc f))) (c ∷ cs) body value more n e h = (
    f,
    omega (
      arith,
      h,
      length-append cs (61 ∷ (body ++ (44 ∷ 32 ∷ more))),
      length-append body (44 ∷ 32 ∷ more),
    ),
    find_params-name (suc (suc f)) (c ∷ cs) (body ++ (44 ∷ 32 ∷ more)) value (44 ∷ 32 ∷ more) n e
        ∙ ap (λ (ps : List (Text × Text)). (c ∷ cs, value) ∷ ps)
            (find_params-skip (suc f) 44 (32 ∷ more) comma ∙ find_params-skip f 32 more blank),
  )
  find_params-entry fuel (c ∷ cs) body value more n e h = absurd (
      omega (
        arith,
        h,
        length-append cs (61 ∷ (body ++ (44 ∷ 32 ∷ more))),
        length-append body (44 ∷ 32 ∷ more),
      ))

  find_params-nil : (fuel : ℕ) → find_params is_word fuel [] ≡ []
  unfolding find_params
  find_params-nil zero = refl
  find_params-nil (suc fuel) = refl

  find_params-single :
      (fuel : ℕ) (name body value : Text)
      → IsName is_word name
      → param_value (body ++ []) ≡ some (value, [])
      → length (name ++ (61 ∷ body)) ≤ fuel
      → find_params is_word fuel (name ++ (61 ∷ body)) ≡ (name, value) ∷ []
  find_params-single fuel [] body value n e h = absurd n
  find_params-single zero (c ∷ cs) body value n e h = absurd (omega (arith, h))
  find_params-single (suc f) (c ∷ cs) body value n e h =
      find_params-name f (c ∷ cs) body value [] n (rw (append-nil body) at e)
      ∙ ap (λ (ps : List (Text × Text)). (c ∷ cs, value) ∷ ps) (find_params-nil f)

  -- The parameters that are written are found again, in their order.
  pub find_params-render :
      (ps : List Param) (text : Text) (fuel : ℕ)
      → All (IsParam is_word) ps
      → render ps ≡ ok text
      → length text ≤ fuel
      → find_params is_word fuel text ≡ map (pair_of is_word) ps
  unfolding render
  find_params-render [] text fuel a e h =
      let empty : text ≡ [] = cc in rw empty (find_params-nil fuel)
  find_params-render ((name, value, flag) ∷ []) text fuel ((n, b), a) e h =
      let (body, shape, reads) = render_one-parts name value flag text b e in
      rw shape (find_params-single fuel name body value n (reads [] refl) (rw shape at h))
  find_params-render ((name, value, flag) ∷ p ∷ ps) text fuel ((n, b), a) e h =
      elim (Result-cases (render_one name value flag)) [
        | inr (x, bad) ↦ absurd (ground (arith, rw bad at e))
        | inl (first, good) ↦ elim (Result-cases (render (p ∷ ps))) [
          | inr (x, bad) ↦ absurd (ground (arith, rw (good, bad) at e))
          | inl (others, rendered) ↦
              let (body, shape, reads) = render_one-parts name value flag first b good in
              let whole : text ≡ name ++ (61 ∷ (body ++ (44 ∷ 32 ∷ others))) =
                ok-injective (sym (rw (good, rendered) at e))
                ∙ ap (λ (s : Text). s ++ (44 ∷ 32 ∷ others)) shape
                ∙ append_assoc name (61 ∷ body) (44 ∷ 32 ∷ others) in
              let (f, room, found) =
                find_params-entry fuel name body value others n (reads (44 ∷ 32 ∷ others) refl)
                  (rw whole at h) in
              rw whole (
                found
                ∙ ap (λ (qs : List (Text × Text)). (name, value) ∷ qs)
                    (find_params-render (p ∷ ps) others f a rendered room))
        ]
      ]
