-- ===== src/Registration/Steps.antt =====
-- src/hermes_voip/registration.py: what the handling of a response can do, as a relation.
use hermes_voip.Base.{
  ℕ, ◌≤◌, ◌<◌, ◌≡◌, refl, sym, ap, subst, ◌∙◌, Bool, true, false, ◌||◌, ltb→lt, ◌&&◌, ◌==◌, ltb,
  leb, List, [], ◌∷◌, Option, none, some, Option-cases, Bool-cases, Result, Result-cases, ok, err,
  arith, inl, inr,
}
use hermes_voip.Base.Text.{Text}
use hermes_voip.Message.Parse.{SipResponse}
use hermes_voip.Registration.Flow.{
  RegistrationFlow, Transaction, Outcome, challenged, retry, registered, failed, FlowError,
  no_outstanding, begin_with, next_request, build, finish, check_cseq, retry_expires, handle_brief,
  handle_success, handle_challenge, handle, handle_at, answer, auth_names, granted_expires,
  removed_text, or_zero,
}

-- The requests that an outcome has.
abbrev pub requests : Result FlowError Outcome → List Text
requests (ok (challenged text)) = text ∷ []
requests (ok (retry text)) = text ∷ []
requests _ = []

-- A flow, what it is behind a response, and the outcome.
pub data Handled (f : RegistrationFlow) : RegistrationFlow → Result FlowError Outcome → Type 0 where
  ignored : (e : FlowError) → Handled f f (err e)
  ended :
      (g : RegistrationFlow) (status : ℕ) (reason : Text)
      → g.txn ≡ none
      → f.cseq ≤ g.cseq
      → Handled f g (ok (failed status reason))
  granted :
      (t : Transaction) (e : ℕ)
      → f.txn ≡ some t
      → 0 < t.requested_expires
      → 0 < e
      → Handled f (record f { txn = none; is_registered = true }) (ok (registered e))
  unbound :
      (t : Transaction) (e : ℕ)
      → f.txn ≡ some t
      → t.requested_expires ≡ 0
      → Handled f (record f { txn = none; is_registered = false }) (ok (registered e))
  answered :
      (t : Transaction) (auth : Text × Text) (branch text : Text)
      → f.txn ≡ some t
      → t.challenged ≡ false
      → build (next_request f t.requested_expires true) t.requested_expires (some auth) branch
        ≡ ok text
      → Handled f (next_request f t.requested_expires true) (ok (challenged text))
  retried :
      (t : Transaction) (m : ℕ) (branch text : Text)
      → f.txn ≡ some t
      → f.interval_retried ≡ false
      → t.requested_expires < m
      → 0 < t.requested_expires
      → build (next_request (record f { interval_retried = true }) m false) m none branch ≡ ok text
      → Handled f (next_request (record f { interval_retried = true }) m false) (ok (retry text))
  unwritten :
      (t : Transaction) (m : ℕ) (e : FlowError)
      → f.txn ≡ some t
      → f.interval_retried ≡ false
      → 0 < t.requested_expires
      → Handled f (next_request (record f { interval_retried = true }) m false) (err e)

-- A pair of a flow and an outcome that the relation allows.
abbrev pub IsHandled : RegistrationFlow → RegistrationFlow × Result FlowError Outcome → Type 0
IsHandled f (g, r) = Handled f g r

retry_expires-some :
    (f : RegistrationFlow) (response : SipResponse) (t : Transaction) (m : ℕ)
    → retry_expires f response t ≡ some m
    → (f.interval_retried ≡ false) × (t.requested_expires < m) × (0 < t.requested_expires)
unfolding retry_expires
retry_expires-some f response t m h = ground arith

handle_brief-IsHandled :
    (f : RegistrationFlow) (response : SipResponse) (t : Transaction) (branch : Text)
    → f.txn ≡ some t
    → IsHandled f (handle_brief f response t branch)
unfolding handle_brief begin_with
handle_brief-IsHandled f response t branch o = elim (Option-cases (retry_expires f response t)) [
  | inl stops ↦
      rw (handle_brief, stops)
        (ended (finish f) response.status_code response.reason refl (omega arith))
  | inr (m, again) ↦
      let (first, longer, positive) = retry_expires-some f response t m again in
      elim (Result-cases
        (build (next_request (record f { interval_retried = true }) m false) m none branch)) [
          | inl (text, good) ↦
              rw (handle_brief, again, good) (retried t m branch text o first longer positive good)
          | inr (e, bad) ↦ rw (handle_brief, again, bad) (unwritten t m e o first positive)
        ]
]

handle_success-IsHandled :
    (lower_text : Text → Text) (f : RegistrationFlow) (response : SipResponse) (t : Transaction)
    → f.txn ≡ some t
    → IsHandled f (handle_success lower_text f response t)
unfolding handle_success
handle_success-IsHandled lower_text f response t o =
    let grant = granted_expires lower_text f response in
    elim (Bool-cases (ltb 0 t.requested_expires)) [
      | inr unbinds ↦
          rw (handle_success, unbinds) (unbound t (or_zero grant) o (ground (arith, unbinds)))
      | inl binds ↦ elim (Option-cases grant) [
        | inl malformed ↦
            rw (handle_success, binds, malformed)
              (ended (record f { txn = none; is_registered = false }) 0 (removed_text none) refl
                (omega arith))
        | inr (e, told) ↦ elim (Bool-cases (ltb 0 e)) [
          | inl positive ↦
              rw (handle_success, binds, told, positive)
                (granted t e o (ltb→lt 0 t.requested_expires binds) (ltb→lt 0 e positive))
          | inr zero_grant ↦
              rw (handle_success, binds, told, zero_grant)
                (ended (record f { txn = none; is_registered = false }) 0 (removed_text (some e))
                  refl (omega arith))
        ]
      ]
    ]

Handled-registered :
    (f g : RegistrationFlow) (t : Transaction) (e : ℕ)
    → f.txn ≡ some t
    → 0 < t.requested_expires
    → Handled f g (ok (registered e))
    → (0 < e) × (g.is_registered ≡ true) × (g.txn ≡ none)
Handled-registered f g t e o binds (granted s _ p q positive) = (positive, refl, refl)
Handled-registered f g t e o binds (unbound s _ p zero_request) =
    let same : t.requested_expires ≡ s.requested_expires =
      ap (λ (x : Option Transaction). elim x [ none ↦ 0 | some y ↦ y.requested_expires ])
        (sym o ∙ p) in
    absurd (omega (arith, same, zero_request, binds))

module _ (is_word : ℕ → Bool) (md5_hex sha256_hex lower_text : Text → Text) where
  handle_challenge-IsHandled :
      (f : RegistrationFlow) (response : SipResponse) (t : Transaction) (branch cnonce : Text)
      → f.txn ≡ some t
      → IsHandled f (handle_challenge is_word md5_hex sha256_hex f response t branch cnonce)
  unfolding handle_challenge next_request
  handle_challenge-IsHandled f response t branch cnonce o = elim (Bool-cases t.challenged) [
    | inl again ↦
        rw (handle_challenge, again)
          (ended (finish f) response.status_code response.reason refl (omega arith))
    | inr fresh ↦ elim (Result-cases (answer is_word md5_hex sha256_hex f response cnonce)) [
      | inr (e, unanswerable) ↦
          rw (handle_challenge, fresh, unanswerable)
            (ended (finish f) response.status_code response.reason refl (omega arith))
      | inl (value, good) ↦
          let auth : Text × Text = ((auth_names response.status_code).1, value) in
          let g = next_request f t.requested_expires true in
          elim (Result-cases (build g t.requested_expires (some auth) branch)) [
            | inl (text, written) ↦
                rw (handle_challenge, fresh, good, written)
                  (answered t auth branch text o fresh written)
            | inr (e, bad) ↦
                rw (handle_challenge, fresh, good, bad)
                  (ended (finish g) response.status_code response.reason refl (omega arith))
          ]
    ]
  ]

  handle_at-IsHandled :
      (f : RegistrationFlow) (t : Transaction) (response : SipResponse) (branch cnonce : Text)
      → f.txn ≡ some t
      → IsHandled f (handle_at is_word md5_hex sha256_hex lower_text f t response branch cnonce)
  unfolding handle_at
  handle_at-IsHandled f t response branch cnonce o = elim (Result-cases (check_cseq response t)) [
    | inr (e, stray) ↦ rw (handle_at, stray) (ignored e)
    | inl (u, ours) ↦
        elim (Bool-cases (leb 200 response.status_code && ltb response.status_code 300)) [
          | inl success ↦
              rw (handle_at, ours, success) (handle_success-IsHandled lower_text f response t o)
          | inr other ↦
              elim (Bool-cases (response.status_code == 401 || response.status_code == 407)) [
                | inl challenge ↦
                    rw (handle_at, ours, other, challenge)
                      (handle_challenge-IsHandled f response t branch cnonce o)
                | inr unchallenged ↦ elim (Bool-cases (response.status_code == 423)) [
                  | inl brief ↦
                      rw (handle_at, ours, other, unchallenged, brief)
                        (handle_brief-IsHandled f response t branch o)
                  | inr final ↦
                      rw (handle_at, ours, other, unchallenged, final)
                        (ended (finish f) response.status_code response.reason refl (omega arith))
                ]
              ]
        ]
  ]

  pub handle-none :
      (f : RegistrationFlow) (response : SipResponse) (branch cnonce : Text)
      → f.txn ≡ none
      → handle is_word md5_hex sha256_hex lower_text f response branch cnonce
        ≡ (f, err no_outstanding)
  unfolding handle
  handle-none f response branch cnonce o =
      ap
        (λ (x : Option Transaction). elim x [
          | none ↦ (f, err no_outstanding)
          | some t ↦ handle_at is_word md5_hex sha256_hex lower_text f t response branch cnonce
        ])
        o

  pub handle-some :
      (f : RegistrationFlow) (t : Transaction) (response : SipResponse) (branch cnonce : Text)
      → f.txn ≡ some t
      → handle is_word md5_hex sha256_hex lower_text f response branch cnonce
        ≡ handle_at is_word md5_hex sha256_hex lower_text f t response branch cnonce
  unfolding handle
  handle-some f t response branch cnonce o =
      ap
        (λ (x : Option Transaction). elim x [
          | none ↦ (f, err no_outstanding)
          | some s ↦ handle_at is_word md5_hex sha256_hex lower_text f s response branch cnonce
        ])
        o

  -- Every response is handled in one of these ways.
  pub handle-IsHandled :
      (f : RegistrationFlow) (response : SipResponse) (branch cnonce : Text)
      → IsHandled f (handle is_word md5_hex sha256_hex lower_text f response branch cnonce)
  handle-IsHandled f response branch cnonce = elim (Option-cases f.txn) [
    | inl idle ↦
        subst (IsHandled f) (sym (handle-none f response branch cnonce idle))
          (ignored no_outstanding)
    | inr (t, o) ↦
        subst (IsHandled f) (sym (handle-some f t response branch cnonce o))
          (handle_at-IsHandled f t response branch cnonce o)
  ]

  -- A flow that asked for a lifetime says that it is registered only with a positive lifetime, and then
  -- it is registered and waits for no response.
  pub handle_registered :
      (f : RegistrationFlow) (t : Transaction) (response : SipResponse) (branch cnonce : Text)
      (e : ℕ)
      → f.txn ≡ some t
      → 0 < t.requested_expires
      → (handle is_word md5_hex sha256_hex lower_text f response branch cnonce).1
        ≡ ok (registered e)
      → (0 < e)
        × ((handle is_word md5_hex sha256_hex lower_text f response branch cnonce).0.is_registered
            ≡ true)
        × ((handle is_word md5_hex sha256_hex lower_text f response branch cnonce).0.txn ≡ none)
  handle_registered f t response branch cnonce e o binds r =
      let next = handle is_word md5_hex sha256_hex lower_text f response branch cnonce in
      Handled-registered f next.0 t e o binds
        (subst (λ s. Handled f next.0 s) r (handle-IsHandled f response branch cnonce))
