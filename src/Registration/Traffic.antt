-- ===== src/Registration/Traffic.antt =====
-- src/hermes_voip/registration.py: the requests that a flow sends.
use hermes_voip.Base.{
  ℕ, ◌+◌, ◌≤◌, ◌<◌, ◌≡◌, refl, sym, ap, subst, Bool, true, false, ◌||◌, leb, if◌then◌else◌, List,
  [], ◌∷◌, ◌++◌, length, length-append, Option, none, some, Bool-cases, Result, Result-cases, ok,
  err, arith, inl, inr,
}
use hermes_voip.Base.Text.{Text, decimal}
use hermes_voip.Message.{Headers, MessageError, build_request, header}
use hermes_voip.Message.Parse.{SipResponse}
use hermes_voip.Transaction.{cseq_name}
use hermes_voip.Registration.Flow.{
  RegistrationFlow, Transaction, Outcome, FlowError, not_registered, begin_with, next_request,
  build, register_headers, register, as_flow, start, deregister, handle,
}
use hermes_voip.Registration.Steps.{
  requests, Handled, ignored, ended, granted, unbound, answered, retried, unwritten,
  handle-IsHandled,
}

-- How many more requests the registrar can draw out of a flow: the answer to a challenge, unless it is
-- given, and the longer lifetime, unless it was asked for, with a challenge of its own.
abbrev pub weight : RegistrationFlow → Transaction → ℕ
weight f t =
    (if t.challenged then 0 else 1)
    + (if f.interval_retried || leb t.requested_expires 0 then 0 else 2)

abbrev pub potential : RegistrationFlow → ℕ
potential f = elim f.txn [ none ↦ 0 | some t ↦ weight f t ]

potential-some :
    (f : RegistrationFlow) (t : Transaction) → f.txn ≡ some t → potential f ≡ weight f t
potential-some f t o = ap (λ (x : Option Transaction). elim x [ none ↦ 0 | some s ↦ weight f s ]) o

potential-none : (f : RegistrationFlow) → f.txn ≡ none → potential f ≡ 0
potential-none f o = ap (λ (x : Option Transaction). elim x [ none ↦ 0 | some s ↦ weight f s ]) o

Handled-potential :
    (f g : RegistrationFlow) (r : Result FlowError Outcome)
    → Handled f g r
    → length (requests r) + potential g ≤ potential f
unfolding next_request
Handled-potential f g r (ignored e) = omega arith
Handled-potential f g r (ended _ status reason closed later) =
    rw (potential-none g closed) (omega arith)
Handled-potential f g r (granted t e o binds positive) = omega arith
Handled-potential f g r (unbound t e o unbinds) = omega arith
Handled-potential f g r (answered t auth branch text o fresh written) =
    rw (potential-some f t o, fresh) (omega arith)
Handled-potential f g r (retried t m branch text o first longer positive written) =
    rw (potential-some f t o, first) (ground (arith, positive))
Handled-potential f g r (unwritten t m e o first positive) =
    rw (potential-some f t o, first) (ground (arith, positive))

-- A response, and the branch and the nonce that are drawn for what answers it.
abbrev pub Reply : Type 0
Reply = SipResponse × Text × Text

-- A text is a request with the CSeq `n`.
abbrev pub IsRequest : ℕ → Text → Type 0
IsRequest n text =
    (uri : Text) × (hs : Headers) × (build_request register uri hs [] ≡ ok text)
    × (header hs cseq_name ≡ some (decimal n ++ (32 ∷ register)))

-- The texts are requests whose CSeq numbers go up from `n`.
abbrev pub Increasing : ℕ → List Text → Type 0
Increasing n [] = Unit
Increasing n (text ∷ texts) = (m : ℕ) × (n < m) × IsRequest m text × Increasing m texts

Increasing-weaken : (m n : ℕ) (texts : List Text) → m ≤ n → Increasing n texts → Increasing m texts
Increasing-weaken m n [] h i = tt
Increasing-weaken m n (text ∷ texts) h (k, above, request, rest) =
    (k, omega (arith, above), request, rest)

as_flow-ok : (r : Result MessageError Text) (text : Text) → as_flow r ≡ ok text → r ≡ ok text
as_flow-ok (ok t) text h = cc
as_flow-ok (err e) text h = absurd (ground arith)

build-IsRequest :
    (f : RegistrationFlow) (expires : ℕ) (auth : Option (Text × Text)) (branch text : Text)
    → build f expires auth branch ≡ ok text
    → IsRequest f.cseq text
unfolding build register_headers header
build-IsRequest f expires auth branch text h = (
  f.registrar,
  register_headers f expires auth branch,
  as_flow-ok (build_request register f.registrar (register_headers f expires auth branch) []) text
      h,
  refl,
)

Handled-Increasing :
    (f g : RegistrationFlow) (r : Result FlowError Outcome) (rest : List Text)
    → Handled f g r
    → Increasing g.cseq rest
    → Increasing f.cseq (requests r ++ rest)
unfolding next_request
Handled-Increasing f g r rest (ignored e) i = i
Handled-Increasing f g r rest (ended _ status reason closed later) i =
    Increasing-weaken f.cseq g.cseq rest later i
Handled-Increasing f g r rest (granted t e o binds positive) i = i
Handled-Increasing f g r rest (unbound t e o unbinds) i = i
Handled-Increasing f g r rest (answered t auth branch text o fresh written) i = (
  f.cseq + 1,
  omega arith,
  build-IsRequest (next_request f t.requested_expires true) t.requested_expires (some auth) branch
      text written,
  i,
)
Handled-Increasing f g r rest (retried t m branch text o first longer positive written) i = (
  f.cseq + 1,
  omega arith,
  build-IsRequest (next_request (record f { interval_retried = true }) m false) m none branch text
      written,
  i,
)
Handled-Increasing f g r rest (unwritten t m e o first positive) i =
    Increasing-weaken f.cseq (f.cseq + 1) rest (omega arith) i

-- What happens to a flow.
pub data Event : Type 0 where
  started deregistered : Text → Event
  received : Reply → Event

abbrev pub begun : Result FlowError Text → List Text
begun (ok text) = text ∷ []
begun (err e) = []

begin_with-Increasing :
    (f : RegistrationFlow) (requested : ℕ) (branch : Text) (rest : List Text)
    → Increasing (begin_with f requested branch).0.cseq rest
    → Increasing f.cseq (begun (begin_with f requested branch).1 ++ rest)
unfolding begin_with next_request
begin_with-Increasing f requested branch rest i =
    elim (Result-cases (build (next_request f requested false) requested none branch)) [
      | inl (text, good) ↦ rw good (
        f.cseq + 1,
        omega arith,
        build-IsRequest (next_request f requested false) requested none branch text good,
        i,
      )
      | inr (e, bad) ↦ rw bad (Increasing-weaken f.cseq (f.cseq + 1) rest (omega arith) i)
    ]

deregister-live :
    (f : RegistrationFlow) (branch : Text)
    → f.is_registered ≡ true
    → deregister f branch ≡ begin_with (record f { interval_retried = false }) 0 branch
unfolding deregister
deregister-live f branch live =
    ap
      (λ (b : Bool).
        if b
        then begin_with (record f { interval_retried = false }) 0 branch
        else (f, err not_registered))
      live

deregister-dead :
    (f : RegistrationFlow) (branch : Text)
    → f.is_registered ≡ false
    → deregister f branch ≡ (f, err not_registered)
unfolding deregister
deregister-dead f branch dead =
    ap
      (λ (b : Bool).
        if b
        then begin_with (record f { interval_retried = false }) 0 branch
        else (f, err not_registered))
      dead

start-potential : (f : RegistrationFlow) (branch : Text) → potential (start f branch).0 ≤ 3
unfolding start begin_with next_request
start-potential f branch = ground arith

module _ (is_word : ℕ → Bool) (md5_hex sha256_hex lower_text : Text → Text) where
  -- The requests that a list of responses draws out of a flow.
  abbrev pub replies : RegistrationFlow → List Reply → List Text
  replies f [] = []
  replies f ((response, branch, cnonce) ∷ rs) =
      let next = handle is_word md5_hex sha256_hex lower_text f response branch cnonce in
      requests next.1 ++ replies next.0 rs

  replies-potential : (f : RegistrationFlow) (rs : List Reply) → length (replies f rs) ≤ potential f
  replies-potential f [] = omega arith
  replies-potential f ((response, branch, cnonce) ∷ rs) =
      let next = handle is_word md5_hex sha256_hex lower_text f response branch cnonce in
      omega (
        arith,
        Handled-potential f next.0 next.1
            (handle-IsHandled is_word md5_hex sha256_hex lower_text f response branch cnonce),
        replies-potential next.0 rs,
        length-append (requests next.1) (replies next.0 rs),
      )

  -- Whatever a registrar answers, and however often, a registration that is begun sends no more than
  -- three requests behind its first one.
  pub start-replies :
      (f : RegistrationFlow) (branch : Text) (rs : List Reply)
      → length (replies (start f branch).0 rs) ≤ 3
  start-replies f branch rs =
      omega (arith, replies-potential (start f branch).0 rs, start-potential f branch)

  -- The requests of a life of a flow.
  abbrev pub run : RegistrationFlow → List Event → List Text
  run f [] = []
  run f (started branch ∷ es) = let next = start f branch in begun next.1 ++ run next.0 es
  run f (deregistered branch ∷ es) = let next = deregister f branch in begun next.1 ++ run next.0 es
  run f (received (response, branch, cnonce) ∷ es) =
      let next = handle is_word md5_hex sha256_hex lower_text f response branch cnonce in
      requests next.1 ++ run next.0 es

  -- All requests that a flow ever sends, whatever its owner starts and its registrar answers, carry
  -- CSeq numbers that strictly increase.
  pub run-Increasing : (f : RegistrationFlow) (es : List Event) → Increasing f.cseq (run f es)
  unfolding start
  run-Increasing f [] = tt
  run-Increasing f (started branch ∷ es) =
      begin_with-Increasing (record f { interval_retried = false }) f.cfg.expires branch
        (run (start f branch).0 es) (run-Increasing (start f branch).0 es)
  run-Increasing f (deregistered branch ∷ es) = elim (Bool-cases f.is_registered) [
    | inl live ↦
        let g = record f { interval_retried = false } in
        subst (λ s. Increasing f.cseq (begun s.1 ++ run s.0 es))
          (sym (deregister-live f branch live))
          (begin_with-Increasing g 0 branch (run (begin_with g 0 branch).0 es)
            (run-Increasing (begin_with g 0 branch).0 es))
    | inr dead ↦
        subst (λ s. Increasing f.cseq (begun s.1 ++ run s.0 es))
          (sym (deregister-dead f branch dead)) (run-Increasing f es)
  ]
  run-Increasing f (received (response, branch, cnonce) ∷ es) =
      let next = handle is_word md5_hex sha256_hex lower_text f response branch cnonce in
      Handled-Increasing f next.0 next.1 (run next.0 es)
        (handle-IsHandled is_word md5_hex sha256_hex lower_text f response branch cnonce)
        (run-Increasing next.0 es)
