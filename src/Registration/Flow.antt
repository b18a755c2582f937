-- ===== src/Registration/Flow.antt =====
-- src/hermes_voip/registration.py: `RegistrationFlow`. The branch of a request and the nonce of an
-- answer, which are drawn at random, are passed.
use hermes_voip.Base.{
  ℕ, ◌+◌, Bool, true, false, not, ◌&&◌, ◌||◌, ◌==◌, ltb, leb, if◌then◌else◌, List, [], ◌∷◌, ◌++◌,
  Option, none, some, Result, ok, err, guard, ◌>>=◌,
}
use hermes_voip.Base.Text.{Text, is_space, strip, same_text, skip_spaces, decimal}
use hermes_voip.Message.{Headers, MessageError, header, headers_all, build_request, parse_decimal}
use hermes_voip.Message.Parse.{SipResponse}
use hermes_voip.Transaction.{first_word, cseq_name}
use hermes_voip.Digest.{
  DigestError, DigestChallenge, parse_challenge, pick_best_challenge, build_authorization,
}
use hermes_voip.Registration.Binding.{
  AorError, insecure_scheme, sip, binding_uri, bindings, contact_binding_matches, split_aor,
  expires_token,
}

pub data ViaTransport : Type 0 where
  tls wss udp tcp : ViaTransport

abbrev pub transport_name : ViaTransport → Text
transport_name tls = 84 ∷ 76 ∷ 83 ∷ []
transport_name wss = 87 ∷ 83 ∷ 83 ∷ []
transport_name udp = 85 ∷ 68 ∷ 80 ∷ []
transport_name tcp = 84 ∷ 67 ∷ 80 ∷ []

abbrev pub is_secure : ViaTransport → Bool
is_secure tls = true
is_secure wss = true
is_secure _ = false

-- `_TRANSPORT_DEFAULT_PORT`.
abbrev pub transport_port : ViaTransport → ℕ
transport_port t = if is_secure t then 5061 else 5060

-- The fields behind the checks of the constructor; a negative lifetime is refused there.
pub record RegistrationConfig : Type 0 where
  pub aor : Text
  pub username : Text
  pub password : Text
  pub contact : Text
  pub local_sent_by : Text
  pub transport : ViaTransport
  pub expires : ℕ
  pub user_agent : Text

pub record Transaction : Type 0 where
  pub cseq : ℕ
  pub requested_expires : ℕ
  pub challenged : Bool

pub data Outcome : Type 0 where
  challenged retry : Text → Outcome
  registered : ℕ → Outcome
  failed : ℕ → Text → Outcome

pub data FlowError : Type 0 where
  not_registered no_outstanding stray_cseq : FlowError
  unwritable : MessageError → FlowError

pub record RegistrationFlow : Type 0 where
  pub cfg : RegistrationConfig
  pub registrar : Text
  pub contact_uri : Text
  pub call_id : Text
  pub from_tag : Text
  pub cseq : ℕ
  pub is_registered : Bool
  pub txn : Option Transaction
  pub interval_retried : Bool

abbrev pub register : Text
register = 82 ∷ 69 ∷ 71 ∷ 73 ∷ 83 ∷ 84 ∷ 69 ∷ 82 ∷ []

abbrev pub contact_name : Text
contact_name = 67 ∷ 111 ∷ 110 ∷ 116 ∷ 97 ∷ 99 ∷ 116 ∷ []

abbrev pub expires_name : Text
expires_name = 69 ∷ 120 ∷ 112 ∷ 105 ∷ 114 ∷ 101 ∷ 115 ∷ []

abbrev pub auth_headers : Option (Text × Text) → Headers
auth_headers none = []
auth_headers (some h) = h ∷ []

-- The headers of `_build`, with the CSeq of the flow.
unfoldable pub register_headers : RegistrationFlow → ℕ → Option (Text × Text) → Text → Headers
register_headers f expires auth branch =
    (
      86 ∷ 105 ∷ 97 ∷ [],
      83 ∷ 73 ∷ 80 ∷ 47 ∷ 50 ∷ 46 ∷ 48 ∷ 47 ∷ []
          ++ (transport_name f.cfg.transport
              ++ (32
                  ∷ (f.cfg.local_sent_by
                      ++ (59 ∷ 98 ∷ 114 ∷ 97 ∷ 110 ∷ 99 ∷ 104 ∷ 61 ∷ []
                          ++ (branch ++ 59 ∷ 114 ∷ 112 ∷ 111 ∷ 114 ∷ 116 ∷ []))))),
    )
    ∷ (77 ∷ 97 ∷ 120 ∷ 45 ∷ 70 ∷ 111 ∷ 114 ∷ 119 ∷ 97 ∷ 114 ∷ 100 ∷ 115 ∷ [], 55 ∷ 48 ∷ [])
    ∷ (
      70 ∷ 114 ∷ 111 ∷ 109 ∷ [],
      60 ∷ (f.cfg.aor ++ (62 ∷ 59 ∷ 116 ∷ 97 ∷ 103 ∷ 61 ∷ [] ++ f.from_tag)),
    )
    ∷ (84 ∷ 111 ∷ [], 60 ∷ (f.cfg.aor ++ 62 ∷ []))
    ∷ (67 ∷ 97 ∷ 108 ∷ 108 ∷ 45 ∷ 73 ∷ 68 ∷ [], f.call_id)
    ∷ (cseq_name, decimal f.cseq ++ (32 ∷ register))
    ∷ (contact_name, f.cfg.contact)
    ∷ (expires_name, decimal expires)
    ∷ (85 ∷ 115 ∷ 101 ∷ 114 ∷ 45 ∷ 65 ∷ 103 ∷ 101 ∷ 110 ∷ 116 ∷ [], f.cfg.user_agent)
    ∷ auth_headers auth

abbrev pub as_flow : Result MessageError Text → Result FlowError Text
as_flow (ok text) = ok text
as_flow (err e) = err (unwritable e)

unfoldable pub build : RegistrationFlow → ℕ → Option (Text × Text) → Text → Result FlowError Text
build f expires auth branch =
    as_flow (build_request register f.registrar (register_headers f expires auth branch) [])

-- The flow with its next CSeq in an outstanding transaction.
unfoldable pub next_request : RegistrationFlow → ℕ → Bool → RegistrationFlow
next_request f requested answered = record f {
  cseq = f.cseq + 1;
  txn = some (record { cseq = f.cseq + 1; requested_expires = requested; challenged = answered });
}

-- `_begin`.
unfoldable pub begin_with : RegistrationFlow → ℕ → Text → RegistrationFlow × Result FlowError Text
begin_with f requested branch =
    let g = next_request f requested false in (g, build g requested none branch)

unfoldable pub start : RegistrationFlow → Text → RegistrationFlow × Result FlowError Text
start f branch = begin_with (record f { interval_retried = false }) f.cfg.expires branch

unfoldable pub deregister : RegistrationFlow → Text → RegistrationFlow × Result FlowError Text
deregister f branch =
    if f.is_registered
    then begin_with (record f { interval_retried = false }) 0 branch
    else (f, err not_registered)

-- What is left behind the first word.
unfoldable pub behind_first : Text → Text
behind_first [] = []
behind_first (c ∷ cs) = let rest = behind_first cs in if is_space c then c ∷ cs else rest

-- Whether a CSeq is that of the outstanding request.
unfoldable pub cseq_matches : Text → ℕ → Bool
cseq_matches text n =
    let words = skip_spaces text in
    (elim (parse_decimal (first_word words)) [ none ↦ false | some m ↦ m == n ])
    && same_text register (first_word (skip_spaces (behind_first words)))

unfoldable pub check_cseq : SipResponse → Transaction → Result FlowError (Unit {0})
check_cseq response t = elim (header response.headers cseq_name) [
  | none ↦ ok tt
  | some text ↦ guard (cseq_matches text t.cseq) stray_cseq
]

unfoldable pub min_expires : SipResponse → Option ℕ
min_expires response =
    elim (header response.headers
      (77 ∷ 105 ∷ 110 ∷ 45 ∷ 69 ∷ 120 ∷ 112 ∷ 105 ∷ 114 ∷ 101 ∷ 115 ∷ [])) [
        | none ↦ none
        | some text ↦ parse_decimal (strip text)
      ]

-- The lifetime that `_retry_interval` asks for, if it asks again.
unfoldable pub retry_expires : RegistrationFlow → SipResponse → Transaction → Option ℕ
retry_expires f response t =
    if f.interval_retried || leb t.requested_expires 0 then none else elim (min_expires response) [
      | none ↦ none
      | some m ↦ if leb m t.requested_expires then none else some m
    ]

abbrev pub finish : RegistrationFlow → RegistrationFlow
finish f = record f { txn = none }

-- `_retry_interval`, and the failure behind it.
unfoldable pub handle_brief :
    RegistrationFlow
    → SipResponse
    → Transaction
    → Text
    → RegistrationFlow × Result FlowError Outcome
handle_brief f response t branch = elim (retry_expires f response t) [
  | none ↦ (finish f, ok (failed response.status_code response.reason))
  | some m ↦
      let begun = begin_with (record f { interval_retried = true }) m branch in
      elim begun.1 [ err e ↦ (begun.0, err e) | ok text ↦ (begun.0, ok (retry text)) ]
]

-- The lifetime that the registrar grants: `none` if it is malformed.
abbrev pub granted_by : List Text → Option Text
granted_by [] = none
granted_by (b ∷ bs) = some b

abbrev pub expires_of : Option Text → ℕ → ℕ
expires_of none requested = requested
expires_of (some text) requested = elim (parse_decimal (strip text)) [
  | none ↦ requested
  | some n ↦ n
]

abbrev pub removed_text : Option ℕ → Text
removed_text none =
    114 ∷ 101 ∷ 103 ∷ 105 ∷ 115 ∷ 116 ∷ 114 ∷ 97 ∷ 114 ∷ 32 ∷ 103 ∷ 114 ∷ 97 ∷ 110 ∷ 116 ∷ 101 ∷ 100
    ∷ 32 ∷ 97 ∷ 32 ∷ 109 ∷ 97 ∷ 108 ∷ 102 ∷ 111 ∷ 114 ∷ 109 ∷ 101 ∷ 100 ∷ 47 ∷ 110 ∷ 101 ∷ 103 ∷ 97
    ∷ 116 ∷ 105 ∷ 118 ∷ 101 ∷ 32 ∷ 101 ∷ 120 ∷ 112 ∷ 105 ∷ 114 ∷ 101 ∷ 115 ∷ 32 ∷ 102 ∷ 111 ∷ 114
    ∷ 32 ∷ 111 ∷ 117 ∷ 114 ∷ 32 ∷ 98 ∷ 105 ∷ 110 ∷ 100 ∷ 105 ∷ 110 ∷ 103 ∷ 59 ∷ 32 ∷ 114 ∷ 101 ∷ 109
    ∷ 111 ∷ 118 ∷ 101 ∷ 100 ∷ []
removed_text (some n) =
    114 ∷ 101 ∷ 103 ∷ 105 ∷ 115 ∷ 116 ∷ 114 ∷ 97 ∷ 114 ∷ 32 ∷ 103 ∷ 114 ∷ 97 ∷ 110 ∷ 116 ∷ 101 ∷ 100
      ∷ 32 ∷ 97 ∷ 32 ∷ 110 ∷ 111 ∷ 110 ∷ 45 ∷ 112 ∷ 111 ∷ 115 ∷ 105 ∷ 116 ∷ 105 ∷ 118 ∷ 101 ∷ 32
      ∷ 40 ∷ []
    ++ (decimal n
        ++ 41 ∷ 32 ∷ 101 ∷ 120 ∷ 112 ∷ 105 ∷ 114 ∷ 101 ∷ 115 ∷ 32 ∷ 102 ∷ 111 ∷ 114 ∷ 32 ∷ 111 ∷ 117
          ∷ 114 ∷ 32 ∷ 98 ∷ 105 ∷ 110 ∷ 100 ∷ 105 ∷ 110 ∷ 103 ∷ 59 ∷ 32 ∷ 114 ∷ 101 ∷ 109 ∷ 111
          ∷ 118 ∷ 101 ∷ 100 ∷ [])

abbrev pub is_positive : Option ℕ → Bool
is_positive none = false
is_positive (some n) = ltb 0 n

abbrev pub or_zero : Option ℕ → ℕ
or_zero none = 0
or_zero (some n) = n

module _ (lower_text : Text → Text) where
  abbrev pub is_ours : RegistrationFlow → Text → Bool
  is_ours f b =
      contact_binding_matches lower_text (binding_uri b) f.contact_uri
        (some (transport_port f.cfg.transport))

  -- Our binding, or else the first one.
  unfoldable pub find_ours : RegistrationFlow → List Text → Option Text
  find_ours f [] = none
  find_ours f (b ∷ bs) = let rest = find_ours f bs in if is_ours f b then some b else rest

  unfoldable pub chosen : RegistrationFlow → List Text → Option Text
  chosen f bs = elim (find_ours f bs) [ some b ↦ some b | none ↦ granted_by bs ]

  unfoldable pub granted_expires : RegistrationFlow → SipResponse → Option ℕ
  granted_expires f response =
      let fallback = some (expires_of (header response.headers expires_name) f.cfg.expires) in
      elim (chosen f (bindings (headers_all response.headers contact_name))) [
        | none ↦ fallback
        | some b ↦ elim (expires_token b) [ none ↦ fallback | some token ↦ parse_decimal token ]
      ]

  unfoldable pub handle_success :
      RegistrationFlow → SipResponse → Transaction → RegistrationFlow × Result FlowError Outcome
  handle_success f response t =
      let granted = granted_expires f response in
      if ltb 0 t.requested_expires && not (is_positive granted)
      then (record f { txn = none; is_registered = false }, ok (failed 0 (removed_text granted)))
      else (
        record f { txn = none; is_registered = ltb 0 t.requested_expires },
        ok (registered (or_zero granted)),
      )

  -- The constructor of the configuration.
  unfoldable pub check_config : Text → ViaTransport → Result AorError (Unit {0})
  check_config aor transport = do
    (scheme, host) ← split_aor lower_text aor
    guard (not (same_text sip (lower_text scheme) && is_secure transport)) insecure_scheme

  -- `RegistrationFlow.__init__`.
  unfoldable pub open_flow : RegistrationConfig → Text → Text → Result AorError RegistrationFlow
  open_flow cfg call_id tag = do
    (scheme, host) ← split_aor lower_text cfg.aor
    ok (record {
      cfg = cfg;
      registrar = scheme ++ (58 ∷ host);
      contact_uri = binding_uri cfg.contact;
      call_id = call_id;
      from_tag = tag;
      cseq = 0;
      is_registered = false;
      txn = none;
      interval_retried = false;
    })

-- The names of the challenge and of the answer.
abbrev pub auth_names : ℕ → Text × Text
auth_names status =
    if status == 401
    then (
      87 ∷ 87 ∷ 87 ∷ 45 ∷ 65 ∷ 117 ∷ 116 ∷ 104 ∷ 101 ∷ 110 ∷ 116 ∷ 105 ∷ 99 ∷ 97 ∷ 116 ∷ 101 ∷ [],
      65 ∷ 117 ∷ 116 ∷ 104 ∷ 111 ∷ 114 ∷ 105 ∷ 122 ∷ 97 ∷ 116 ∷ 105 ∷ 111 ∷ 110 ∷ [],
    )
    else (
      80 ∷ 114 ∷ 111 ∷ 120 ∷ 121 ∷ 45 ∷ 65 ∷ 117 ∷ 116 ∷ 104 ∷ 101 ∷ 110 ∷ 116 ∷ 105 ∷ 99 ∷ 97 ∷ 116
          ∷ 101 ∷ [],
      80 ∷ 114 ∷ 111 ∷ 120 ∷ 121 ∷ 45 ∷ 65 ∷ 117 ∷ 116 ∷ 104 ∷ 111 ∷ 114 ∷ 105 ∷ 122 ∷ 97 ∷ 116
          ∷ 105 ∷ 111 ∷ 110 ∷ [],
    )

module _ (is_word : ℕ → Bool) (md5_hex sha256_hex : Text → Text) where
  unfoldable pub parse_all : List Text → Result DigestError (List DigestChallenge)
  parse_all [] = ok []
  parse_all (raw ∷ raws) = do ch ← parse_challenge is_word raw; chs ← parse_all raws; ok (ch ∷ chs)

  unfoldable pub strongest_challenge : SipResponse → Text → Result DigestError DigestChallenge
  strongest_challenge response name = elim (headers_all response.headers name) [
    | [] ↦ parse_challenge is_word []
    | raw ∷ raws ↦ (do chs ← parse_all (raw ∷ raws); pick_best_challenge chs)
  ]

  unfoldable pub answer : RegistrationFlow → SipResponse → Text → Result DigestError Text
  answer f response cnonce = do
    challenge ← strongest_challenge response (auth_names response.status_code).0
    build_authorization md5_hex sha256_hex challenge
        (record { username = f.cfg.username; password = f.cfg.password }) register f.registrar
        cnonce 1

  -- `_handle_challenge` with `_reauthenticate`: a ValueError of either ends the transaction, and the
  -- CSeq stays used if it came from the writing of the request.
  unfoldable pub handle_challenge :
      RegistrationFlow
      → SipResponse
      → Transaction
      → Text
      → Text
      → RegistrationFlow × Result FlowError Outcome
  handle_challenge f response t branch cnonce =
      let refused = failed response.status_code response.reason in
      if t.challenged then (finish f, ok refused) else elim (answer f response cnonce) [
        | err e ↦ (finish f, ok refused)
        | ok value ↦
            let g = next_request f t.requested_expires true in
            elim (build g t.requested_expires (some ((auth_names response.status_code).1, value))
              branch) [ err e ↦ (finish g, ok refused) | ok text ↦ (g, ok (challenged text)) ]
      ]

  -- `handle` with the outstanding transaction at hand.
  unfoldable pub handle_at :
      (Text → Text)
      → RegistrationFlow
      → Transaction
      → SipResponse
      → Text
      → Text
      → RegistrationFlow × Result FlowError Outcome
  handle_at lower_text f t response branch cnonce = elim (check_cseq response t) [
    | err e ↦ (f, err e)
    | ok _ ↦
        let status = response.status_code in
        if leb 200 status && ltb status 300
        then handle_success lower_text f response t
        else if status == 401 || status == 407
        then handle_challenge f response t branch cnonce
        else if status == 423
        then handle_brief f response t branch
        else (finish f, ok (failed status response.reason))
  ]

  unfoldable pub handle :
      (Text → Text)
      → RegistrationFlow
      → SipResponse
      → Text
      → Text
      → RegistrationFlow × Result FlowError Outcome
  handle lower_text f response branch cnonce = elim f.txn [
    | none ↦ (f, err no_outstanding)
    | some t ↦ handle_at lower_text f t response branch cnonce
  ]
