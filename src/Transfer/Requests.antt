-- ===== src/Transfer/Requests.antt =====
-- src/hermes_voip/refer.py: the messages of a transfer. The branch, the tag and the Call-ID that are
-- drawn at random are passed.
use hermes_voip.Base.{
  ℕ, Bool, false, not, ◌&&◌, ◌==◌, if◌then◌else◌, List, [], ◌∷◌, ◌++◌, length, drop, take, Option,
  none, some, Result, ok, err, guard, or_fail, ◌>>=◌, ◌>>◌,
}
use hermes_voip.Base.Text.{
  Text, strip, lower, same_text, is_empty, is_digit, is_space, split, partition, any, all, read,
  skip_spaces,
}
use hermes_voip.Base.Percent.{quote}
use hermes_voip.Message.{Headers, MessageError, header, headers_all, build_request, is_surrogate}
use hermes_voip.Message.Parse.{SipRequest, starts_with}
use hermes_voip.Transaction.{
  via_name, max_forwards_name, from_name, to_name, call_id_name, cseq_name,
}
use hermes_voip.Dialog.{Dialog, DialogError, build_in_dialog_request, contact_name, user_agent_name}
use hermes_voip.Transfer.{
  ReferError, not_one_refer_to, bad_target, no_subscription_state, no_status_line, ReplacesSpec,
  ReferRequest, NotifyProgress, header_value, parse_replaces_value, wrap_uri, bracketed_uri,
  validate_refer_to_query, replaces_from_uri_query,
}
use hermes_voip.Transfer.Target.{TargetError, validate_transfer_target}

abbrev pub refer_to_name : Text
refer_to_name = 82 ∷ 101 ∷ 102 ∷ 101 ∷ 114 ∷ 45 ∷ 84 ∷ 111 ∷ []

abbrev pub referred_by_name : Text
referred_by_name = 82 ∷ 101 ∷ 102 ∷ 101 ∷ 114 ∷ 114 ∷ 101 ∷ 100 ∷ 45 ∷ 66 ∷ 121 ∷ []

abbrev pub replaces_name : Text
replaces_name = 82 ∷ 101 ∷ 112 ∷ 108 ∷ 97 ∷ 99 ∷ 101 ∷ 115 ∷ []

abbrev pub refer_method : Text
refer_method = 82 ∷ 69 ∷ 70 ∷ 69 ∷ 82 ∷ []

abbrev pub notify_method : Text
notify_method = 78 ∷ 79 ∷ 84 ∷ 73 ∷ 70 ∷ 89 ∷ []

-- `extra` behind the Refer-To.
abbrev pub refer_extra : Text → Option Text → Option (Text × Text) → Headers
refer_extra refer_to referred_by auth =
    (refer_to_name, refer_to)
    ∷ (elim referred_by [ none ↦ [] | some uri ↦ (referred_by_name, wrap_uri uri) ∷ [] ]
        ++ (elim auth [ none ↦ [] | some field ↦ field ∷ [] ]))

-- What `build_blind_refer` and `build_attended_refer` raise.
pub data BuildError : Type 0 where
  refused_target : TargetError → BuildError
  unencodable : BuildError
  refused_request : DialogError → BuildError

abbrev pub as_target : Result TargetError (Unit {0}) → Result BuildError (Unit {0})
as_target (ok u) = ok u
as_target (err e) = err (refused_target e)

abbrev pub as_request : {A : Type 0} → Result DialogError A → Result BuildError A
as_request (ok a) = ok a
as_request (err e) = err (refused_request e)

abbrev pub angled : Text → Text
angled uri = 60 ∷ (uri ++ 62 ∷ [])

-- The `Replaces` of the consultation, as its target reads it.
abbrev pub replaces_of : Dialog → ReplacesSpec
replaces_of consult = record {
  call_id = consult.call_id;
  to_tag = consult.remote_tag;
  from_tag = consult.local_tag;
  early_only = false;
}

-- `endswith("\r\n")`.
abbrev pub ends_line : Text → Bool
ends_line [] = false
ends_line (c ∷ []) = false
ends_line (c ∷ d ∷ []) = c == 13 && d == 10
ends_line (c ∷ d ∷ e ∷ cs) = ends_line (d ∷ e ∷ cs)

-- The URI of an attended transfer.
unfoldable pub attended_target : Dialog → Text
attended_target consult =
    consult.remote_target
    ++ ((if any (λ (c : ℕ). c == 63) consult.remote_target then 38 else 63)
        ∷ (replaces_name ++ (61 ∷ quote (header_value (replaces_of consult)))))

module _ (is_word : ℕ → Bool) where
  unfoldable pub build_blind_refer :
      Dialog → Text → Option Text → Option (Text × Text) → Text → Result BuildError (Text × Dialog)
  build_blind_refer d target_uri referred_by auth branch = do
    as_target (validate_transfer_target target_uri)
    as_request (
        build_in_dialog_request is_word d refer_method
          (refer_extra (angled target_uri) referred_by auth) [] branch)

  unfoldable pub build_attended_refer :
      Dialog
      → Dialog
      → Option Text
      → Option (Text × Text)
      → Text
      → Result BuildError (Text × Dialog)
  build_attended_refer d consult referred_by auth branch = do
    guard (not (any is_surrogate (header_value (replaces_of consult)))) unencodable
    as_request (
        build_in_dialog_request is_word d refer_method
          (refer_extra (angled (attended_target consult)) referred_by auth) [] branch)

  -- `build_notify_sipfrag`.
  unfoldable pub build_notify_sipfrag :
      Dialog → Text → Text → Text → Result DialogError (Text × Dialog)
  build_notify_sipfrag d status_line subscription_state branch =
      build_in_dialog_request is_word d notify_method
        ((69 ∷ 118 ∷ 101 ∷ 110 ∷ 116 ∷ [], 114 ∷ 101 ∷ 102 ∷ 101 ∷ 114 ∷ [])
          ∷ (
            83 ∷ 117 ∷ 98 ∷ 115 ∷ 99 ∷ 114 ∷ 105 ∷ 112 ∷ 116 ∷ 105 ∷ 111 ∷ 110 ∷ 45 ∷ 83 ∷ 116 ∷ 97
                ∷ 116 ∷ 101 ∷ [],
            subscription_state,
          )
          ∷ (
            67 ∷ 111 ∷ 110 ∷ 116 ∷ 101 ∷ 110 ∷ 116 ∷ 45 ∷ 84 ∷ 121 ∷ 112 ∷ 101 ∷ [],
            109 ∷ 101 ∷ 115 ∷ 115 ∷ 97 ∷ 103 ∷ 101 ∷ 47 ∷ 115 ∷ 105 ∷ 112 ∷ 102 ∷ 114 ∷ 97 ∷ 103
                ∷ 59 ∷ 118 ∷ 101 ∷ 114 ∷ 115 ∷ 105 ∷ 111 ∷ 110 ∷ 61 ∷ 50 ∷ 46 ∷ 48 ∷ [],
          )
          ∷ [])
        (if ends_line status_line then status_line else status_line ++ 13 ∷ 10 ∷ []) branch

-- `addr.partition("?")`.
abbrev pub target_and_query : Text → Text × Text
target_and_query addr = elim (partition 63 addr) [ none ↦ (addr, []) | some parts ↦ parts ]

abbrev pub one_value : List Text → Result ReferError Text
one_value (v ∷ []) = ok v
one_value _ = err not_one_refer_to

abbrev pub guarded : Result TargetError (Unit {0}) → Result ReferError (Unit {0})
guarded (ok u) = ok u
guarded (err e) = err bad_target

-- The URI of a Referred-By; an empty value counts as none.
abbrev pub referrer : Option Text → Option Text
referrer none = none
referrer (some value) = if is_empty value then none else some (bracketed_uri value)

unfoldable pub parse_refer : SipRequest → Result ReferError ReferRequest
parse_refer request = do
  value ← one_value (headers_all request.headers refer_to_name)
  let (target, query) = target_and_query (bracketed_uri value)
  guarded (validate_transfer_target (strip target))
  validate_refer_to_query query
  replaces ← replaces_from_uri_query query
  ok (record {
    refer_to = strip target;
    replaces = replaces;
    referred_by = referrer (header request.headers referred_by_name);
  })

abbrev pub optional : Text → Option Text → Headers
optional name none = []
optional name (some value) = (name, value) ∷ []

-- The endpoint that places a triggered INVITE, and what it draws at random.
pub record LocalEnd : Type 0 where
  pub aor : Text
  pub contact : Text
  pub sent_by : Text
  pub transport : Text
  pub user_agent : Text
  pub branch : Text
  pub tag : Text
  pub call_id : Text

-- `build_triggered_invite`.
unfoldable pub build_triggered_invite :
    LocalEnd → Text → Text → Option ReplacesSpec → Option Text → Result MessageError Text
build_triggered_invite here target_uri body replaces referred_by =
    build_request (73 ∷ 78 ∷ 86 ∷ 73 ∷ 84 ∷ 69 ∷ []) target_uri
      ((
        via_name,
        83 ∷ 73 ∷ 80 ∷ 47 ∷ 50 ∷ 46 ∷ 48 ∷ 47 ∷ []
            ++ (here.transport
                ++ (32
                    ∷ (here.sent_by
                        ++ (59 ∷ 98 ∷ 114 ∷ 97 ∷ 110 ∷ 99 ∷ 104 ∷ 61 ∷ []
                            ++ (here.branch ++ 59 ∷ 114 ∷ 112 ∷ 111 ∷ 114 ∷ 116 ∷ []))))),
      )
        ∷ (max_forwards_name, 55 ∷ 48 ∷ [])
        ∷ (from_name, 60 ∷ (here.aor ++ (62 ∷ 59 ∷ 116 ∷ 97 ∷ 103 ∷ 61 ∷ [] ++ here.tag)))
        ∷ (to_name, angled target_uri)
        ∷ (call_id_name, here.call_id)
        ∷ (cseq_name, 49 ∷ 32 ∷ 73 ∷ 78 ∷ 86 ∷ 73 ∷ 84 ∷ 69 ∷ [])
        ∷ (contact_name, here.contact)
        ∷ (user_agent_name, here.user_agent)
        ∷ (optional replaces_name
              (elim replaces [ none ↦ none | some spec ↦ some (header_value spec) ])
            ++ (optional referred_by_name
                  (elim referred_by [ none ↦ none | some uri ↦ some (wrap_uri uri) ])
                ++ (if is_empty body
                    then []
                    else (
                      67 ∷ 111 ∷ 110 ∷ 116 ∷ 101 ∷ 110 ∷ 116 ∷ 45 ∷ 84 ∷ 121 ∷ 112 ∷ 101 ∷ [],
                      97 ∷ 112 ∷ 112 ∷ 108 ∷ 105 ∷ 99 ∷ 97 ∷ 116 ∷ 105 ∷ 111 ∷ 110 ∷ 47 ∷ 115 ∷ 100
                          ∷ 112 ∷ [],
                    )
                      ∷ []))))
      body

-- The loop of `match_replaces`.
unfoldable pub matching : ReplacesSpec → List Dialog → Option Dialog
matching spec [] = none
matching spec (d ∷ dialogs) =
    if same_text d.call_id spec.call_id
      && (same_text d.local_tag spec.to_tag && same_text d.remote_tag spec.from_tag)
    then some d
    else matching spec dialogs

unfoldable pub match_replaces : SipRequest → List Dialog → Result ReferError (Option Dialog)
match_replaces request dialogs = elim (header request.headers replaces_name) [
  | none ↦ ok none
  | some raw ↦ elim (parse_replaces_value raw) [
    | err e ↦ err e
    | ok spec ↦ ok (matching spec dialogs)
  ]
]

abbrev pub is_terminated : Text → Bool
is_terminated state =
    starts_with (116 ∷ 101 ∷ 114 ∷ 109 ∷ 105 ∷ 110 ∷ 97 ∷ 116 ∷ 101 ∷ 100 ∷ [])
      (lower (strip state))

-- `request.body.strip().split("\n", 1)[0].strip()`.
abbrev pub first_line : Text → Text
first_line body = strip (split 10 (strip body)).0

abbrev pub subscription_state_name : Text
subscription_state_name =
    83 ∷ 117 ∷ 98 ∷ 115 ∷ 99 ∷ 114 ∷ 105 ∷ 112 ∷ 116 ∷ 105 ∷ 111 ∷ 110 ∷ 45 ∷ 83 ∷ 116 ∷ 97 ∷ 116
    ∷ 101 ∷ []

-- `\s+` begins the text.
abbrev pub is_gap : Text → Bool
is_gap [] = false
is_gap (c ∷ cs) = is_space c

-- The match of `_SIPFRAG_STATUS`: the three digits, and what is behind them.
unfoldable pub sipfrag_parts : Text → Option (Text × Text)
sipfrag_parts line =
    let rest = drop 7 line in
    let digits = take 3 (skip_spaces rest) in
    if starts_with (83 ∷ 73 ∷ 80 ∷ 47 ∷ 50 ∷ 46 ∷ 48 ∷ []) line
      && (is_gap rest && (length digits == 3 && all is_digit digits))
    then some (digits, drop 3 (skip_spaces rest))
    else none

-- `parse_notify_sipfrag`.
unfoldable pub parse_notify_sipfrag : SipRequest → Result ReferError NotifyProgress
parse_notify_sipfrag request = do
  state ← or_fail (header request.headers subscription_state_name) no_subscription_state
  (digits, rest) ← or_fail (sipfrag_parts (first_line request.body)) no_status_line
  ok (record { status_code = read 0 digits; reason = strip rest; terminated = is_terminated state })
