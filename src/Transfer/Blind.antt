-- ===== src/Transfer/Blind.antt =====
-- src/hermes_voip/refer.py over src/hermes_voip/dialog.py and src/hermes_voip/message.py: the text of a
-- blind REFER, from the transferor's dialog to what the transferee reads of it.
use hermes_voip.Base.{
  ℕ, ◌≡◌, refl, ◌∙◌, Bool, false, List, [], ◌∷◌, ◌++◌, Option, none, some, ok, arith, All,
  Result-cases, inl, inr,
}
use hermes_voip.Base.Text.{Text, any, is_space}
use hermes_voip.Message.{Headers, header, headers_all}
use hermes_voip.Message.Parse.{SipRequest, parse_request}
use hermes_voip.Message.Parse.RoundTrip.{IsTrimmed, length_header}
use hermes_voip.Dialog.{Dialog, build_in_dialog_request, request_headers}
use hermes_voip.Dialog.Requests.{parse_request-build_in_dialog_request}
use hermes_voip.Transfer.Target.{validate_transfer_target}
use hermes_voip.Transfer.Requests.{
  build_blind_refer, parse_refer, refer_to_name, referred_by_name, refer_method, refer_extra,
  angled, referrer,
}
use hermes_voip.Transfer.Deliver.{parse_refer-angled, bracketed_uri-angled}
use hermes_voip.Transfer.Target.{is_angle}
use hermes_voip.Transfer.{wrap_uri}
use hermes_voip.Dialog.Received.{header-behind_routes, headers_all-behind_routes}
use hermes_voip.Base.{ap, ◌⊎◌, ◌==◌, Option}

-- The names of the headers that answer a challenge.
abbrev pub authorization_name : Text
authorization_name = 65 ∷ 117 ∷ 116 ∷ 104 ∷ 111 ∷ 114 ∷ 105 ∷ 122 ∷ 97 ∷ 116 ∷ 105 ∷ 111 ∷ 110 ∷ []

abbrev pub proxy_authorization_name : Text
proxy_authorization_name = 80 ∷ 114 ∷ 111 ∷ 120 ∷ 121 ∷ 45 ∷ authorization_name

-- What a re-send after a challenge adds.
abbrev pub IsAnswer : Option (Text × Text) → Type 0
IsAnswer none = Unit {0}
IsAnswer (some (name, value)) = (name ≡ authorization_name) ⊎ (name ≡ proxy_authorization_name)

-- A referrer is not written with brackets or white space.
abbrev pub IsReferrer : Option Text → Type 0
IsReferrer none = Unit {0}
IsReferrer (some uri) = (any is_angle uri ≡ false) × (any is_space uri ≡ false)

abbrev auth_headers : Option (Text × Text) → Headers
auth_headers auth = elim auth [ none ↦ [] | some field ↦ field ∷ [] ]

no_refer_to :
    (auth : Option (Text × Text))
    → IsAnswer auth
    → headers_all (auth_headers auth ++ length_header [] ∷ []) refer_to_name ≡ []
unfolding headers_all
no_refer_to none h = refl
no_refer_to (some (name, value)) (inl e) = rw e refl
no_refer_to (some (name, value)) (inr e) = rw e refl

no_referred_by :
    (auth : Option (Text × Text))
    → IsAnswer auth
    → header (auth_headers auth ++ length_header [] ∷ []) referred_by_name ≡ none
unfolding header
no_referred_by none h = refl
no_referred_by (some (name, value)) (inl e) = rw e refl
no_referred_by (some (name, value)) (inr e) = rw e refl

-- The headers of the request as it is parsed.
abbrev received : Dialog → Text → Option Text → Option (Text × Text) → Text → Headers
received d value referred_by auth branch =
    request_headers d refer_method (refer_extra value referred_by auth) branch
    ++ length_header [] ∷ []

-- The request has one Refer-To.
one_refer_to :
    (d : Dialog) (value branch : Text) (referred_by : Option Text) (auth : Option (Text × Text))
    → IsAnswer auth
    → headers_all (received d value referred_by auth branch) refer_to_name ≡ value ∷ []
unfolding headers_all request_headers
one_refer_to d value branch none auth h =
    headers_all-behind_routes d.route_set _ (length_header [] ∷ []) refer_to_name refl
    ∙ ap (λ (t : List Text). value ∷ t) (no_refer_to auth h)
one_refer_to d value branch (some uri) auth h =
    headers_all-behind_routes d.route_set _ (length_header [] ∷ []) refer_to_name refl
    ∙ ap (λ (t : List Text). value ∷ t) (no_refer_to auth h)

wrap_uri-angled : (uri : Text) → any is_angle uri ≡ false → wrap_uri uri ≡ angled uri
unfolding wrap_uri
wrap_uri-angled [] closed = refl
wrap_uri-angled (c ∷ cs) closed = let plain : (c == 60) ≡ false = ground arith in rw plain refl

wrapped_lem :
    (uri : Text)
    → any is_angle uri ≡ false
    → any is_space uri ≡ false
    → referrer (some (wrap_uri uri)) ≡ some uri
wrapped_lem uri closed solid =
    ap (λ (t : Text). referrer (some t)) (wrap_uri-angled uri closed)
    ∙ ap (λ (t : Text). some t) (bracketed_uri-angled uri closed solid)

-- Its referrer is the one that is given.
referrer_lem :
    (d : Dialog) (value branch : Text) (referred_by : Option Text) (auth : Option (Text × Text))
    → IsAnswer auth
    → IsReferrer referred_by
    → referrer (header (received d value referred_by auth branch) referred_by_name) ≡ referred_by
unfolding header request_headers
referrer_lem d value branch none auth h clean = ap referrer (
    header-behind_routes d.route_set _ (length_header [] ∷ []) referred_by_name refl
    ∙ no_referred_by auth h)
referrer_lem d value branch (some uri) auth h (closed, solid) =
    ap referrer (header-behind_routes d.route_set _ (length_header [] ∷ []) referred_by_name refl)
    ∙ wrapped_lem uri closed solid

module _ (is_word : ℕ → Bool) where
  blind_parts :
      (d e : Dialog) (target branch text : Text) (referred_by : Option Text)
      (auth : Option (Text × Text))
      → build_blind_refer is_word d target referred_by auth branch ≡ ok (text, e)
      → (validate_transfer_target target ≡ ok tt)
        × (build_in_dialog_request is_word d refer_method
              (refer_extra (angled target) referred_by auth)
              []
              branch
            ≡ ok (text, e))
  unfolding build_blind_refer
  blind_parts d e target branch text referred_by auth h =
      elim (Result-cases (validate_transfer_target target)) [
        | inr (x, bad) ↦ absurd (ground (arith, bad))
        | inl (u, good) ↦
            elim (Result-cases (
              build_in_dialog_request is_word d refer_method
                (refer_extra (angled target) referred_by auth) [] branch)) [
                  | inr (x, bad) ↦ absurd (ground (arith, good, bad))
                  | inl (built, made) ↦ (good, made ∙ ground (arith, good, made))
                ]
      ]

  -- From the agent's target to the transferee: if a blind REFER is built, the first time or with the
  -- answer to a challenge, its text is parsed as a request of which the transferee reads the agent's
  -- target, no Replaces, and the given referrer, or none if none is given. The peer's contact has no
  -- white space, the headers are trimmed, the referrer has no angle bracket and no white space, and
  -- the answer is an Authorization or a Proxy-Authorization.
  pub parse_refer-build_blind_refer :
      (d e : Dialog) (target branch text : Text) (referred_by : Option Text)
      (auth : Option (Text × Text))
      → build_blind_refer is_word d target referred_by auth branch ≡ ok (text, e)
      → any is_space d.remote_target ≡ false
      → All IsTrimmed
          (request_headers d refer_method (refer_extra (angled target) referred_by auth) branch)
      → IsReferrer referred_by
      → IsAnswer auth
      → (request : SipRequest) × (parse_request text ≡ ok request)
        × (parse_refer request
            ≡ ok (record { refer_to = target; replaces = none; referred_by = referred_by }))
  parse_refer-build_blind_refer d e target branch text referred_by auth h solid trimmed clean
        answers =
      let (good, built) = blind_parts d e target branch text referred_by auth h in
      let extra = refer_extra (angled target) referred_by auth in
      let (read, _, _) =
        parse_request-build_in_dialog_request is_word d e refer_method extra [] branch text built
          solid trimmed in
      let request : SipRequest = record {
        method = refer_method;
        request_uri = d.remote_target;
        headers = received d (angled target) referred_by auth branch;
        body = [];
      } in
      let sender = referrer_lem d (angled target) branch referred_by auth answers clean in
      (
        request,
        read,
        parse_refer-angled request target good
              (one_refer_to d (angled target) branch referred_by auth answers)
            ∙ ap
                (λ (o : Option Text).
                  ok (record { refer_to = target; replaces = none; referred_by = o }))
                sender,
      )
