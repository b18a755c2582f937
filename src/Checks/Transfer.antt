-- ===== src/Checks/Transfer.antt =====
-- src/hermes_voip/refer.py: small transfers.
use hermes_voip.Base.{
  ℕ, ◌≤◌, ◌<◌, ◌≡◌, ◌⊎◌, inl, inr, ◌==◌, refl, Bool, true, false, List, [], ◌∷◌, ◌++◌, length, All,
  Option, none, some, Result, ok, err, arith,
}
use hermes_voip.Base.Text.{Text, any, split, strip, skip_spaces, partition, drop_end, show}
use hermes_voip.Base.Percent.{unquote}
use hermes_voip.Message.{header, headers_all}
use hermes_voip.Message.Parse.{SipRequest, parse_request}
use hermes_voip.Digest.RoundTrip.{is_ascii_word}
use hermes_voip.Dialog.{Dialog, build_in_dialog_request, request_headers}
use hermes_voip.Transfer.{
  NotifyProgress, header_value, classify_transfer_progress, completed, failed,
}
use hermes_voip.Transfer.Target.{
  validate_transfer_target, check_characters, is_dialable, uri_parts, is_clean_uri, is_authority,
}
use hermes_voip.Transfer.Target.Safe.{IsHarmless, HasCleanUri, validate_transfer_target-IsHarmless}
use hermes_voip.Transfer.Requests.{
  angled, attended_target, build_blind_refer, match_replaces, parse_refer, parse_notify_sipfrag,
  refer_to_name, replaces_of, replaces_name, subscription_state_name, refer_method, sipfrag_parts,
}
use hermes_voip.Transfer.Replaces.{IsClean, IsField, FindsMirror, match_replaces-FindsMirror}
use hermes_voip.Transfer.Deliver.{parse_refer-attended_target}
use hermes_voip.Transfer.Blind.{parse_refer-build_blind_refer, authorization_name}
use hermes_voip.Transfer.Progress.{EndsBetween, classify_transfer_progress-EndsBetween}
use hermes_voip.Checks.Calls.{routed}

-- The URI `sip:b@q`.
abbrev target : Text
target = 115 ∷ 105 ∷ 112 ∷ 58 ∷ 98 ∷ 64 ∷ 113 ∷ []

validate_transfer_target-IsHarmless_example :
    (length target ≤ 256)
    × IsHarmless target
    × IsHarmless (unquote target)
    × (any (λ (c : ℕ). c == 63) target ≡ false)
    × ((is_dialable target ≡ true) ⊎ HasCleanUri target)
unfolding validate_transfer_target check_characters unquote hermes_voip.Base.Percent.decode_items
    hermes_voip.Base.Percent.items hermes_voip.Base.Percent.decode_byte is_dialable is_clean_uri
    uri_parts partition is_authority split
validate_transfer_target-IsHarmless_example = validate_transfer_target-IsHarmless target refl

one_letter : (c : ℕ) → (c ≡ 105) ⊎ ((c ≡ 120) ⊎ (c ≡ 121)) → IsField (c ∷ [])
unfolding strip
one_letter c (inl e) = rw e (record { full = refl; trimmed = refl; closed = refl })
one_letter c (inr (inl e)) = rw e (record { full = refl; trimmed = refl; closed = refl })
one_letter c (inr (inr e)) = rw e (record { full = refl; trimmed = refl; closed = refl })

routed-IsClean : IsClean (replaces_of routed)
routed-IsClean = record {
  call_id_field = one_letter 105 (inl refl);
  to_field = one_letter 121 (inr (inr refl));
  from_field = one_letter 120 (inr (inl refl));
}

-- The other end of `routed`.
abbrev mirror : Dialog
mirror = record routed { local_tag = routed.remote_tag; remote_tag = routed.local_tag }

abbrev replacing : SipRequest
replacing = record {
  method = 73 ∷ [];
  request_uri = target;
  headers = (replaces_name, header_value (replaces_of routed)) ∷ [];
  body = [];
}

match_replaces-FindsMirror_example :
    (found : Option Dialog) × (match_replaces replacing (routed ∷ mirror ∷ []) ≡ ok found)
    × FindsMirror routed (routed ∷ mirror ∷ []) found
unfolding header
match_replaces-FindsMirror_example =
    match_replaces-FindsMirror replacing routed (routed ∷ mirror ∷ []) routed-IsClean refl

abbrev attended : SipRequest
attended = record {
  method = refer_method;
  request_uri = target;
  headers = (refer_to_name, angled (attended_target routed)) ∷ [];
  body = [];
}

parse_refer-attended_target_example :
    parse_refer attended
    ≡ ok (record { refer_to = target; replaces = some (replaces_of routed); referred_by = none })
unfolding validate_transfer_target header_value check_characters unquote
    hermes_voip.Base.Percent.decode_items hermes_voip.Base.Percent.items
    hermes_voip.Base.Percent.decode_byte is_dialable is_clean_uri uri_parts partition is_authority
    split headers_all header
parse_refer-attended_target_example =
    parse_refer-attended_target attended routed refl routed-IsClean refl refl

-- A re-send with a referrer and the answer to a challenge.
abbrev agent : Text
agent = 115 ∷ 105 ∷ 112 ∷ 58 ∷ 97 ∷ 64 ∷ 104 ∷ []

abbrev credentials : Text × Text
credentials = (authorization_name, 68 ∷ [])

abbrev blind : Text
blind =
    elim (build_blind_refer is_ascii_word routed target (some agent) (some credentials)
      (122 ∷ [])) [ ok (text, e) ↦ text | err e ↦ [] ]

parse_refer-build_blind_refer_example :
    (request : SipRequest) × (parse_request blind ≡ ok request)
    × (parse_refer request
        ≡ ok (record { refer_to = target; replaces = none; referred_by = some agent }))
unfolding validate_transfer_target check_characters unquote hermes_voip.Base.Percent.decode_items
    hermes_voip.Base.Percent.items hermes_voip.Base.Percent.decode_byte is_dialable is_clean_uri
    uri_parts partition is_authority split build_blind_refer build_in_dialog_request
    hermes_voip.Dialog.has_lr hermes_voip.Message.build_request request_headers show strip
    skip_spaces hermes_voip.Transfer.wrap_uri
parse_refer-build_blind_refer_example =
    parse_refer-build_blind_refer is_ascii_word routed (record routed { local_cseq = 8 }) target
      (122 ∷ []) blind (some agent) (some credentials) refl refl
      (
        refl,
        (refl, (refl, (refl, (refl, (refl, (refl, (refl, (refl, (refl, (refl, (refl, tt))))))))))),
      )
      (refl, refl) (inl refl)

-- `terminated` and `SIP/2.0 200 OK`.
abbrev notify : SipRequest
notify = record {
  method = 78 ∷ [];
  request_uri = target;
  headers =
      (subscription_state_name, 116 ∷ 101 ∷ 114 ∷ 109 ∷ 105 ∷ 110 ∷ 97 ∷ 116 ∷ 101 ∷ 100 ∷ []) ∷ [];
  body = 83 ∷ 73 ∷ 80 ∷ 47 ∷ 50 ∷ 46 ∷ 48 ∷ 32 ∷ 50 ∷ 48 ∷ 48 ∷ 32 ∷ 79 ∷ 75 ∷ [];
}

abbrev reached : NotifyProgress
reached = record { status_code = 200; reason = 79 ∷ 75 ∷ []; terminated = true }

classify_transfer_progress-EndsBetween_example :
    (classify_transfer_progress (some reached) ≡ completed → EndsBetween 200 300 notify)
    × (classify_transfer_progress (some reached) ≡ failed → EndsBetween 300 700 notify)
unfolding parse_notify_sipfrag header sipfrag_parts strip split hermes_voip.Base.Text.read
classify_transfer_progress-EndsBetween_example =
    classify_transfer_progress-EndsBetween notify reached refl
