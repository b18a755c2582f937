-- ===== src/Dialog/Received.antt =====
-- src/hermes_voip/dialog.py over src/hermes_voip/message.py: what the peer reads of a request in a dialog.
use hermes_voip.Base.{
  ℕ, ◌+◌, ◌<◌, ◌≡◌, refl, ap, ◌∙◌, Bool, true, false, ◌==◌, map, List, [], ◌∷◌, ◌++◌, All, some, ok,
  arith, append-nil,
}
use hermes_voip.Base.Text.{Text, any, is_space, is_empty, strip, decimal, same_text, lower}
use hermes_voip.Message.{Headers, header, headers_all}
use hermes_voip.Message.Parse.{SipRequest, parse_request}
use hermes_voip.Message.Parse.RoundTrip.{IsTrimmed, length_header}
use hermes_voip.Transaction.{cseq_name, route_name, from_name, to_name, call_id_name}
use hermes_voip.Address.{is_tag}
use hermes_voip.Dialog.{
  Dialog, build_in_dialog_request, request_headers, max_cseq, uri_and_tag, contact_name,
}
use hermes_voip.Dialog.Ends.{uri_and_tag-written}
use hermes_voip.Dialog.Requests.{parse_request-build_in_dialog_request}

-- A header of another name is looked for behind the routes.
pub header-behind_routes :
    (routes : List Text) (hs gs : Headers) (name : Text)
    → same_text (lower route_name) (lower name) ≡ false
    → header ((map (λ (route : Text). (route_name, route)) routes ++ hs) ++ gs) name
      ≡ header (hs ++ gs) name
unfolding header
header-behind_routes [] hs gs name h = refl
header-behind_routes (r ∷ rs) hs gs name h = rw h (header-behind_routes rs hs gs name h)

pub headers_all-behind_routes :
    (routes : List Text) (hs gs : Headers) (name : Text)
    → same_text (lower route_name) (lower name) ≡ false
    → headers_all ((map (λ (route : Text). (route_name, route)) routes ++ hs) ++ gs) name
      ≡ headers_all (hs ++ gs) name
unfolding headers_all
headers_all-behind_routes [] hs gs name h = refl
headers_all-behind_routes (r ∷ rs) hs gs name h = rw h (headers_all-behind_routes rs hs gs name h)

headers_all-routes :
    (routes : List Text) (hs gs : Headers)
    → headers_all ((map (λ (route : Text). (route_name, route)) routes ++ hs) ++ gs) route_name
      ≡ routes ++ headers_all (hs ++ gs) route_name
unfolding headers_all
headers_all-routes [] hs gs = refl
headers_all-routes (r ∷ rs) hs gs = ap (λ t. r ∷ t) (headers_all-routes rs hs gs)

pub headers_all-append :
    (hs gs : Headers) (name : Text)
    → headers_all (hs ++ gs) name ≡ headers_all hs name ++ headers_all gs name
unfolding headers_all
headers_all-append [] gs name = refl
headers_all-append ((n, v) ∷ hs) gs name = ground (arith, headers_all-append hs gs name)

-- An address that a dialog writes between angle brackets, with its tag.
pub record IsWritten (uri tag : Text) : Type 0 where
  pub open_angle : any (λ (c : ℕ). c == 62) uri ≡ false
  pub full : is_empty uri ≡ false
  pub trimmed : strip uri ≡ uri
  pub token : is_tag tag ≡ true

-- A header of the name is there, and is read as the address with the tag.
abbrev pub Names : SipRequest → Text → Text → Text → Type 0
Names request name uri tag =
    (value : Text) × (header request.headers name ≡ some value)
    × (uri_and_tag value ≡ ok (uri, some tag))

-- What the peer reads of a request: the fields of the dialog, and the order's own.
pub record IsFromDialog (d : Dialog) (method : Text) (extra_headers : Headers) (body : Text)
    (request : SipRequest) : Type 0 where
  pub method_lem : request.method ≡ method
  pub target : request.request_uri ≡ d.remote_target
  pub content : request.body ≡ body
  pub routes :
      headers_all request.headers route_name ≡ d.route_set ++ headers_all extra_headers route_name
  pub sender : Names request from_name d.local_uri d.local_tag
  pub receiver : Names request to_name d.remote_uri d.remote_tag
  pub call : header request.headers call_id_name ≡ some d.call_id
  pub number : header request.headers cseq_name ≡ some (decimal (d.local_cseq + 1) ++ (32 ∷ method))
  pub contact : header request.headers contact_name ≡ some d.local_contact

abbrev read_as : Dialog → Text → Headers → Text → Text → SipRequest
read_as d method extra_headers body branch = record {
  method = method;
  request_uri = d.remote_target;
  headers = request_headers d method extra_headers branch ++ length_header body ∷ [];
  body = body;
}

read_as-IsFromDialog :
    (d : Dialog) (method : Text) (extra_headers : Headers) (body branch : Text)
    → IsWritten d.local_uri d.local_tag
    → IsWritten d.remote_uri d.remote_tag
    → IsFromDialog d method extra_headers body (read_as d method extra_headers body branch)
unfolding header headers_all request_headers
read_as-IsFromDialog d method extra_headers body branch here there = record {
  method_lem = refl;
  target = refl;
  content = refl;
  routes =
      headers_all-routes d.route_set _ (length_header body ∷ [])
      ∙ ap (λ (t : List Text). d.route_set ++ t)
          (headers_all-append extra_headers (length_header body ∷ []) route_name ∙ append-nil _);
  sender = (
    _,
    header-behind_routes d.route_set _ (length_header body ∷ []) from_name refl,
    uri_and_tag-written d.local_uri d.local_tag here.open_angle here.full here.trimmed here.token,
  );
  receiver = (
    _,
    header-behind_routes d.route_set _ (length_header body ∷ []) to_name refl,
    uri_and_tag-written d.remote_uri d.remote_tag there.open_angle there.full there.trimmed
        there.token,
  );
  call = header-behind_routes d.route_set _ (length_header body ∷ []) call_id_name refl;
  number = header-behind_routes d.route_set _ (length_header body ∷ []) cseq_name refl;
  contact = header-behind_routes d.route_set _ (length_header body ∷ []) contact_name refl;
}

module _ (is_word : ℕ → Bool) where
  -- What is sent inside a dialog is read by the peer as a request of its method and body for the
  -- peer's target: its routes are those of the dialog in their order, in front of the order's own,
  -- its From and To are read as the addresses and tags of the two ends, and it carries the Call-ID,
  -- the next CSeq and the Contact of the dialog. Of the dialog only the CSeq moves, by one, and it
  -- stays below its bound. The target has no white space, the values of the headers have none about
  -- them, and the addresses are not empty, trimmed, without a closing bracket, and tagged by tokens.
  pub build_in_dialog_request-IsFromDialog :
      (d e : Dialog) (method : Text) (extra_headers : Headers) (body branch text : Text)
      → build_in_dialog_request is_word d method extra_headers body branch ≡ ok (text, e)
      → any is_space d.remote_target ≡ false
      → All IsTrimmed (request_headers d method extra_headers branch)
      → IsWritten d.local_uri d.local_tag
      → IsWritten d.remote_uri d.remote_tag
      → (request : SipRequest) × (parse_request text ≡ ok request)
        × IsFromDialog d method extra_headers body request
        × (e ≡ record d { local_cseq = d.local_cseq + 1 })
        × (e.local_cseq < max_cseq)
  build_in_dialog_request-IsFromDialog d e method extra_headers body branch text h solid trimmed
        here there =
      let (read, moved, room) =
        parse_request-build_in_dialog_request is_word d e method extra_headers body branch text h
          solid trimmed in
      (
        read_as d method extra_headers body branch,
        read,
        read_as-IsFromDialog d method extra_headers body branch here there,
        moved,
        room,
      )
