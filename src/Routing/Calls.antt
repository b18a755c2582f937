-- ===== src/Routing/Calls.antt =====
-- src/hermes_voip/manager.py, src/hermes_voip/dialog.py: the requests of the peer reach the call.
use hermes_voip.Base.{
  ℕ, ◌≡◌, refl, true, false, ◌==◌, List, [], ◌∷◌, ◌++◌, map, some, Bool-cases, arith, inl, inr,
}
use hermes_voip.Base.Text.Laws.{same_text_refl}
use hermes_voip.Base.Text.{Text, any, same_text, lower}
use hermes_voip.Message.{Headers, header}
use hermes_voip.Transaction.{from_name, to_name, call_id_name, route_name}
use hermes_voip.Address.{is_tag}
use hermes_voip.Dialog.{Dialog, dialog_id, request_headers}
use hermes_voip.Dialog.Ends.{tag_of-written}
use hermes_voip.Routing.{
  Manager, Calls, DialogId, same_id, find_call, set_call, add_call, route_in_dialog, route_request,
  in_dialog,
}

same_id_refl : (id : DialogId) → same_id id id ≡ true
same_id_refl (a, b, c) = rw (same_text_refl a, same_text_refl b, same_text_refl c) refl

find_call-set_call :
    (calls : Calls) (id : DialogId) (consumer : ℕ)
    → find_call (set_call calls id consumer) id ≡ some consumer
unfolding find_call set_call
find_call-set_call [] id consumer = rw (same_id_refl id) refl
find_call-set_call ((key, old) ∷ calls) id consumer = elim (Bool-cases (same_id key id)) [
  | inl same ↦ rw (set_call, same, find_call, same) refl
  | inr other ↦ rw (set_call, other, find_call, other) (find_call-set_call calls id consumer)
]

header-routes :
    (routes : List Text) (hs : Headers) (name : Text)
    → same_text (lower route_name) (lower name) ≡ false
    → header (map (λ (route : Text). (route_name, route)) routes ++ hs) name ≡ header hs name
unfolding header
header-routes [] hs name h = refl
header-routes (r ∷ rs) hs name h = rw (header, h) (header-routes rs hs name h)

header-append :
    (hs tail : Headers) (name v : Text)
    → header hs name ≡ some v
    → header (hs ++ tail) name ≡ some v
unfolding header
header-append [] tail name v h = absurd (ground arith)
header-append ((n, w) ∷ hs) tail name v h = elim (Bool-cases (same_text (lower n) (lower name))) [
  | inl found ↦ rw (header, found) (rw (found) at h)
  | inr other ↦ rw (header, other) (header-append hs tail name v (rw (other) at h))
]

-- What the headers of an in-dialog request say.
module _ (d : Dialog) (method : Text) (extra_headers : Headers) (branch : Text) where
  to_header :
      header (request_headers d method extra_headers branch) to_name
      ≡ some (60 ∷ (d.remote_uri ++ (62 ∷ 59 ∷ 116 ∷ 97 ∷ 103 ∷ 61 ∷ d.remote_tag)))
  unfolding header request_headers
  to_header = header-routes d.route_set _ to_name refl

  from_header :
      header (request_headers d method extra_headers branch) from_name
      ≡ some (60 ∷ (d.local_uri ++ (62 ∷ 59 ∷ 116 ∷ 97 ∷ 103 ∷ 61 ∷ d.local_tag)))
  unfolding header request_headers
  from_header = header-routes d.route_set _ from_name refl

  call_id_header :
      header (request_headers d method extra_headers branch) call_id_name ≡ some d.call_id
  unfolding header request_headers
  call_id_header = header-routes d.route_set _ call_id_name refl

-- A request that one end sends inside a dialog is routed by the other to the call that it registered
-- under its own view of the dialog, and to no new call: the Call-ID is the same and the tags are
-- swapped. The tags are tokens, and the addresses have no closing bracket.
pub route_request-request_headers :
    (m : Manager) (d e : Dialog) (consumer : ℕ) (method : Text) (extra_headers tail : Headers)
    (branch uri body : Text)
    → d.call_id ≡ e.call_id
    → d.local_tag ≡ e.remote_tag
    → d.remote_tag ≡ e.local_tag
    → any (λ (c : ℕ). c == 62) d.local_uri ≡ false
    → any (λ (c : ℕ). c == 62) d.remote_uri ≡ false
    → is_tag d.local_tag ≡ true
    → is_tag d.remote_tag ≡ true
    → route_request (add_call m (dialog_id e) consumer) (record {
      method = method;
      request_uri = uri;
      headers = request_headers d method extra_headers branch ++ tail;
      body = body;
    })
      ≡ in_dialog consumer (record {
        method = method;
        request_uri = uri;
        headers = request_headers d method extra_headers branch ++ tail;
        body = body;
      })
unfolding route_request route_in_dialog add_call
route_request-request_headers m d e consumer method extra_headers tail branch uri body same_call
      local remote clean_local clean_remote local_token remote_token =
    let hs = request_headers d method extra_headers branch in
    let calls = set_call m.calls (dialog_id e) consumer in
    let found : find_call calls (d.call_id, d.remote_tag, d.local_tag) ≡ some consumer =
      rw (same_call, remote, local) (find_call-set_call m.calls (dialog_id e) consumer) in
    rw
      (
        route_request,
        header-append hs tail to_name _ (to_header d method extra_headers branch),
        tag_of-written d.remote_uri d.remote_tag clean_remote remote_token,
        route_in_dialog,
        header-append hs tail call_id_name _ (call_id_header d method extra_headers branch),
        header-append hs tail from_name _ (from_header d method extra_headers branch),
        tag_of-written d.local_uri d.local_tag clean_local local_token,
        found,
      )
      refl
