-- ===== src/Dialog/Ends.antt =====
-- src/hermes_voip/dialog.py: the two ends of a call make the same dialog of its INVITE, and read the
-- identities that are written.
use hermes_voip.Base.{
  ℕ, ◌≡◌, refl, sym, ap, ◌∙◌, true, false, ◌==◌, List, [], ◌∷◌, ◌++◌, Option, some, Result, ok,
  arith, ◌>>=◌,
}
use hermes_voip.Base.Text.{Text, any, all, is_empty, partition, strip}
use hermes_voip.Message.{Headers, header}
use hermes_voip.Message.Parse.{SipRequest, SipResponse}
use hermes_voip.Message.Parse.Lines.{partition-first}
use hermes_voip.Transaction.{from_name, to_name, call_id_name}
use hermes_voip.Address.{
  find_name_addr, name_addr_parts, name_addr_from, outside, advance, split_from, split_params,
  find_tag, tag_param, is_tag, is_tag_char, strip_blanks, is_blank, skip_blanks, drop_blanks,
}
use hermes_voip.Address.Quoting.{close_angle-first}
use hermes_voip.Dialog.{
  Dialog, DialogError, require, addr_of, addr_spec, tag_of, uri_and_tag, from_invite_2xx,
  from_inbound_invite, record_route_set, reverse,
}

-- The address and the tag in a header.
abbrev pub identity_of : Headers → Text → Result DialogError (Text × Option Text)
identity_of hs name = do value ← require hs name; uri_and_tag value

from_inbound_invite-parts :
    (invite : SipRequest) (tag contact sent_by transport agent : Text) (d : Dialog)
    → from_inbound_invite invite tag contact sent_by transport agent ≡ ok d
    → (header invite.headers call_id_name ≡ some d.call_id)
      × (identity_of invite.headers from_name ≡ ok (d.remote_uri, some d.remote_tag))
      × (d.local_tag ≡ tag)
      × (d.route_set ≡ record_route_set invite.headers)
unfolding from_inbound_invite
from_inbound_invite-parts invite tag contact sent_by transport agent d h =
    (ground arith, ground arith, ground arith, ground arith)

from_invite_2xx-parts :
    (invite : SipRequest) (response : SipResponse) (d : Dialog)
    → from_invite_2xx invite response ≡ ok d
    → (header invite.headers call_id_name ≡ some d.call_id)
      × (identity_of invite.headers from_name ≡ ok (d.local_uri, some d.local_tag))
      × (identity_of response.headers to_name ≡ ok (d.remote_uri, some d.remote_tag))
      × (d.route_set ≡ reverse (record_route_set response.headers))
unfolding from_invite_2xx
from_invite_2xx-parts invite response d h = (ground arith, ground arith, ground arith, ground arith)

some-injective : {s t : Text} → some s ≡ some t → s ≡ t
some-injective e = cc

identity-injective :
    (u v : Text) (s t : Text) (r : Result DialogError (Text × Option Text))
    → r ≡ ok (u, some s)
    → r ≡ ok (v, some t)
    → (u ≡ v) × (s ≡ t)
identity-injective u v s t r h k =
    let same : r ≡ r = refl in (ground (arith, h, k), ground (arith, h, k))

-- The caller and the callee of one INVITE make the same dialog of it: the Call-ID is the same, each
-- one's own tag is the other's remote tag, the caller's address is the callee's peer, and the routes
-- of the one are those of the other in reverse. The response has the tag that the callee drew, and
-- the Record-Route headers of the INVITE.
pub from_invite_2xx-from_inbound_invite :
    (invite : SipRequest) (response : SipResponse) (tag contact sent_by transport agent uri : Text)
    (d e : Dialog)
    → from_invite_2xx invite response ≡ ok d
    → from_inbound_invite invite tag contact sent_by transport agent ≡ ok e
    → identity_of response.headers to_name ≡ ok (uri, some tag)
    → record_route_set response.headers ≡ record_route_set invite.headers
    → (d.call_id ≡ e.call_id)
      × (d.local_tag ≡ e.remote_tag)
      × (d.remote_tag ≡ e.local_tag)
      × (d.local_uri ≡ e.remote_uri)
      × (d.route_set ≡ reverse e.route_set)
from_invite_2xx-from_inbound_invite invite response tag contact sent_by transport agent uri d e hd
      he ht hr =
    let (id_d, from_d, to_d, route_d) = from_invite_2xx-parts invite response d hd in
    let (id_e, from_e, tag_e, route_e) =
      from_inbound_invite-parts invite tag contact sent_by transport agent e he in
    let (uris, tags) =
      identity-injective d.local_uri e.remote_uri d.local_tag e.remote_tag
        (identity_of invite.headers from_name) from_d from_e in
    let (u, minted) =
      identity-injective d.remote_uri uri d.remote_tag tag (identity_of response.headers to_name)
        to_d ht in
    (
      some-injective (sym id_d ∙ id_e),
      tags,
      minted ∙ sym tag_e,
      uris,
      route_d ∙ ap (λ (rs : List Text). reverse rs) (hr ∙ sym route_e),
    )

tag-split_from : (t : Text) → all is_tag_char t ≡ true → split_from outside t ≡ (t, [])
unfolding split_from advance
tag-split_from [] h = refl
tag-split_from (c ∷ cs) h =
    let separator : (c == 59) ≡ false = ground arith in
    let mark : (c == 34) ≡ false = ground arith in
    let rest = tag-split_from cs (ground arith) in
    rw (split_from, separator, advance, mark, rest) refl

tag-skip_blanks : (t : Text) → all is_tag_char t ≡ true → skip_blanks t ≡ t
tag-skip_blanks [] h = refl
tag-skip_blanks (c ∷ cs) h = let solid : is_blank c ≡ false = ground arith in rw solid refl

tag-drop_blanks : (t : Text) → all is_tag_char t ≡ true → drop_blanks t ≡ t
tag-drop_blanks [] h = refl
tag-drop_blanks (c ∷ []) h = let solid : is_blank c ≡ false = ground arith in rw solid refl
tag-drop_blanks (c ∷ d ∷ ds) h =
    let rest = tag-drop_blanks (d ∷ ds) (ground arith) in rw (drop_blanks, rest) refl

tag-strip_blanks : (t : Text) → all is_tag_char t ≡ true → strip_blanks t ≡ t
tag-strip_blanks t h = rw (tag-skip_blanks t h) (tag-drop_blanks t h)

tag-split_params :
    (tag : Text)
    → all is_tag_char tag ≡ true
    → split_params (59 ∷ 116 ∷ 97 ∷ 103 ∷ 61 ∷ tag) ≡ [] ∷ (116 ∷ 97 ∷ 103 ∷ 61 ∷ tag) ∷ []
unfolding split_params split_from advance
tag-split_params tag h = rw (tag-split_from tag h) refl

tag-find_tag :
    (tag : Text) → is_tag tag ≡ true → find_tag ((116 ∷ 97 ∷ 103 ∷ 61 ∷ tag) ∷ []) ≡ some tag
unfolding find_tag
tag-find_tag tag h =
    let chars : all is_tag_char tag ≡ true = ground arith in
    let parted = partition-first 61 (116 ∷ 97 ∷ 103 ∷ []) tag refl in
    rw (find_tag, parted, tag-strip_blanks tag chars, h) refl

find_tag-empty : (parts : List Text) → find_tag ([] ∷ parts) ≡ find_tag parts
unfolding find_tag partition
find_tag-empty parts = refl

tag_param-written :
    (tag : Text) → is_tag tag ≡ true → tag_param (59 ∷ 116 ∷ 97 ∷ 103 ∷ 61 ∷ tag) ≡ some tag
unfolding tag_param
tag_param-written tag h =
    ap (λ (parts : List Text). find_tag parts) (tag-split_params tag (ground arith))
    ∙ find_tag-empty ((116 ∷ 97 ∷ 103 ∷ 61 ∷ tag) ∷ [])
    ∙ tag-find_tag tag h

name_addr_parts-angle :
    (uri tail : Text)
    → any (λ (c : ℕ). c == 62) uri ≡ false
    → name_addr_parts (60 ∷ (uri ++ (62 ∷ tail))) ≡ some ([], uri, tail)
unfolding name_addr_parts name_addr_from
name_addr_parts-angle uri tail b = close_angle-first uri tail b

find_name_addr-angle :
    (uri tail : Text)
    → any (λ (c : ℕ). c == 62) uri ≡ false
    → find_name_addr (60 ∷ (uri ++ (62 ∷ tail))) ≡ some (uri, tail)
unfolding find_name_addr
find_name_addr-angle uri tail b = rw (find_name_addr, name_addr_parts-angle uri tail b) refl

addr_spec-found :
    (value spec tail : Text)
    → find_name_addr value ≡ some (spec, tail)
    → strip spec ≡ spec
    → is_empty spec ≡ false
    → addr_spec value ≡ ok spec
unfolding addr_spec
addr_spec-found value spec tail found s f =
    let named : addr_of value ≡ spec = rw (addr_of, found) s in rw (addr_spec, named, f) refl

tag_of-found :
    (value spec tail : Text)
    → find_name_addr value ≡ some (spec, tail)
    → tag_of value ≡ tag_param tail
unfolding tag_of
tag_of-found value spec tail found = rw (tag_of, found) refl

-- The tag of such a header.
pub tag_of-written :
    (uri tag : Text)
    → any (λ (c : ℕ). c == 62) uri ≡ false
    → is_tag tag ≡ true
    → tag_of (60 ∷ (uri ++ (62 ∷ 59 ∷ 116 ∷ 97 ∷ 103 ∷ 61 ∷ tag))) ≡ some tag
tag_of-written uri tag b t =
    let tail = 59 ∷ 116 ∷ 97 ∷ 103 ∷ 61 ∷ tag in
    tag_of-found (60 ∷ (uri ++ (62 ∷ tail))) uri tail (find_name_addr-angle uri tail b)
    ∙ tag_param-written tag t

-- The header that a dialog writes for an address and a tag is read as that address and that tag. The
-- address is not empty and has no white space about it and no closing bracket; the tag is a token.
pub uri_and_tag-written :
    (uri tag : Text)
    → any (λ (c : ℕ). c == 62) uri ≡ false
    → is_empty uri ≡ false
    → strip uri ≡ uri
    → is_tag tag ≡ true
    → uri_and_tag (60 ∷ (uri ++ (62 ∷ 59 ∷ 116 ∷ 97 ∷ 103 ∷ 61 ∷ [] ++ tag))) ≡ ok (uri, some tag)
unfolding uri_and_tag
uri_and_tag-written uri tag b f s t =
    let value = 60 ∷ (uri ++ (62 ∷ 59 ∷ 116 ∷ 97 ∷ 103 ∷ 61 ∷ tag)) in
    let found = find_name_addr-angle uri (59 ∷ 116 ∷ 97 ∷ 103 ∷ 61 ∷ tag) b in
    rw
      (
        addr_spec-found value uri (59 ∷ 116 ∷ 97 ∷ 103 ∷ 61 ∷ tag) found s f,
        tag_of-found value uri (59 ∷ 116 ∷ 97 ∷ 103 ∷ 61 ∷ tag) found,
        tag_param-written tag t,
      )
      refl
