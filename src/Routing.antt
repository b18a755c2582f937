-- ===== src/Routing.antt =====
-- src/hermes_voip/manager.py: where an inbound request goes. A consumer and an extension are numbers
-- that stand for their objects.
pub mod Calls
use hermes_voip.Base.{
  ℕ, Bool, true, false, ◌&&◌, if◌then◌else◌, List, [], ◌∷◌, ◌++◌, Option, none, some,
}
use hermes_voip.Base.Text.{Text, strip, same_text, is_empty, partition, split}
use hermes_voip.Message.{header}
use hermes_voip.Message.Parse.{SipRequest}
use hermes_voip.Transaction.{from_name, to_name, call_id_name, invite_word}
use hermes_voip.Dialog.{tag_of, addr_of}

abbrev pub DialogId : Type 0
DialogId = Text × Text × Text

-- `_calls`, in the order of insertion.
abbrev pub Calls : Type 0
Calls = List (DialogId × ℕ)

-- The fields of `RegistrationManager` that the routing reads: `_calls`, `_by_extension` and the name of
-- the default extension.
pub record Manager : Type 0 where
  pub calls : Calls
  pub extensions : List (Text × ℕ)
  pub default_extension : Text

pub data Reason : Type 0 where
  out_of_dialog incomplete no_dialog no_registration : Reason

pub data RequestRouting : Type 0 where
  new_call in_dialog : ℕ → SipRequest → RequestRouting
  cancel : SipRequest → RequestRouting
  unroutable : SipRequest → Reason → RequestRouting

abbrev pub same_id : DialogId → DialogId → Bool
same_id (a, b, c) (x, y, z) = same_text a x && (same_text b y && same_text c z)

-- `_calls.get`.
unfoldable pub find_call : Calls → DialogId → Option ℕ
find_call [] id = none
find_call ((key, consumer) ∷ calls) id =
    if same_id key id then some consumer else find_call calls id

-- `add_call`.
unfoldable pub set_call : Calls → DialogId → ℕ → Calls
set_call [] id consumer = (id, consumer) ∷ []
set_call ((key, old) ∷ calls) id consumer =
    let rest = set_call calls id consumer in
    if same_id key id then (key, consumer) ∷ calls else (key, old) ∷ rest

unfoldable pub add_call : Manager → DialogId → ℕ → Manager
add_call m id consumer = record m { calls = set_call m.calls id consumer }

-- `remove_call`.
unfoldable pub drop_call : Calls → DialogId → Calls
drop_call [] id = []
drop_call ((key, old) ∷ calls) id =
    let rest = drop_call calls id in if same_id key id then calls else (key, old) ∷ rest

unfoldable pub remove_call : Manager → DialogId → Manager
remove_call m id = record m { calls = drop_call m.calls id }

-- `_tag`, whose body is that of dialog.py.
abbrev pub tag : Option Text → Option Text
tag none = none
tag (some value) = tag_of value

-- `_uri_user`.
unfoldable pub uri_user : Text → Option Text
uri_user uri = elim (partition 58 uri) [
  | none ↦ none
  | some (scheme, rest) ↦ elim (partition 64 (split 59 rest).0) [
    | none ↦ none
    | some (user, host) ↦ if is_empty user then none else some user
  ]
]

unfoldable pub find_extension : List (Text × ℕ) → Text → Option ℕ
find_extension [] user = none
find_extension ((name, extension) ∷ rest) user =
    if same_text name user then some extension else find_extension rest user

abbrev pub or_empty : Option Text → Text
or_empty none = []
or_empty (some t) = t

-- The loop over the candidates.
unfoldable pub first_extension : List (Text × ℕ) → List (Option Text) → Option ℕ
first_extension es [] = none
first_extension es (none ∷ users) = first_extension es users
first_extension es (some user ∷ users) = elim (find_extension es user) [
  | none ↦ first_extension es users
  | some e ↦ some e
]

-- `_route_new_invite`.
unfoldable pub route_new_invite : Manager → SipRequest → RequestRouting
route_new_invite m request =
    let to_user = uri_user (addr_of (or_empty (header request.headers to_name))) in
    elim (first_extension m.extensions
      (uri_user request.request_uri ∷ to_user ∷ some m.default_extension ∷ [])) [
        | none ↦ unroutable request no_registration
        | some e ↦ new_call e request
      ]

-- `_route_in_dialog`.
unfoldable pub route_in_dialog : Manager → SipRequest → Text → RequestRouting
route_in_dialog m request to_tag = elim (header request.headers call_id_name) [
  | none ↦ unroutable request incomplete
  | some call_id ↦ elim (tag (header request.headers from_name)) [
    | none ↦ unroutable request incomplete
    | some from_tag ↦ elim (find_call m.calls (call_id, to_tag, from_tag)) [
      | none ↦ unroutable request no_dialog
      | some consumer ↦ in_dialog consumer request
    ]
  ]
]

unfoldable pub route_request : Manager → SipRequest → RequestRouting
route_request m request = elim (tag (header request.headers to_name)) [
  | some to_tag ↦ route_in_dialog m request to_tag
  | none ↦
      if same_text (67 ∷ 65 ∷ 78 ∷ 67 ∷ 69 ∷ 76 ∷ []) request.method
      then cancel request
      else if same_text invite_word request.method
      then route_new_invite m request
      else unroutable request out_of_dialog
]
