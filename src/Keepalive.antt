-- ===== src/Keepalive.antt =====
-- src/hermes_voip/keepalive.py: the answers to requests outside a dialog.
use hermes_voip.Base.{[], ◌∷◌, some, Result}
use hermes_voip.Base.Text.{Text}
use hermes_voip.Message.Parse.{SipRequest}
use hermes_voip.Message.Response.{ResponseError, build_response}

-- `_ALLOW_HEADER`: the methods of `ALLOW_METHODS`, joined.
abbrev pub allow_header : Text × Text
allow_header = (
  65 ∷ 108 ∷ 108 ∷ 111 ∷ 119 ∷ [],
  73 ∷ 78 ∷ 86 ∷ 73 ∷ 84 ∷ 69 ∷ 44 ∷ 32 ∷ 65 ∷ 67 ∷ 75 ∷ 44 ∷ 32 ∷ 67 ∷ 65 ∷ 78 ∷ 67 ∷ 69 ∷ 76 ∷ 44
      ∷ 32 ∷ 66 ∷ 89 ∷ 69 ∷ 44 ∷ 32 ∷ 79 ∷ 80 ∷ 84 ∷ 73 ∷ 79 ∷ 78 ∷ 83 ∷ 44 ∷ 32 ∷ 82 ∷ 69 ∷ 70 ∷ 69
      ∷ 82 ∷ 44 ∷ 32 ∷ 78 ∷ 79 ∷ 84 ∷ 73 ∷ 70 ∷ 89 ∷ [],
)

abbrev pub supported_header : Text × Text
supported_header =
    (83 ∷ 117 ∷ 112 ∷ 112 ∷ 111 ∷ 114 ∷ 116 ∷ 101 ∷ 100 ∷ [], 116 ∷ 105 ∷ 109 ∷ 101 ∷ 114 ∷ [])

unfoldable pub build_options_ok : SipRequest → Text → Result ResponseError Text
build_options_ok request to_tag =
    build_response request 200 (79 ∷ 75 ∷ []) (some to_tag) (allow_header ∷ supported_header ∷ [])
      []

unfoldable pub build_keepalive_ok : SipRequest → Text → Result ResponseError Text
build_keepalive_ok request to_tag = build_response request 200 (79 ∷ 75 ∷ []) (some to_tag) [] []
