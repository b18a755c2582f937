-- ===== src/Dialog/Requests.antt =====
-- src/hermes_voip/dialog.py: the requests that a dialog sends.
use hermes_voip.Base.{
  ℕ, ◌+◌, ◌<◌, ◌≡◌, refl, sym, ap, subst, ◌∙◌, Bool, false, map, List, [], ◌∷◌, ◌++◌, All, length,
  some, Result, Result-cases, ok, arith, inl, inr, ◌>>=◌,
}
use hermes_voip.Base.Text.{Text, any, is_space, decimal}
use hermes_voip.Message.{Headers, build_request, header}
use hermes_voip.Message.Parse.{parse_request}
use hermes_voip.Message.Parse.RoundTrip.{IsTrimmed, length_header, parse_request-build_request}
use hermes_voip.Transaction.{cseq_name, route_name}
use hermes_voip.Dialog.{Dialog, DialogError, build_in_dialog_request, request_headers, max_cseq}

-- What is asked of a dialog: a method, headers, a body and a branch.
abbrev pub Order : Type 0
Order = Text × Headers × Text × Text

-- A request of the dialog with the CSeq `n`.
abbrev pub IsNumbered : ℕ → Text → Type 0
IsNumbered n text =
    (method uri body : Text) × (hs : Headers) × (build_request method uri hs body ≡ ok text)
    × (header hs cseq_name ≡ some (decimal n ++ (32 ∷ method)))

-- The texts carry the numbers behind `n`, one by one, all below the bound.
abbrev pub Numbered : ℕ → List Text → Type 0
Numbered n [] = Unit
Numbered n (text ∷ texts) = (n + 1 < max_cseq) × IsNumbered (n + 1) text × Numbered (n + 1) texts

module _ (is_word : ℕ → Bool) where
  build_in_dialog_request-parts :
      (d e : Dialog) (method : Text) (extra_headers : Headers) (body branch text : Text)
      → build_in_dialog_request is_word d method extra_headers body branch ≡ ok (text, e)
      → (d.local_cseq + 1 < max_cseq)
        × (build_request method d.remote_target (request_headers d method extra_headers branch) body
            ≡ ok text)
        × (e ≡ record d { local_cseq = d.local_cseq + 1 })
  unfolding build_in_dialog_request
  build_in_dialog_request-parts d e method extra_headers body branch text h =
      elim (Result-cases (
        build_request method d.remote_target (request_headers d method extra_headers branch)
          body)) [
            | inl (wire, good) ↦ (ground arith, ground arith, ground arith)
            | inr (x, bad) ↦ absurd (ground arith)
          ]

  -- A request inside a dialog that is built is parsed as a request of its method for the peer's target
  -- with the headers of the dialog, its routes and the next CSeq among them, and its body; only the
  -- CSeq of the dialog moves, by one, and it stays below its bound. The target has no white space and
  -- the values of the headers have none about them.
  pub parse_request-build_in_dialog_request :
      (d e : Dialog) (method : Text) (extra_headers : Headers) (body branch text : Text)
      → build_in_dialog_request is_word d method extra_headers body branch ≡ ok (text, e)
      → any is_space d.remote_target ≡ false
      → All IsTrimmed (request_headers d method extra_headers branch)
      → (parse_request text
          ≡ ok (record {
            method = method;
            request_uri = d.remote_target;
            headers = request_headers d method extra_headers branch ++ length_header body ∷ [];
            body = body;
          }))
        × (e ≡ record d { local_cseq = d.local_cseq + 1 })
        × (e.local_cseq < max_cseq)
  parse_request-build_in_dialog_request d e method extra_headers body branch text h solid trimmed =
      let (room, built, moved) =
        build_in_dialog_request-parts d e method extra_headers body branch text h in
      (
        parse_request-build_request method d.remote_target
            (request_headers d method extra_headers branch) body text built solid trimmed,
        moved,
        rw moved room,
      )

  -- The texts of a list of requests, and the dialog behind them.
  unfoldable pub send_all : Dialog → List Order → Result DialogError (List Text × Dialog)
  send_all d [] = ok ([], d)
  send_all d ((method, extra_headers, body, branch) ∷ orders) = do
    (text, e) ← build_in_dialog_request is_word d method extra_headers body branch
    (texts, last) ← send_all e orders
    ok (text ∷ texts, last)

  send_all-nil :
      (d last : Dialog) (texts : List Text)
      → send_all d [] ≡ ok (texts, last)
      → (texts ≡ []) × (d ≡ last)
  unfolding send_all
  send_all-nil d last texts h = (ground arith, ground arith)

  send_all-cons :
      (d last : Dialog) (method : Text) (extra_headers : Headers) (body branch : Text)
      (orders : List Order) (all_texts : List Text)
      → send_all d ((method, extra_headers, body, branch) ∷ orders) ≡ ok (all_texts, last)
      → (e : Dialog) × (text : Text) × (texts : List Text) × (build_in_dialog_request is_word d
            method extra_headers body branch
          ≡ ok (text, e))
        × (send_all e orders ≡ ok (texts, last))
        × (all_texts ≡ text ∷ texts)
  unfolding send_all
  send_all-cons d last method extra_headers body branch orders all_texts h =
      elim (Result-cases (build_in_dialog_request is_word d method extra_headers body branch)) [
        | inr (x, bad) ↦ absurd (ground arith)
        | inl ((text, e), good) ↦ elim (Result-cases (send_all e orders)) [
          | inr (x, bad) ↦ absurd (ground arith)
          | inl ((texts, z), rest) ↦
              (e, text, texts, good, ground (arith, good, rest), ground (arith, good, rest))
        ]
      ]

  header-routes :
      (routes : List Text) (hs : Headers)
      → header (map (λ (route : Text). (route_name, route)) routes ++ hs) cseq_name
        ≡ header hs cseq_name
  unfolding header
  header-routes [] hs = refl
  header-routes (r ∷ rs) hs = header-routes rs hs

  request_headers-cseq :
      (d : Dialog) (method : Text) (extra_headers : Headers) (branch : Text)
      → header (request_headers d method extra_headers branch) cseq_name
        ≡ some (decimal (d.local_cseq + 1) ++ (32 ∷ method))
  unfolding header request_headers
  request_headers-cseq d method extra_headers branch = header-routes d.route_set _

  -- The requests of a dialog carry CSeq numbers that go up one by one from the dialog's own, all
  -- below 2 ^ 31, and the dialog behind them differs from the one in front in nothing else.
  pub send_all-Numbered :
      (orders : List Order) (d last : Dialog) (texts : List Text)
      → send_all d orders ≡ ok (texts, last)
      → Numbered d.local_cseq texts
        × (length texts ≡ length orders)
        × (last ≡ record d { local_cseq = d.local_cseq + length orders })
  send_all-Numbered [] d last texts h =
      let (empty, same) = send_all-nil d last texts h in
      rw empty (tt, refl, sym same ∙ ap (λ (n : ℕ). record d { local_cseq = n }) (omega arith))
  send_all-Numbered ((method, extra_headers, body, branch) ∷ orders) d last texts h =
      let (e, text, others, first, rest, shape) =
        send_all-cons d last method extra_headers body branch orders texts h in
      let (room, built, moved) =
        build_in_dialog_request-parts d e method extra_headers body branch text first in
      let (numbered, size, behind) = send_all-Numbered orders e last others rest in
      rw shape (
        (
          room,
          (
            method,
            d.remote_target,
            body,
            request_headers d method extra_headers branch,
            built,
            request_headers-cseq d method extra_headers branch,
          ),
          subst (λ (x : Dialog). Numbered x.local_cseq others) moved numbered,
        ),
        omega (arith, size),
        behind
            ∙ ap (λ (x : Dialog). record x { local_cseq = x.local_cseq + length orders }) moved
            ∙ ap (λ (n : ℕ). record d { local_cseq = n }) (omega arith),
      )
