-- ===== src/Message/Framing.antt =====
-- src/hermes_voip/message.py: a request that is built has the lines that were asked for.
use hermes_voip.Base.{
  ℕ, suc, ◌+◌, ◌≡◌, refl, true, false, ◌==◌, if◌then◌else◌, [], ◌∷◌, ◌++◌, length, ok, arith,
  Result-cases, inl, inr,
}
use hermes_voip.Base.Text.{is_empty, Text, all, any, decimal}
use hermes_voip.Base.Text.Decimal.{show-Digits, Digits}
use hermes_voip.Message.{
  Headers, is_token, build_request, header_lines, is_control, is_token_char, crlf, content_length,
  sip_version, utf8_length,
}

-- The line feeds of a text.
abbrev pub line_feeds : Text → ℕ
line_feeds [] = 0
line_feeds (c ∷ cs) = (if c == 10 then 1 else 0) + line_feeds cs

line_feeds-append : (s t : Text) → line_feeds (s ++ t) ≡ line_feeds s + line_feeds t
line_feeds-append [] t = omega arith
line_feeds-append (c ∷ s) t = rw (line_feeds-append s t) (omega arith)

line_feeds-clean : (s : Text) → any is_control s ≡ false → line_feeds s ≡ 0
line_feeds-clean [] h = refl
line_feeds-clean (c ∷ s) h = ground (arith, line_feeds-clean s)

line_feeds-token : (s : Text) → all is_token_char s ≡ true → line_feeds s ≡ 0
line_feeds-token [] h = refl
line_feeds-token (c ∷ s) h = ground (arith, line_feeds-token s)

line_feeds-Digits : (s : Text) → Digits s → line_feeds s ≡ 0
line_feeds-Digits [] h = refl
line_feeds-Digits (c ∷ s) h = ground (arith, h.0, line_feeds-Digits s h.1)

-- What stands behind the lines of a header that was written.
pub header_lines-cons :
    (n v : Text) (hs : Headers) (lines : Text)
    → header_lines ((n, v) ∷ hs) ≡ ok lines
    → (rest : Text) × (is_token n ≡ true)
      × (any is_control v ≡ false)
      × (header_lines hs ≡ ok rest)
      × (lines ≡ crlf ++ (n ++ (58 ∷ 32 ∷ (v ++ rest))))
unfolding header_lines
header_lines-cons n v hs lines h = elim (Result-cases (header_lines hs)) [
  | inl (rest, good) ↦ (rest, ground arith, ground arith, good, ground arith)
  | inr (e, bad) ↦ absurd (ground arith)
]

line_feeds-field :
    (n v rest : Text)
    → all is_token_char n ≡ true
    → any is_control v ≡ false
    → line_feeds (crlf ++ (n ++ (58 ∷ 32 ∷ (v ++ rest)))) ≡ suc (line_feeds rest)
line_feeds-field n v rest token clean =
    rw
      (
        line_feeds-append n (58 ∷ 32 ∷ (v ++ rest)),
        line_feeds-token n token,
        line_feeds-append v rest,
        line_feeds-clean v clean,
      )
      (omega arith)

header_lines-line_feeds :
    (hs : Headers) (lines : Text) → header_lines hs ≡ ok lines → line_feeds lines ≡ length hs
header_lines-line_feeds [] lines h = unfold header_lines in ground arith
header_lines-line_feeds ((n, v) ∷ hs) lines h =
    let (rest, token, clean, good, shape) = header_lines-cons n v hs lines h in
    rw (shape, line_feeds-field n v rest (ground arith) clean, header_lines-line_feeds hs rest good)
      refl

abbrev pub rest_of : Text → Text → Text
rest_of digits body = crlf ++ (content_length ++ (58 ∷ 32 ∷ (digits ++ (crlf ++ (crlf ++ body)))))

line_feeds-rest : (ds body : Text) → Digits ds → line_feeds (rest_of ds body) ≡ 3 + line_feeds body
line_feeds-rest ds body d =
    rw (line_feeds-append ds (crlf ++ (crlf ++ body)), line_feeds-Digits ds d) (omega arith)

pub build_request-parts :
    (method uri : Text) (hs : Headers) (body wire : Text)
    → build_request method uri hs body ≡ ok wire
    → (lines : Text) × ((any is_control method ≡ false) × (is_token method ≡ true))
      × ((any is_control uri ≡ false) × (is_empty uri ≡ false))
      × (header_lines hs ≡ ok lines)
      × (wire
          ≡ method
            ++ (32
                ∷ (uri ++ (sip_version ++ (lines ++ rest_of (decimal (utf8_length body)) body)))))
unfolding build_request
build_request-parts method uri hs body wire h = elim (Result-cases (header_lines hs)) [
  | inl (lines, good) ↦ (lines, ground arith, ground arith, good, ground arith)
  | inr (e, bad) ↦ absurd (ground arith)
]

-- No header injection: in every request that `build_request` writes, the line feeds in front of the
-- body are those of its own line breaks, one for the request line, one for each header that was
-- given, one for the length of the body and one for the empty line.
build_request-line_feeds :
    (method uri : Text) (hs : Headers) (body wire : Text)
    → build_request method uri hs body ≡ ok wire
    → line_feeds wire ≡ length hs + 3 + line_feeds body
build_request-line_feeds method uri hs body wire h =
    let (lines, m, u, good, shape) = build_request-parts method uri hs body wire h in
    let size = decimal (utf8_length body) in
    rw
      (
        shape,
        line_feeds-append method (32 ∷ (uri ++ (sip_version ++ (lines ++ rest_of size body)))),
        line_feeds-clean method m.0,
        line_feeds-append uri (sip_version ++ (lines ++ rest_of size body)),
        line_feeds-clean uri u.0,
        line_feeds-append lines (rest_of size body),
        header_lines-line_feeds hs lines good,
        line_feeds-rest size body (show-Digits (utf8_length body + 1) (utf8_length body)),
      )
      (omega arith)
