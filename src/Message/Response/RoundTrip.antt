-- ===== src/Message/Response/RoundTrip.antt =====
-- src/hermes_voip/message.py: what `build_response` writes, `SipResponse.parse` reads back.
use hermes_voip.Base.{
  ℕ, suc, ◌+◌, ◌-◌, ◌/◌, ◌%◌, ◌≤◌, ◌<◌, ◌≡◌, refl, sym, ap, subst, ◌∙◌, true, false, ◌&&◌, ◌==◌,
  ltb, leb, [], ◌∷◌, ◌++◌, map, some, Option, Result-cases, ok, arith, All, append_assoc, inl, inr,
}
use hermes_voip.Base.Text.{Text, any, show, read, decimal, strip, is_digit}
use hermes_voip.Message.{Headers, is_token, is_control, crlf, utf8_length}
use hermes_voip.Message.Framing.{rest_of}
use hermes_voip.Message.Parse.{SipRequest, parse_response, status_line, status_digits}
use hermes_voip.Message.Parse.Lines.{IsLine, broken, split_lines-broken, cut-broken}
use hermes_voip.Message.Parse.RoundTrip.{
  IsPlain, IsTrimmed, header_line, length_header, length_header-IsPlain, any-append, any_of_any,
  lines-IsFilled, IsLine-of_IsFilled, broken-append, map-append_one, All-append_one,
  parse_headers-lines,
}
use hermes_voip.Message.Response.{field_lines, response_headers, build_response, status_line_of}

-- A number of three digits.
three_digits : ℕ → Text
three_digits n = (48 + n / 10 / 10) ∷ (48 + n / 10 % 10) ∷ (48 + n % 10) ∷ []

show-three_digits : (r n : ℕ) → 100 ≤ n → n < 1000 → show (suc (suc (suc r))) n ≡ three_digits n
unfolding show three_digits
show-three_digits r n h k =
    let big : ltb n 10 ≡ false = ground arith in
    let middle : ltb (n / 10) 10 ≡ false = ground arith in
    let small : ltb (n / 10 / 10) 10 ≡ true = ground arith in rw (show, big, middle, small) refl

decimal-three_digits : (n : ℕ) → 100 ≤ n → n < 1000 → decimal n ≡ three_digits n
decimal-three_digits n h k =
    subst (λ (fuel : ℕ). show fuel n ≡ three_digits n) (omega arith)
      (show-three_digits (n - 2) n h k)

read-three_digits : (n : ℕ) → n < 1000 → read 0 (three_digits n) ≡ n
unfolding read three_digits
read-three_digits n k = omega arith

status_digits-three_digits :
    (n : ℕ) (reason : Text)
    → n < 1000
    → any is_control reason ≡ false
    → status_digits (three_digits n ++ (32 ∷ reason)) ≡ some (n, reason)
unfolding status_digits three_digits
status_digits-three_digits n reason k clean =
    let first : is_digit (48 + n / 10 / 10) ≡ true = ground arith in
    let second : is_digit (48 + n / 10 % 10) ≡ true = ground arith in
    let third : is_digit (48 + n % 10) ≡ true = ground arith in
    let one_line = any_of_any (λ (x : ℕ). x == 10) is_control (λ x q. ground arith) reason clean in
    rw (status_digits, first, second, third, one_line)
      (ap (λ (m : ℕ). some (m, reason)) (read-three_digits n k))

field_lines-cons :
    (n v : Text) (hs : Headers) (lines : Text)
    → field_lines ((n, v) ∷ hs) ≡ ok lines
    → (rest : Text) × (is_token n ≡ true)
      × (any is_control v ≡ false)
      × (field_lines hs ≡ ok rest)
      × (lines ≡ crlf ++ (n ++ (58 ∷ 32 ∷ (v ++ rest))))
unfolding field_lines
field_lines-cons n v hs lines h = elim (Result-cases (field_lines hs)) [
  | inl (rest, good) ↦ (rest, ground arith, ground arith, good, ground arith)
  | inr (e, bad) ↦ absurd (ground arith)
]

field_lines-broken :
    (hs : Headers) (lines : Text)
    → field_lines hs ≡ ok lines
    → All IsTrimmed hs
    → All IsPlain hs × (lines ≡ broken (map header_line hs))
field_lines-broken [] lines h t = (tt, unfold field_lines in ground arith)
field_lines-broken ((n, v) ∷ hs) lines h t =
    let (rest, token, clean, good, shape) = field_lines-cons n v hs lines h in
    let (plain, same) = field_lines-broken hs rest good t.1 in
    (
      (record { token = token; clean = clean; trimmed = t.0 }, plain),
      shape
          ∙ ap (λ (s : Text). crlf ++ (n ++ (58 ∷ 32 ∷ (v ++ s)))) same
          ∙ ap (λ (s : Text). crlf ++ s)
              (sym (append_assoc n (58 ∷ 32 ∷ v) (broken (map header_line hs)))),
    )

build_response-parts :
    (request : SipRequest) (status : ℕ) (reason : Text) (to_tag : Option Text) (extra hs : Headers)
    (body wire : Text)
    → build_response request status reason to_tag extra body ≡ ok wire
    → response_headers request to_tag extra ≡ ok hs
    → (lines : Text) × ((leb 100 status && leb status 699) ≡ true)
      × (any is_control reason ≡ false)
      × (field_lines hs ≡ ok lines)
      × (wire
          ≡ status_line_of status reason ++ (lines ++ rest_of (decimal (utf8_length body)) body))
unfolding build_response
build_response-parts request status reason to_tag extra hs body wire h k =
    elim (Result-cases (field_lines hs)) [
      | inl (lines, good) ↦ (lines, ground arith, ground arith, good, ground (arith, k, good))
      | inr (e, bad) ↦ absurd (ground (arith, k, bad))
    ]

status_line-status_line_of :
    (n : ℕ) (reason : Text)
    → 100 ≤ n
    → n < 1000
    → any is_control reason ≡ false
    → status_line (status_line_of n reason) ≡ some (n, reason)
unfolding status_line
status_line-status_line_of n reason h k clean =
    ap (λ (s : Text). status_digits (s ++ (32 ∷ reason))) (decimal-three_digits n h k)
    ∙ status_digits-three_digits n reason k clean

three_digits-IsLine : (n : ℕ) → n < 1000 → IsLine (three_digits n)
unfolding three_digits
three_digits-IsLine n k = ground arith

status_line_of-IsLine :
    (n : ℕ) (reason : Text)
    → 100 ≤ n
    → n < 1000
    → any is_control reason ≡ false
    → IsLine (status_line_of n reason)
status_line_of-IsLine n reason h k clean =
    any-append (λ (x : ℕ). x == 13) (decimal n) (32 ∷ reason)
    ∙ rw
        (
          decimal-three_digits n h k,
          three_digits-IsLine n k,
          any_of_any (λ (x : ℕ). x == 13) is_control (λ x q. ground arith) reason clean,
        )
        refl

parse_response-broken :
    (status : ℕ) (reason : Text) (hs : Headers) (body : Text)
    → (leb 100 status && leb status 699) ≡ true
    → any is_control reason ≡ false
    → All IsPlain hs
    → parse_response
        (status_line_of status reason ++ (broken (map header_line hs) ++ (crlf ++ (crlf ++ body))))
      ≡ ok (record { status_code = status; reason = strip reason; headers = hs; body = body })
unfolding parse_response
parse_response-broken status reason hs body range clean plain =
    let low : 100 ≤ status = ground arith in
    let high : status < 1000 = ground arith in
    let first = status_line_of-IsLine status reason low high clean in
    let lines = lines-IsFilled hs plain in
    rw
      (
        parse_response,
        cut-broken (status_line_of status reason) (map header_line hs) body first lines,
        split_lines-broken (status_line_of status reason) (map header_line hs) first
            (IsLine-of_IsFilled (map header_line hs) lines),
        status_line-status_line_of status reason low high clean,
        range,
        parse_headers-lines hs plain,
      )
      refl

-- The round trip of a response: what `build_response` writes for a reason and header values with no
-- white space about them, `SipResponse.parse` reads back as the same status, reason and body, and the
-- headers that are echoed and added, in order, followed by the length of the body.
pub parse_response-build_response :
    (request : SipRequest) (status : ℕ) (reason : Text) (to_tag : Option Text) (extra hs : Headers)
    (body wire : Text)
    → build_response request status reason to_tag extra body ≡ ok wire
    → response_headers request to_tag extra ≡ ok hs
    → strip reason ≡ reason
    → All IsTrimmed hs
    → parse_response wire
      ≡ ok (record {
        status_code = status;
        reason = reason;
        headers = hs ++ length_header body ∷ [];
        body = body;
      })
parse_response-build_response request status reason to_tag extra hs body wire h k bare trimmed =
    let (lines, range, clean, good, shape) =
      build_response-parts request status reason to_tag extra hs body wire h k in
    let (plain, same) = field_lines-broken hs lines good trimmed in
    let added = length_header body in
    let whole : wire
        ≡ status_line_of status reason
          ++ (broken (map header_line (hs ++ added ∷ [])) ++ (crlf ++ (crlf ++ body))) =
      shape
      ∙ rw
          (
            same,
            map-append_one hs added,
            broken-append (map header_line hs) (header_line added ∷ []),
          )
          (simp (append_assoc)) in
    rw whole (
      parse_response-broken status reason (hs ++ added ∷ []) body range clean
        (All-append_one hs added plain (length_header-IsPlain body))
      ∙ ap
          (λ (r : Text).
            ok (record {
              status_code = status;
              reason = r;
              headers = hs ++ added ∷ [];
              body = body;
            }))
          bare)
