-- ===== src/Message/Parse/RoundTrip.antt =====
-- src/hermes_voip/message.py: what `build_request` writes, `SipRequest.parse` reads back.
use hermes_voip.Base.{
  ℕ, ◌+◌, ◌≡◌, refl, sym, ap, ◌∙◌, Bool, true, false, ◌||◌, ◌==◌, List, [], ◌∷◌, ◌++◌, map, some,
  ok, arith, All, append_assoc,
}
use hermes_voip.Base.Text.{Text, any, all, partition, is_space, strip, drop_end, is_empty, decimal}
use hermes_voip.Base.Text.Decimal.{Digits, show-Digits}
use hermes_voip.Message.{
  Headers, is_token, is_token_char, is_control, crlf, content_length, utf8_length, build_request,
  header_lines,
}
use hermes_voip.Message.Framing.{header_lines-cons, build_request-parts}
use hermes_voip.Message.Parse.{
  parse_request, parse_headers, unfold_from, read_headers, request_line, is_folded, sip_two,
}
use hermes_voip.Message.Parse.Lines.{
  IsLine, IsFilled, broken, split_lines-broken, cut-broken, partition-first,
}

pub any-append : (p : ℕ → Bool) (s t : Text) → any p (s ++ t) ≡ (any p s || any p t)
any-append p [] t = refl
any-append p (c ∷ s) t = ground (arith, any-append p s t)

-- A character that one test refuses is not found by another.
pub any_of_any :
    (p q : ℕ → Bool)
    → ((c : ℕ) → q c ≡ false → p c ≡ false)
    → (s : Text) → any q s ≡ false
    → any p s ≡ false
any_of_any p q apart [] h = refl
any_of_any p q apart (c ∷ s) h = ground (arith, apart c, any_of_any p q apart s)

any_of_all :
    (p q : ℕ → Bool)
    → ((c : ℕ) → q c ≡ true → p c ≡ false)
    → (s : Text) → all q s ≡ true
    → any p s ≡ false
any_of_all p q apart [] h = refl
any_of_all p q apart (c ∷ s) h = ground (arith, apart c, any_of_all p q apart s)

token_char-is_space : (c : ℕ) → is_token_char c ≡ true → is_space c ≡ false
token_char-is_space c h = ground arith

drop_end-solid : (s : Text) → any is_space s ≡ false → drop_end s ≡ s
unfolding drop_end
drop_end-solid [] h = refl
drop_end-solid (c ∷ []) h = ground arith
drop_end-solid (c ∷ d ∷ s) h = rw (drop_end-solid (d ∷ s) (ground arith)) refl

-- A text with no white space is not changed by `strip`.
pub strip-solid : (s : Text) → any is_space s ≡ false → strip s ≡ s
unfolding strip
strip-solid [] h = refl
strip-solid (c ∷ s) h = ground (arith, drop_end-solid (c ∷ s) h)

abbrev pub header_line : Text × Text → Text
header_line h = h.0 ++ (58 ∷ 32 ∷ h.1)

-- A header that is written so that it can be read: a token, and a value with no white space about it.
pub record IsPlain (h : Text × Text) : Type 0 where
  pub token : is_token h.0 ≡ true
  pub clean : any is_control h.1 ≡ false
  pub trimmed : strip h.1 ≡ h.1

abbrev pub IsTrimmed : Text × Text → Type 0
IsTrimmed h = strip h.1 ≡ h.1

header_line-IsFilled : (h : Text × Text) → IsPlain h → IsFilled (header_line h)
header_line-IsFilled ([], v) p = cc (p.token)
header_line-IsFilled (c ∷ n, v) p =
    any-append (λ (x : ℕ). x == 13) (c ∷ n) (58 ∷ 32 ∷ v)
    ∙ rw
        (
          any_of_all (λ (x : ℕ). x == 13) is_token_char (λ x q. ground arith) (c ∷ n) (p.token),
          any_of_any (λ (x : ℕ). x == 13) is_control (λ x q. ground arith) v p.clean,
        )
        refl

-- What the loop makes of one such line.
strip_name : (h : Text × Text) → IsPlain h → strip h.0 ≡ h.0
strip_name (n, v) p =
    strip-solid n
      (any_of_all is_space is_token_char token_char-is_space n (ground (arith, p.token)))

partition-header_line :
    (h : Text × Text) → IsPlain h → partition 58 (header_line h) ≡ some (h.0, 32 ∷ h.1)
partition-header_line (n, v) p = partition-first 58 n (32 ∷ v) (
    any_of_all (λ (x : ℕ). x == 58) is_token_char (λ x q. ground arith) n (ground (arith, p.token)))

read_headers-lines :
    (hs : Headers)
    → All IsPlain hs
    → read_headers (map (λ (h : Text × Text). header_line h ∷ []) hs) ≡ ok hs
unfolding read_headers strip
read_headers-lines [] p = refl
read_headers-lines (h ∷ hs) p =
    rw (partition-header_line h p.0, read_headers-lines hs p.1, strip_name h p.0, read_headers)
      (ap (λ (v : Text). ok ((h.0, v) ∷ hs)) p.0.trimmed)

unfolded_first : (h : Text × Text) → IsPlain h → is_folded (header_line h) ≡ false
unfolded_first ([], v) p = refl
unfolded_first (c ∷ n, v) p = ground (arith, p.token)

unfold_from-lines :
    (l : Text) (hs : Headers)
    → All IsPlain hs
    → unfold_from (l ∷ []) (map header_line hs)
      ≡ (l ∷ []) ∷ map (λ (h : Text × Text). header_line h ∷ []) hs
unfolding unfold_from
unfold_from-lines l [] p = refl
unfold_from-lines l (h ∷ hs) p =
    rw (unfolded_first h p.0, unfold_from-lines (header_line h) hs p.1) refl

-- The lines of plain headers are read as these headers.
pub parse_headers-lines :
    (hs : Headers) → All IsPlain hs → parse_headers (map header_line hs) ≡ ok hs
unfolding parse_headers
parse_headers-lines [] p = refl
parse_headers-lines (h ∷ hs) p =
    rw (unfolded_first h p.0, unfold_from-lines (header_line h) hs p.1)
      (read_headers-lines (h ∷ hs) p)

-- What `header_lines` writes, as lines.
header_lines-broken :
    (hs : Headers) (lines : Text)
    → header_lines hs ≡ ok lines
    → All IsTrimmed hs
    → All IsPlain hs × (lines ≡ broken (map header_line hs))
header_lines-broken [] lines h t = (tt, unfold header_lines in ground arith)
header_lines-broken ((n, v) ∷ hs) lines h t =
    let (rest, token, clean, good, shape) = header_lines-cons n v hs lines h in
    let (plain, same) = header_lines-broken hs rest good t.1 in
    (
      (record { token = token; clean = clean; trimmed = t.0 }, plain),
      shape
          ∙ rw same (
              ap (λ (s : Text). crlf ++ s)
                (sym (append_assoc n (58 ∷ 32 ∷ v) (broken (map header_line hs))))),
    )

-- The header that `build_request` adds.
abbrev pub length_header : Text → Text × Text
length_header body = (content_length, decimal (utf8_length body))

Digits-solid : (s : Text) → Digits s → (any is_space s ≡ false) × (any is_control s ≡ false)
Digits-solid [] d = (refl, refl)
Digits-solid (c ∷ s) d = ground (arith, d.0, Digits-solid s d.1)

pub length_header-IsPlain : (body : Text) → IsPlain (length_header body)
length_header-IsPlain body =
    let (solid, clean) =
      Digits-solid (decimal (utf8_length body))
        (show-Digits (utf8_length body + 1) (utf8_length body)) in
    record { token = refl; clean = clean; trimmed = strip-solid (decimal (utf8_length body)) solid }

pub broken-append : (ls ms : List Text) → broken (ls ++ ms) ≡ broken ls ++ broken ms
broken-append [] ms = refl
broken-append (l ∷ ls) ms =
    rw (broken-append ls ms)
      (ap (λ (s : Text). crlf ++ s) (sym (append_assoc l (broken ls) (broken ms))))

pub map-append_one :
    (hs : Headers) (h : Text × Text)
    → map header_line (hs ++ h ∷ []) ≡ map header_line hs ++ header_line h ∷ []
map-append_one [] h = refl
map-append_one (g ∷ hs) h = rw (map-append_one hs h) refl

pub All-append_one :
    (hs : Headers) (h : Text × Text) → All IsPlain hs → IsPlain h → All IsPlain (hs ++ h ∷ [])
All-append_one [] h p q = (q, tt)
All-append_one (g ∷ hs) h p q = (p.0, All-append_one hs h p.1 q)

abbrev first_line : Text → Text → Text
first_line method uri = method ++ (32 ∷ (uri ++ (32 ∷ sip_two)))

request_line-first_line :
    (method uri : Text)
    → is_token method ≡ true
    → is_empty uri ≡ false
    → any is_space uri ≡ false
    → request_line (first_line method uri) ≡ some (method, uri)
unfolding request_line
request_line-first_line method uri token filled solid =
    rw
      (
        partition-first 32 method (uri ++ (32 ∷ sip_two)) (
            any_of_all (λ (x : ℕ). x == 32) is_token_char (λ x q. ground arith) method
              (ground (arith, token))),
        partition-first 32 uri sip_two
            (any_of_any (λ (x : ℕ). x == 32) is_space (λ x q. ground arith) uri solid),
        token,
        filled,
        solid,
        request_line,
      )
      refl

first_line-IsLine :
    (method uri : Text)
    → is_token method ≡ true
    → any is_control uri ≡ false
    → IsLine (first_line method uri)
first_line-IsLine method uri token clean =
    any-append (λ (x : ℕ). x == 13) method (32 ∷ (uri ++ (32 ∷ sip_two)))
    ∙ rw
        (
          any_of_all (λ (x : ℕ). x == 13) is_token_char (λ x q. ground arith) method
              (ground (arith, token)),
          any-append (λ (x : ℕ). x == 13) uri (32 ∷ sip_two),
          any_of_any (λ (x : ℕ). x == 13) is_control (λ x q. ground arith) uri clean,
        )
        refl

pub lines-IsFilled : (hs : Headers) → All IsPlain hs → All IsFilled (map header_line hs)
lines-IsFilled [] p = tt
lines-IsFilled (h ∷ hs) p = (header_line-IsFilled h p.0, lines-IsFilled hs p.1)

pub IsLine-of_IsFilled : (ls : List Text) → All IsFilled ls → All IsLine ls
IsLine-of_IsFilled [] f = tt
IsLine-of_IsFilled ([] ∷ ls) f = absurd f.0
IsLine-of_IsFilled ((c ∷ l) ∷ ls) f = (f.0, IsLine-of_IsFilled ls f.1)

-- A message of plain headers is read as these.
parse_request-broken :
    (method uri : Text) (hs : Headers) (body : Text)
    → (is_token method ≡ true) × ((any is_control uri ≡ false) × (is_empty uri ≡ false))
    → any is_space uri ≡ false
    → All IsPlain hs
    → parse_request
        (first_line method uri ++ (broken (map header_line hs) ++ (crlf ++ (crlf ++ body))))
      ≡ ok (record { method = method; request_uri = uri; headers = hs; body = body })
unfolding parse_request
parse_request-broken method uri hs body (token, (clean, filled)) solid plain =
    let first = first_line-IsLine method uri token clean in
    let lines = lines-IsFilled hs plain in
    rw
      (
        parse_request,
        cut-broken (first_line method uri) (map header_line hs) body first lines,
        split_lines-broken (first_line method uri) (map header_line hs) first
            (IsLine-of_IsFilled (map header_line hs) lines),
        request_line-first_line method uri token filled solid,
        parse_headers-lines hs plain,
      )
      refl

-- The round trip of a request: what `build_request` writes for a URI with no white space and header
-- values with no white space about them, `SipRequest.parse` reads back as the same method, URI and
-- body, and the same headers in order, followed by the length of the body that was added.
pub parse_request-build_request :
    (method uri : Text) (hs : Headers) (body wire : Text)
    → build_request method uri hs body ≡ ok wire
    → any is_space uri ≡ false
    → All IsTrimmed hs
    → parse_request wire
      ≡ ok (record {
        method = method;
        request_uri = uri;
        headers = hs ++ length_header body ∷ [];
        body = body;
      })
parse_request-build_request method uri hs body wire h solid trimmed =
    let (lines, m, u, good, shape) = build_request-parts method uri hs body wire h in
    let (plain, same) = header_lines-broken hs lines good trimmed in
    let added = length_header body in
    let whole : wire
        ≡ first_line method uri
          ++ (broken (map header_line (hs ++ added ∷ [])) ++ (crlf ++ (crlf ++ body))) =
      shape
      ∙ rw
          (
            same,
            map-append_one hs added,
            broken-append (map header_line hs) (header_line added ∷ []),
          )
          (simp (append_assoc)) in
    rw whole (
      parse_request-broken method uri (hs ++ added ∷ []) body (m.1, u) solid
        (All-append_one hs added plain (length_header-IsPlain body)))
