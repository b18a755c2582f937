-- ===== src/Transfer/Deliver.antt =====
-- src/hermes_voip/refer.py: what the transferee reads of the REFER that the transferor builds.
use hermes_voip.Base.{
  ℕ, ◌≡◌, refl, ap, ◌∙◌, Bool, true, false, ◌==◌, List, [], ◌∷◌, ◌++◌, Option, none, some, ok,
  arith,
}
use hermes_voip.Base.Text.{Text, any, all, partition, strip, is_empty, same_text, lower, is_space}
use hermes_voip.Base.Text.Laws.{split-whole, and_parts}
use hermes_voip.Base.Percent.{quote, unquote, unquote-quote, quote-plain, IsAscii, is_quoted_char}
use hermes_voip.Message.{header, headers_all}
use hermes_voip.Message.Parse.{SipRequest}
use hermes_voip.Message.Parse.Lines.{partition-first}
use hermes_voip.Message.Parse.RoundTrip.{strip-solid}
use hermes_voip.Address.{find_name_addr, name_addr_parts, name_addr_from}
use hermes_voip.Dialog.{Dialog}
use hermes_voip.Transfer.{
  ReplacesSpec, header_value, parse_replaces_value, bracketed_uri, validate_refer_to_query,
  replaces_from_uri_query, replaces_from_pairs, pairs_of, is_replaces, name_and_value,
  replaces_word,
}
use hermes_voip.Transfer.Target.{validate_transfer_target, is_angle}
use hermes_voip.Transfer.Target.Safe.{validate_transfer_target-IsHarmless}
use hermes_voip.Transfer.Requests.{
  parse_refer, refer_to_name, referred_by_name, replaces_name, angled, attended_target,
  target_and_query, referrer, replaces_of,
}
use hermes_voip.Transfer.Replaces.{IsClean, parse_replaces_value-header_value}

-- The URI of a value in angle brackets is what stands between them.
pub bracketed_uri-angled :
    (t : Text) → any is_angle t ≡ false → any is_space t ≡ false → bracketed_uri (angled t) ≡ t
unfolding bracketed_uri find_name_addr name_addr_parts name_addr_from
bracketed_uri-angled t closed solid =
    let cut = partition-first 62 t [] (no_close t closed) in
    rw (bracketed_uri, cut) (strip-solid t solid)
  where
    no_close : (s : Text) → any is_angle s ≡ false → any (λ (c : ℕ). c == 62) s ≡ false
    no_close [] h = refl
    no_close (c ∷ s) h = ground (arith, no_close s)

partition-absent :
    (sep : ℕ) (t : Text) → any (λ (c : ℕ). c == sep) t ≡ false → partition sep t ≡ none
unfolding partition
partition-absent sep [] h = refl
partition-absent sep (c ∷ t) h = rw (partition-absent sep t (ground arith)) (ground arith)

target_and_query-whole :
    (t : Text) → any (λ (c : ℕ). c == 63) t ≡ false → target_and_query t ≡ (t, [])
target_and_query-whole t h = rw (target_and_query, partition-absent 63 t h) refl

parse_refer-parts :
    (request : SipRequest) (value target query : Text) (replaces : Option ReplacesSpec)
    → headers_all request.headers refer_to_name ≡ value ∷ []
    → target_and_query (bracketed_uri value) ≡ (target, query)
    → strip target ≡ target
    → validate_transfer_target target ≡ ok tt
    → validate_refer_to_query query ≡ ok tt
    → replaces_from_uri_query query ≡ ok replaces
    → parse_refer request
      ≡ ok (record {
        refer_to = target;
        replaces = replaces;
        referred_by = referrer (header request.headers referred_by_name);
      })
unfolding parse_refer
parse_refer-parts request value target query replaces one cut trimmed good clean read =
    rw (one, cut, trimmed, good, clean, read) refl

-- A blind transfer reaches its target: of a request whose Refer-To is a target that passed the guard,
-- in angle brackets, the transferee reads that target, no Replaces, and the referrer.
pub parse_refer-angled :
    (request : SipRequest) (target : Text)
    → validate_transfer_target target ≡ ok tt
    → headers_all request.headers refer_to_name ≡ angled target ∷ []
    → parse_refer request
      ≡ ok (record {
        refer_to = target;
        replaces = none;
        referred_by = referrer (header request.headers referred_by_name);
      })
unfolding validate_refer_to_query replaces_from_uri_query
parse_refer-angled request target good one =
    let (_, safe, _, no_query, _) = validate_transfer_target-IsHarmless target good in
    parse_refer-parts request (angled target) target [] none one
      (ap target_and_query (bracketed_uri-angled target safe.no_angle safe.no_space)
        ∙ target_and_query-whole target no_query)
      (strip-solid target safe.no_space) good refl refl

-- What no character of a quoted text is.
quoted-none :
    (p : ℕ → Bool)
    → ((c : ℕ) → is_quoted_char c ≡ true → p c ≡ false)
    → (s : Text) → all is_quoted_char s ≡ true
    → any p s ≡ false
quoted-none p none_of [] h = refl
quoted-none p none_of (c ∷ s) h =
    let (here, rest) = and_parts (is_quoted_char c) (all is_quoted_char s) h in
    rw (none_of c here) (quoted-none p none_of s rest)

quoted_angle : (c : ℕ) → is_quoted_char c ≡ true → is_angle c ≡ false
quoted_angle c h = ground arith

quoted_space : (c : ℕ) → is_quoted_char c ≡ true → is_space c ≡ false
quoted_space c h = ground arith

quoted_amp : (c : ℕ) → is_quoted_char c ≡ true → (c == 38) ≡ false
quoted_amp c h = ground arith

any-join : (p : ℕ → Bool) (w t : Text) → any p w ≡ false → any p t ≡ false → any p (w ++ t) ≡ false
any-join p [] t h k = k
any-join p (c ∷ w) t h k = ground (arith, any-join p w t)

-- `Replaces=` and a quoted value.
abbrev query_of : Text → Text
query_of quoted = replaces_name ++ (61 ∷ quoted)

module _ (quoted : Text) (plain : all is_quoted_char quoted ≡ true) where
  query_pairs : pairs_of (query_of quoted) ≡ query_of quoted ∷ []
  unfolding pairs_of
  query_pairs =
      ap (λ (parts : Text × List Text). parts.0 ∷ parts.1)
        (split-whole 38 (query_of quoted) (
          any-join (λ (c : ℕ). c == 38) (replaces_name ++ 61 ∷ []) quoted refl
            (quoted-none (λ (c : ℕ). c == 38) quoted_amp quoted plain)))

  query_value : name_and_value (query_of quoted) ≡ (replaces_name, quoted)
  query_value = rw (name_and_value, partition-first 61 replaces_name quoted refl) refl

  query_is_replaces : is_replaces (query_of quoted) ≡ true
  unfolding is_replaces
  query_is_replaces =
      ap (λ (parts : Text × Text). same_text (lower (strip parts.0)) replaces_word) query_value
      ∙ unfold strip in refl

validate_refer_to_query-one :
    (query pair : Text)
    → is_empty query ≡ false
    → pairs_of query ≡ pair ∷ []
    → is_replaces pair ≡ true
    → validate_refer_to_query query ≡ ok tt
unfolding validate_refer_to_query
validate_refer_to_query-one query pair full pairs named = rw (full, pairs, named) refl

replaces_from_uri_query-one :
    (query pair value : Text) (spec : ReplacesSpec)
    → is_empty query ≡ false
    → pairs_of query ≡ pair ∷ []
    → is_replaces pair ≡ true
    → (name_and_value pair).1 ≡ value
    → parse_replaces_value (unquote value) ≡ ok spec
    → replaces_from_uri_query query ≡ ok (some spec)
unfolding replaces_from_uri_query replaces_from_pairs
replaces_from_uri_query-one query pair value spec full pairs named at read =
    rw (full, pairs, named, at, read) refl

-- The URI of an attended transfer to a target without header part.
attended_target_lem :
    (consult : Dialog)
    → any (λ (c : ℕ). c == 63) consult.remote_target ≡ false
    → attended_target consult
      ≡ consult.remote_target ++ (63 ∷ query_of (quote (header_value (replaces_of consult))))
unfolding attended_target
attended_target_lem consult h = rw h refl

-- An attended transfer reaches its target: of a request whose Refer-To is what the transferor writes
-- for a consultation, in angle brackets, the transferee reads the target of the consultation, the
-- identifiers that its target knows it by, and the referrer. The consultation's target passed the
-- guard, and its identifiers are clean and ASCII.
pub parse_refer-attended_target :
    (request : SipRequest) (consult : Dialog)
    → validate_transfer_target consult.remote_target ≡ ok tt
    → IsClean (replaces_of consult)
    → IsAscii (header_value (replaces_of consult))
    → headers_all request.headers refer_to_name ≡ angled (attended_target consult) ∷ []
    → parse_refer request
      ≡ ok (record {
        refer_to = consult.remote_target;
        replaces = some (replaces_of consult);
        referred_by = referrer (header request.headers referred_by_name);
      })
parse_refer-attended_target request consult good clean ascii one =
    let target = consult.remote_target in
    let value = header_value (replaces_of consult) in
    let quoted = quote value in
    let plain = quote-plain value ascii in
    let (_, safe, _, no_query, _) = validate_transfer_target-IsHarmless target good in
    let shape = attended_target_lem consult no_query in
    let behind_angle =
      any-join is_angle (63 ∷ (replaces_name ++ 61 ∷ [])) quoted refl
        (quoted-none is_angle quoted_angle quoted plain) in
    let behind_space =
      any-join is_space (63 ∷ (replaces_name ++ 61 ∷ [])) quoted refl
        (quoted-none is_space quoted_space quoted plain) in
    let uri : bracketed_uri (angled (attended_target consult)) ≡ target ++ (63 ∷ query_of quoted) =
      ap (λ (t : Text). bracketed_uri (angled t)) shape
      ∙ bracketed_uri-angled (target ++ (63 ∷ query_of quoted))
          (any-join is_angle target _ safe.no_angle behind_angle)
          (any-join is_space target _ safe.no_space behind_space) in
    let cut : target_and_query (target ++ (63 ∷ query_of quoted)) ≡ (target, query_of quoted) =
      rw (target_and_query, partition-first 63 target (query_of quoted) no_query) refl in
    parse_refer-parts request (angled (attended_target consult)) target (query_of quoted)
      (some (replaces_of consult)) one (ap target_and_query uri ∙ cut)
      (strip-solid target safe.no_space) good
      (validate_refer_to_query-one (query_of quoted) (query_of quoted) refl
        (query_pairs quoted plain) (query_is_replaces quoted plain))
      (replaces_from_uri_query-one (query_of quoted) (query_of quoted) quoted (replaces_of consult)
        refl (query_pairs quoted plain) (query_is_replaces quoted plain)
        (ap (λ (parts : Text × Text). parts.1) (query_value quoted plain))
        (ap parse_replaces_value (unquote-quote value ascii)
          ∙ parse_replaces_value-header_value (replaces_of consult) clean))
