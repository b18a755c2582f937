-- ===== src/Address.antt =====
-- src/hermes_voip/_header_list.py and src/hermes_voip/_name_addr.py: the scanners of header values
-- that know quoted strings and angle brackets.
pub mod Quoting
use hermes_voip.Base.{
  ℕ, Bool, true, false, not, ◌&&◌, ◌||◌, ◌==◌, leb, if◌then◌else◌, List, [], ◌∷◌, ◌++◌, suc, ◌-◌,
  Option, none, some,
}
use hermes_voip.Base.Text.{Text, strip, lower, same_text, is_digit, is_empty, partition, all}

-- `in_quote` and `escaped`.
pub record Quote : Type 0 where
  pub in_quote : Bool
  pub escaped : Bool

abbrev pub outside : Quote
outside = record { in_quote = false; escaped = false }

abbrev pub inside : Quote
inside = record { in_quote = true; escaped = false }

abbrev pub escaping : Quote
escaping = record { in_quote = true; escaped = true }

-- What a character does to the two flags.
unfoldable pub advance : Quote → ℕ → Quote
advance q c =
    if q.escaped
    then record { in_quote = q.in_quote; escaped = false }
    else if q.in_quote && c == 92
    then record { in_quote = q.in_quote; escaped = true }
    else if c == 34
    then record { in_quote = not q.in_quote; escaped = false }
    else q

-- The flags of the splitter at commas: a quote inside angle brackets is no quote.
pub record Scan : Type 0 where
  pub in_angle : Bool
  pub quote : Quote

unfoldable pub advance_entry : Scan → ℕ → Scan
advance_entry s c =
    if s.quote.escaped || s.quote.in_quote
    then record { in_angle = s.in_angle; quote = advance s.quote c }
    else if c == 34 && not s.in_angle
    then record { in_angle = s.in_angle; quote = advance s.quote c }
    else if c == 60
    then record { in_angle = true; quote = s.quote }
    else if c == 62
    then record { in_angle = false; quote = s.quote }
    else s

abbrev pub is_separator : Scan → ℕ → Bool
is_separator s c = c == 44 && (not s.in_angle && (not s.quote.in_quote && not s.quote.escaped))

-- The entry that is being read, and those behind it.
unfoldable pub scan_entries : Scan → Text → Text × List Text
scan_entries s [] = ([], [])
scan_entries s (c ∷ cs) =
    let rest = scan_entries (advance_entry s c) cs in
    if is_separator s c then ([], rest.0 ∷ rest.1) else (c ∷ rest.0, rest.1)

abbrev pub keep_entries : List Text → List Text
keep_entries [] = []
keep_entries (e ∷ es) = if is_empty (strip e) then keep_entries es else strip e ∷ keep_entries es

abbrev pub between_entries : Scan
between_entries = record { in_angle = false; quote = outside }

unfoldable pub split_header_list : Text → List Text
split_header_list value =
    let entries = scan_entries between_entries value in keep_entries (entries.0 ∷ entries.1)

abbrev pub Parts : Type 0
Parts = Text × Text × Text

abbrev pub with_front : Text → Option Parts → Option Parts
with_front front none = none
with_front front (some (name, spec, trailing)) = some (front ++ name, spec, trailing)

-- What `name_addr_parts` gives at an opening bracket.
abbrev pub close_angle : Text → Option Parts
close_angle cs = elim (partition 62 cs) [
  | none ↦ none
  | some (spec, trailing) ↦ some ([], spec, trailing)
]

abbrev pub is_open_angle : Quote → ℕ → Bool
is_open_angle q c = c == 60 && (not q.in_quote && not q.escaped)

unfoldable pub name_addr_from : Quote → Text → Option Parts
name_addr_from q [] = none
name_addr_from q (c ∷ cs) =
    let rest = name_addr_from (advance q c) cs in
    if is_open_angle q c then close_angle cs else with_front (c ∷ []) rest

unfoldable pub name_addr_parts : Text → Option Parts
name_addr_parts value = name_addr_from outside value

unfoldable pub find_name_addr : Text → Option (Text × Text)
find_name_addr value = elim (name_addr_parts value) [
  | none ↦ none
  | some (name, spec, trailing) ↦ some (spec, trailing)
]

abbrev pub is_outside : Quote → Bool
is_outside q = not q.in_quote && not q.escaped

-- The parameter that is being read, and those behind it.
unfoldable pub split_from : Quote → Text → Text × List Text
split_from q [] = ([], [])
split_from q (c ∷ cs) =
    let rest = split_from (advance q c) cs in
    if c == 59 && is_outside q then ([], rest.0 ∷ rest.1) else (c ∷ rest.0, rest.1)

unfoldable pub split_params : Text → List Text
split_params trailing = let parts = split_from outside trailing in parts.0 ∷ parts.1

-- A character of `_TAG_TOKEN`.
abbrev pub is_tag_char : ℕ → Bool
is_tag_char c =
    is_digit c
    || ((leb 65 c && leb c 90)
        || ((leb 97 c && leb c 122)
            || (c == 45
                || (c == 46
                    || (c == 33
                        || (c == 37
                            || (c == 42
                                || (c == 95
                                    || (c == 43 || (c == 96 || (c == 39 || c == 126)))))))))))

abbrev pub is_tag : Text → Bool
is_tag s = not (is_empty s) && all is_tag_char s

abbrev pub is_blank : ℕ → Bool
is_blank c = c == 32 || c == 9

-- `strip(" \t")`.
abbrev pub skip_blanks : Text → Text
skip_blanks [] = []
skip_blanks (c ∷ cs) = if is_blank c then skip_blanks cs else c ∷ cs

abbrev pub drop_blanks : Text → Text
drop_blanks [] = []
drop_blanks (c ∷ cs) = elim (drop_blanks cs) [
  | [] ↦ if is_blank c then [] else c ∷ []
  | d ∷ ds ↦ c ∷ d ∷ ds
]

abbrev pub strip_blanks : Text → Text
strip_blanks s = drop_blanks (skip_blanks s)

abbrev pub tag_word : Text
tag_word = 116 ∷ 97 ∷ 103 ∷ []

-- The loop of `tag_param`.
unfoldable pub find_tag : List Text → Option Text
find_tag [] = none
find_tag (part ∷ parts) =
    let rest = find_tag parts in
    elim (partition 61 part) [
      | none ↦ rest
      | some (key, raw) ↦
          if same_text tag_word (lower (strip_blanks key))
          then if is_tag (strip_blanks raw) then some (strip_blanks raw) else none
          else rest
    ]

unfoldable pub tag_param : Text → Option Text
tag_param trailing = find_tag (split_params trailing)

-- `angle_depth` behind a character outside quotes.
abbrev pub deepen : ℕ → ℕ → ℕ
deepen depth c = if c == 60 then suc depth else if c == 62 then depth - 1 else depth

unfoldable pub params_from : Quote → ℕ → Text → Text
params_from q depth [] = []
params_from q depth (c ∷ cs) =
    let rest = params_from (advance q c) (if is_outside q then deepen depth c else depth) cs in
    if c == 59 && (is_outside q && depth == 0) then cs else rest

unfoldable pub params_after_addr : Text → Text
params_after_addr value = params_from outside 0 value
