-- ===== src/Transfer/Target/Safe.antt =====
-- src/hermes_voip/refer.py: what a target that passes the guard cannot contain, and what comes of a
-- blind transfer to it.
use hermes_voip.Base.{
  ℕ, ◌≤◌, ◌≡◌, refl, true, false, ◌==◌, List, [], ◌∷◌, length, some, ok, arith, All, Bool-cases,
  Option-cases, inl, inr, ◌⊎◌,
}
use hermes_voip.Base.Text.{Text, any, all, lower, is_space}
use hermes_voip.Base.Percent.{unquote}
use hermes_voip.Base.Text.Laws.{and_parts}
use hermes_voip.Message.{is_control}
use hermes_voip.Transfer.Target.{
  check_characters, validate_transfer_target, is_dialable, is_dial_char, is_clean_uri, uri_parts,
  UriParts, is_angle, is_wide, is_allowed_param, param_name, are_allowed, is_authority,
}

-- No character that could end the value or the line.
pub record IsHarmless (s : Text) : Type 0 where
  pub no_control : any is_control s ≡ false
  pub no_space : any is_space s ≡ false
  pub no_angle : any is_angle s ≡ false
  pub no_wide : any is_wide s ≡ false

check_characters-IsHarmless : (s : Text) → check_characters s ≡ ok tt → IsHarmless s
unfolding check_characters
check_characters-IsHarmless s h = ground arith

no_query_char : (c : ℕ) → is_dial_char c ≡ true → (c == 63) ≡ false
no_query_char c h = ground arith

all_dial : (s : Text) → all is_dial_char s ≡ true → any (λ (c : ℕ). c == 63) s ≡ false
all_dial [] h = refl
all_dial (c ∷ s) h = ground (arith, no_query_char c, all_dial s)

dialable-no_query : (s : Text) → is_dialable s ≡ true → any (λ (c : ℕ). c == 63) s ≡ false
unfolding is_dialable
dialable-no_query [] h = cc
dialable-no_query (c ∷ s) h = elim (Bool-cases (c == 43)) [
  | inl plus ↦ ground (arith, all_dial s)
  | inr other ↦ all_dial (c ∷ s) (ground (arith, other))
]

-- A URI whose parameters, all of them, have a name of the allowlist.
abbrev pub HasCleanUri : Text → Type 0
HasCleanUri s =
    (u : UriParts) × (uri_parts s ≡ some u)
    × (is_authority u.authority ≡ true)
    × All (λ (p : Text). is_allowed_param (lower (param_name p)) ≡ true) u.params

are_allowed-All :
    (ps : List Text)
    → are_allowed ps ≡ true
    → All (λ (p : Text). is_allowed_param (lower (param_name p)) ≡ true) ps
are_allowed-All [] h = tt
are_allowed-All (p ∷ ps) h =
    let (here, rest) = and_parts (is_allowed_param (lower (param_name p))) (are_allowed ps) h in
    (here, are_allowed-All ps rest)

clean_parts : (s : Text) → is_clean_uri s ≡ true → HasCleanUri s
unfolding is_clean_uri
clean_parts s h = elim (Option-cases (uri_parts s)) [
  | inl e ↦ absurd (ground (arith, e))
  | inr (u, e) ↦ (u, e, ground (arith, e), are_allowed-All u.params (ground (arith, e)))
]

-- What passes the guard is harmless as it stands and as a gateway unescapes it, holds no header part,
-- and is a number to dial or a URI with a well-formed authority whose parameters are all on the
-- allowlist.
pub validate_transfer_target-IsHarmless :
    (target : Text)
    → validate_transfer_target target ≡ ok tt
    → (length target ≤ 256)
      × IsHarmless target
      × IsHarmless (unquote target)
      × (any (λ (c : ℕ). c == 63) target ≡ false)
      × ((is_dialable target ≡ true) ⊎ HasCleanUri target)
unfolding validate_transfer_target
validate_transfer_target-IsHarmless target h = elim (Bool-cases (is_dialable target)) [
  | inl dial ↦ (
    ground arith,
    check_characters-IsHarmless target (ground arith),
    check_characters-IsHarmless (unquote target) (ground arith),
    dialable-no_query target dial,
    inl dial,
  )
  | inr no_dial ↦ (
    ground arith,
    check_characters-IsHarmless target (ground arith),
    check_characters-IsHarmless (unquote target) (ground arith),
    ground (arith, no_dial),
    inr (clean_parts target (ground (arith, no_dial))),
  )
]
