-- ===== src/Transfer/Replaces.antt =====
-- src/hermes_voip/refer.py: the Replaces value as it is written and read, and the dialog it names.
use hermes_voip.Base.{
  ℕ, ◌≡◌, refl, ap, ◌∙◌, subst, Bool, true, false, ◌&&◌, ◌==◌, if◌then◌else◌, List, [], ◌∷◌, ◌++◌,
  Option, none, some, ok, arith, All, Bool-cases, inl, inr, append-nil,
}
use mathlib.Core.List.{Memᴰ}
use hermes_voip.Base.Text.{Text, any, split, partition, strip, is_empty, same_text, lower}
use hermes_voip.Base.Text.Laws.{same_text→≡, same_text_refl, and_parts, split-part, split-whole}
use hermes_voip.Message.{header}
use hermes_voip.Message.Parse.{SipRequest}
use hermes_voip.Message.Parse.Lines.{partition-first}
use hermes_voip.Dialog.{Dialog}
use hermes_voip.Transfer.{
  ReplacesSpec, header_value, parse_replaces_value, collect_parts, add_pair, to_tag_word,
  from_tag_word, early_only_word, no_parts,
}
use hermes_voip.Transfer.Requests.{matching, match_replaces, replaces_of, replaces_name}

-- A value between semicolons.
pub record IsField (t : Text) : Type 0 where
  pub full : is_empty t ≡ false
  pub trimmed : strip t ≡ t
  pub closed : any (λ (c : ℕ). c == 59) t ≡ false

pub record IsClean (s : ReplacesSpec) : Type 0 where
  pub call_id_field : IsField s.call_id
  pub to_field : IsField s.to_tag
  pub from_field : IsField s.from_tag

-- The part `name=value`.
collect_parts-pair :
    (name value : Text) (rest : List Text)
    → any (λ (c : ℕ). c == 61) name ≡ false
    → lower (strip name) ≡ name
    → strip value ≡ value
    → collect_parts ((name ++ (61 ∷ value)) ∷ rest) ≡ add_pair name value (collect_parts rest)
unfolding collect_parts
collect_parts-pair name value rest closed same trimmed =
    rw (collect_parts, partition-first 61 name value closed, same, trimmed) refl

early_parts : Bool → List Text
early_parts early = if early then early_only_word ∷ [] else []

early_parts-collected :
    (early : Bool) → collect_parts (early_parts early) ≡ record no_parts { early = early }
unfolding early_parts collect_parts partition strip
early_parts-collected true = refl
early_parts-collected false = refl

-- The parameters of the value.
fields-collected :
    (s : ReplacesSpec)
    → IsClean s
    → collect_parts (
        (to_tag_word ++ (61 ∷ s.to_tag))
        ∷ (from_tag_word ++ (61 ∷ s.from_tag))
        ∷ early_parts s.early_only)
      ≡ record { to_tags = s.to_tag ∷ []; from_tags = s.from_tag ∷ []; early = s.early_only }
fields-collected s v =
    collect_parts-pair to_tag_word s.to_tag _ refl (unfold strip in refl) v.to_field.trimmed
    ∙ ap (add_pair to_tag_word s.to_tag) (
        collect_parts-pair from_tag_word s.from_tag _ refl (unfold strip in refl)
          v.from_field.trimmed
        ∙ ap (add_pair from_tag_word s.from_tag) (early_parts-collected s.early_only))

any-prefixed :
    (p : ℕ → Bool) (w t : Text) → any p w ≡ false → any p t ≡ false → any p (w ++ t) ≡ false
any-prefixed p [] t h k = k
any-prefixed p (c ∷ w) t h k = ground (arith, any-prefixed p w t)

last_field :
    (early : Bool) (t : Text)
    → any (λ (c : ℕ). c == 59) t ≡ false
    → split 59 (t ++ (if early then 59 ∷ early_only_word else [])) ≡ (t, early_parts early)
unfolding early_parts
last_field true t h = split-part 59 t early_only_word h ∙ unfold split in refl
last_field false t h = rw (append-nil t) (split-whole 59 t h)

abbrev cons_field : Text → Text × List Text → Text × List Text
cons_field t parts = (t, parts.0 ∷ parts.1)

header_value-fields :
    (s : ReplacesSpec)
    → IsClean s
    → split 59 (header_value s) ≡ (
      s.call_id,
      (to_tag_word ++ (61 ∷ s.to_tag))
          ∷ (from_tag_word ++ (61 ∷ s.from_tag))
          ∷ early_parts s.early_only,
    )
unfolding header_value
header_value-fields s v =
    let to_pair = to_tag_word ++ (61 ∷ s.to_tag) in
    let from_pair = from_tag_word ++ (61 ∷ s.from_tag) in
    let to_closed =
      any-prefixed (λ (c : ℕ). c == 59) (to_tag_word ++ 61 ∷ []) s.to_tag refl v.to_field.closed in
    let from_closed =
      any-prefixed (λ (c : ℕ). c == 59) (from_tag_word ++ 61 ∷ []) s.from_tag refl
        v.from_field.closed in
    split-part 59 s.call_id _ v.call_id_field.closed
    ∙ ap (cons_field s.call_id) (
        split-part 59 to_pair _ to_closed
        ∙ ap (cons_field to_pair) (last_field s.early_only from_pair from_closed))

-- The round trip of the header: what `header_value` writes of clean identifiers is read back as them.
pub parse_replaces_value-header_value :
    (s : ReplacesSpec) → IsClean s → parse_replaces_value (header_value s) ≡ ok s
unfolding parse_replaces_value
parse_replaces_value-header_value s v =
    rw
      (
        header_value-fields s v,
        fields-collected s v,
        v.call_id_field.trimmed,
        v.call_id_field.full,
        v.to_field.full,
        v.from_field.full,
      )
      refl

-- A dialog that is the consultation as its other end sees it.
abbrev pub Mirrors : Dialog → Dialog → Type 0
Mirrors consult d =
    (d.call_id ≡ consult.call_id)
    × (d.local_tag ≡ consult.remote_tag)
    × (d.remote_tag ≡ consult.local_tag)

abbrev pub FindsMirror : Dialog → List Dialog → Option Dialog → Type 0
FindsMirror consult dialogs none = All (λ (d : Dialog). ¬ Mirrors consult d) dialogs
FindsMirror consult dialogs (some d) = Memᴰ d dialogs × Mirrors consult d

abbrev names : Dialog → Dialog → Bool
names consult d =
    same_text d.call_id consult.call_id
    && (same_text d.local_tag consult.remote_tag && same_text d.remote_tag consult.local_tag)

names-Mirrors : (consult d : Dialog) → names consult d ≡ true → Mirrors consult d
names-Mirrors consult d h =
    let (c, tags) = and_parts (same_text d.call_id consult.call_id) _ h in
    let (l, r) = and_parts (same_text d.local_tag consult.remote_tag) _ tags in
    (same_text→≡ _ _ c, same_text→≡ _ _ l, same_text→≡ _ _ r)

Mirrors-names : (consult d : Dialog) → Mirrors consult d → names consult d ≡ true
Mirrors-names consult d (c, l, r) =
    rw
      (
        c,
        l,
        r,
        same_text_refl consult.call_id,
        same_text_refl consult.remote_tag,
        same_text_refl consult.local_tag,
      )
      refl

FindsMirror-skip :
    (consult d : Dialog) (dialogs : List Dialog) (o : Option Dialog)
    → names consult d ≡ false
    → FindsMirror consult dialogs o
    → FindsMirror consult (d ∷ dialogs) o
FindsMirror-skip consult d dialogs none h f =
    ((λ m. ground (arith, h, Mirrors-names consult d m)), f)
FindsMirror-skip consult d dialogs (some e) h (m, f) = (Memᴰ.tail m, f)

matching-here :
    (consult d : Dialog) (dialogs : List Dialog)
    → names consult d ≡ true
    → some d ≡ matching (replaces_of consult) (d ∷ dialogs)
unfolding matching
matching-here consult d dialogs h = rw h refl

matching-later :
    (consult d : Dialog) (dialogs : List Dialog)
    → names consult d ≡ false
    → matching (replaces_of consult) dialogs ≡ matching (replaces_of consult) (d ∷ dialogs)
unfolding matching
matching-later consult d dialogs h = rw h refl

matching-FindsMirror :
    (consult : Dialog) (dialogs : List Dialog)
    → FindsMirror consult dialogs (matching (replaces_of consult) dialogs)
matching-FindsMirror consult [] = unfold matching in tt
matching-FindsMirror consult (d ∷ dialogs) = elim (Bool-cases (names consult d)) [
  | inl here ↦
      subst (FindsMirror consult (d ∷ dialogs)) (matching-here consult d dialogs here)
        (Memᴰ.head refl, names-Mirrors consult d here)
  | inr later ↦
      subst (FindsMirror consult (d ∷ dialogs)) (matching-later consult d dialogs later)
        (FindsMirror-skip consult d dialogs _ later (matching-FindsMirror consult dialogs))
]

-- The orientation of RFC 3891: for a Replaces that the transferor wrote of its consultation, the
-- target finds a dialog exactly if one of its dialogs is the consultation seen from the other
-- end, with our tag as its remote one, and then it finds such a dialog.
pub match_replaces-FindsMirror :
    (request : SipRequest) (consult : Dialog) (dialogs : List Dialog)
    → IsClean (replaces_of consult)
    → header request.headers replaces_name ≡ some (header_value (replaces_of consult))
    → (found : Option Dialog) × (match_replaces request dialogs ≡ ok found)
      × FindsMirror consult dialogs found
unfolding match_replaces
match_replaces-FindsMirror request consult dialogs clean named = (
  matching (replaces_of consult) dialogs,
  rw (match_replaces, named, parse_replaces_value-header_value (replaces_of consult) clean) refl,
  matching-FindsMirror consult dialogs,
)
