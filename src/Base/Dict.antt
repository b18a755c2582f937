-- ===== src/Base/Dict.antt =====
-- A Python `dict` with number keys: an association list in insertion order, and its laws.
use hermes_voip.Base.Tests.{◌==◌, ==_iff, Bool-cases, if◌then◌else◌}
use hermes_voip.Base.Lists.{All, length}
use Prim.Native.Nat.{ℕ, suc}
use mathlib.Core.Path.{◌≡◌, refl}
use mathlib.Core.Logic.{inl, inr}
use mathlib.Core.Bool.{Bool, true, false}
use mathlib.Core.List.{List, [], ◌∷◌}
use mathlib.Core.Option.{Option, none, some}
use native.Mathlib.Omega.{arith}

abbrev pub Dict {ℓ} : Type ℓ → Type ℓ
Dict V = List (ℕ × V)

module _ {ℓ} {V : Type ℓ} where
  -- `d.get(k)`.
  unfoldable pub lookup : ℕ → Dict V → Option V
  lookup k [] = none
  lookup k ((j, v) ∷ m) = if j == k then some v else lookup k m

  -- `k in d`.
  unfoldable pub contains : ℕ → Dict V → Bool
  contains k [] = false
  contains k ((j, v) ∷ m) = if j == k then true else contains k m

  -- `d.setdefault(k, v)`: a key that is there keeps its value.
  unfoldable pub setdefault : ℕ → V → Dict V → Dict V
  setdefault k v [] = (k, v) ∷ []
  setdefault k v ((j, w) ∷ m) = if j == k then (j, w) ∷ m else (j, w) ∷ setdefault k v m

  -- `d[k] = v`: a key that is there keeps its place.
  unfoldable pub insert : ℕ → V → Dict V → Dict V
  insert k v [] = (k, v) ∷ []
  insert k v ((j, w) ∷ m) = if j == k then (j, v) ∷ m else (j, w) ∷ insert k v m

  -- `d.pop(k, None)`, the dictionary that is left.
  unfoldable pub remove : ℕ → Dict V → Dict V
  remove k [] = []
  remove k ((j, w) ∷ m) = if j == k then m else (j, w) ∷ remove k m

  -- No key stands twice.
  abbrev pub Distinct : Dict V → Type 0
  Distinct [] = Unit
  Distinct ((k, v) ∷ m) = (contains k m ≡ false) × Distinct m

module _ {ℓ} {V : Type ℓ} where
  pub contains-lookup : (k : ℕ) (m : Dict V) {v : V} → lookup k m ≡ some v → contains k m ≡ true
  unfolding contains lookup
  contains-lookup k [] h = cc
  contains-lookup k ((j, w) ∷ m) {v} h = ground (arith, contains-lookup k m {v = v})

  pub lookup_absent : (k : ℕ) (m : Dict V) → contains k m ≡ false → lookup k m ≡ none
  unfolding contains lookup
  lookup_absent k [] h = refl
  lookup_absent k ((j, w) ∷ m) h = ground (arith, lookup_absent k m)

  pub contains_absent : (k : ℕ) (m : Dict V) → lookup k m ≡ none → contains k m ≡ false
  unfolding contains lookup
  contains_absent k [] h = refl
  contains_absent k ((j, w) ∷ m) h = ground (arith, contains_absent k m)

  pub setdefault_present : (k : ℕ) (v : V) (m : Dict V) → contains k m ≡ true → setdefault k v m ≡ m
  unfolding contains setdefault
  setdefault_present k v [] h = cc
  setdefault_present k v ((j, w) ∷ m) h = ground (arith, setdefault_present k v m)

  pub lookup-setdefault :
      (k j : ℕ) (v : V) (m : Dict V)
      → contains k m ≡ false
      → lookup j (setdefault k v m) ≡ (if k == j then some v else lookup j m)
  unfolding contains lookup setdefault
  lookup-setdefault k j v [] h = refl
  lookup-setdefault k j v ((i, w) ∷ m) h = ground (arith, lookup-setdefault k j v m)

  pub contains-setdefault :
      (k j : ℕ) (v : V) (m : Dict V)
      → contains j (setdefault k v m) ≡ (if k == j then true else contains j m)
  unfolding contains setdefault
  contains-setdefault k j v [] = refl
  contains-setdefault k j v ((i, w) ∷ m) = ground (arith, contains-setdefault k j v m)

  -- A value that is there is not lost.
  pub lookup-setdefault_kept :
      (k j : ℕ) (v : V) (m : Dict V) {w : V}
      → lookup j m ≡ some w
      → lookup j (setdefault k v m) ≡ some w
  unfolding lookup setdefault
  lookup-setdefault_kept k j v [] h = cc
  lookup-setdefault_kept k j v ((i, u) ∷ m) {w} h =
      ground (arith, lookup-setdefault_kept k j v m {w = w})

  pub setdefault-Distinct : (k : ℕ) (v : V) (m : Dict V) → Distinct m → Distinct (setdefault k v m)
  unfolding setdefault contains
  setdefault-Distinct k v [] d = (refl, tt)
  setdefault-Distinct k v ((j, w) ∷ m) d =
      ground (arith, setdefault-Distinct k v m d.1, contains-setdefault k j v m)

  pub setdefault-All {κ} :
      (P : ℕ × V → Type κ) (k : ℕ) (v : V) (m : Dict V)
      → P (k, v)
      → All P m
      → All P (setdefault k v m)
  unfolding setdefault
  setdefault-All P k v [] h a = (h, tt)
  setdefault-All P k v ((j, w) ∷ m) h a =
      elim (j == k) as (λ b. All P (if b then (j, w) ∷ m else (j, w) ∷ setdefault k v m)) [
        | true ↦ a
        | false ↦ (a.0, setdefault-All P k v m h a.1)
      ]

  pub remove-All {κ} : (P : ℕ × V → Type κ) (k : ℕ) (m : Dict V) → All P m → All P (remove k m)
  unfolding remove
  remove-All P k [] a = tt
  remove-All P k ((j, w) ∷ m) a =
      elim (j == k) as (λ b. All P (if b then m else (j, w) ∷ remove k m)) [
        | true ↦ a.1
        | false ↦ (a.0, remove-All P k m a.1)
      ]

  pub lookup-All {κ} :
      (P : ℕ × V → Type κ) (k : ℕ) (m : Dict V) {v : V} → All P m → lookup k m ≡ some v → P (k, v)
  unfolding lookup
  lookup-All P k [] a h = cc
  lookup-All P k ((j, w) ∷ m) {v} a h = elim (Bool-cases (j == k)) [
    | inl hit ↦
        let key : j ≡ k = (==_iff j k).0 hit in
        let value : w ≡ v = ground arith in rw (← key, ← value) a.0
    | inr miss ↦ lookup-All P k m a.1 (ground arith)
  ]

  pub contains-remove :
      (k j : ℕ) (m : Dict V)
      → Distinct m
      → contains j (remove k m) ≡ (if k == j then false else contains j m)
  unfolding contains remove
  contains-remove k j [] d = ground arith
  contains-remove k j ((i, w) ∷ m) d = ground (arith, contains-remove k j m d.1)

  pub lookup-remove :
      (k j : ℕ) (m : Dict V)
      → Distinct m
      → lookup j (remove k m) ≡ (if k == j then none else lookup j m)
  unfolding lookup remove contains
  lookup-remove k j [] d = ground arith
  lookup-remove k j ((i, w) ∷ m) d = ground (arith, lookup-remove k j m d.1, lookup_absent i m d.0)

  pub remove-Distinct : (k : ℕ) (m : Dict V) → Distinct m → Distinct (remove k m)
  unfolding remove contains
  remove-Distinct k [] d = tt
  remove-Distinct k ((j, w) ∷ m) d =
      ground (arith, remove-Distinct k m d.1, contains-remove k j m d.1)

  pub length-remove :
      (k : ℕ) (m : Dict V) → contains k m ≡ true → length m ≡ suc (length (remove k m))
  unfolding remove contains
  length-remove k [] h = cc
  length-remove k ((j, w) ∷ m) h = ground (arith, length-remove k m)

  pub length-setdefault :
      (k : ℕ) (v : V) (m : Dict V)
      → length (setdefault k v m) ≡ (if contains k m then length m else suc (length m))
  unfolding setdefault contains
  length-setdefault k v [] = refl
  length-setdefault k v ((j, w) ∷ m) = ground (arith, length-setdefault k v m)
