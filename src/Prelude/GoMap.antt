-- ===== src/Prelude/GoMap.antt =====
-- Go's `map[string]V` as an association list. A `range` over a map goes through the list in order,
-- which stands for one of the orders that Go may choose.
use mathlib.Core.Path.{◌≡◌, refl, ◌∙◌}
use mathlib.Core.Option.{Option, none, some}
use mathlib.Core.List.{List, [], ◌∷◌}
use native.Mathlib.Omega.{arith}
use skyr_block_explorer.Prelude.Tests.{if◌then◌else◌, Bool-cases}
use mathlib.Core.Bool.{false}
use mathlib.Core.Logic.{inl, inr}
use skyr_block_explorer.Prelude.Bytes.{Bytes, bytes_eq, bytes_eq_iff}

abbrev pub GoMap {ℓ} : Type ℓ → Type ℓ
GoMap V = List (Bytes × V)

module _ {ℓ} {V : Type ℓ} where
  unfoldable pub lookup : Bytes → GoMap V → Option V
  lookup k [] = none
  lookup k ((j, v) ∷ m) = if bytes_eq j k then some v else lookup k m

  unfoldable pub insert : Bytes → V → GoMap V → GoMap V
  insert k v [] = (k, v) ∷ []
  insert k v ((j, w) ∷ m) = if bytes_eq j k then (j, v) ∷ m else (j, w) ∷ insert k v m

  unfoldable pub delete : Bytes → GoMap V → GoMap V
  delete k [] = []
  delete k ((j, w) ∷ m) = let rest = delete k m in if bytes_eq j k then rest else (j, w) ∷ rest

  pub lookup-insert :
      (k j : Bytes) (v : V) (m : GoMap V)
      → lookup j (insert k v m) ≡ (if bytes_eq k j then some v else lookup j m)
  unfolding lookup insert
  lookup-insert k j v [] = refl
  lookup-insert k j v ((i, w) ∷ m) =
      ground (arith, bytes_eq_iff k j, bytes_eq_iff i k, bytes_eq_iff i j, lookup-insert k j v m)

  pub lookup-delete :
      (k j : Bytes) (m : GoMap V)
      → lookup j (delete k m) ≡ (if bytes_eq k j then none else lookup j m)
  unfolding lookup delete
  lookup-delete k j [] = ground arith
  lookup-delete k j ((i, w) ∷ m) =
      ground (arith, bytes_eq_iff k j, bytes_eq_iff i k, bytes_eq_iff i j, lookup-delete k j m)

pub ruleset map_laws = (lookup-insert, lookup-delete)

-- The keys of a map of Go are distinct.
abbrev pub Distinct {ℓ} : {V : Type ℓ} → GoMap V → Type ℓ
Distinct [] = Unit
Distinct ((k, v) ∷ m) = (lookup k m ≡ none) × Distinct m

module _ {ℓ} {V : Type ℓ} where
  pub Distinct-insert : (m : GoMap V) (k : Bytes) (x : V) → Distinct m → Distinct (insert k x m)
  unfolding insert
  Distinct-insert [] k x h = (unfold lookup in refl, tt)
  Distinct-insert ((j, y) ∷ m) k x h = elim (Bool-cases (bytes_eq j k)) [
    | inl s ↦ rw s h
    | inr s ↦ rw s (absent s, Distinct-insert m k x h.1)
  ]
    where
      absent : bytes_eq j k ≡ false → lookup j (insert k x m) ≡ none
      absent s = lookup-insert k j x m ∙ ground (arith, s, h.0, bytes_eq_iff j k, bytes_eq_iff k j)

module _ {ℓ} {V : Type ℓ} where
  pub Distinct-delete : (m : GoMap V) (k : Bytes) → Distinct m → Distinct (delete k m)
  unfolding delete
  Distinct-delete [] k h = tt
  Distinct-delete ((j, y) ∷ m) k h = elim (Bool-cases (bytes_eq j k)) [
    | inl s ↦ rw s (Distinct-delete m k h.1)
    | inr s ↦ rw s (lookup-delete k j m ∙ ground (arith, h.0), Distinct-delete m k h.1)
  ]
