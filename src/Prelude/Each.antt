-- ===== src/Prelude/Each.antt =====
-- What holds of every element, kept by the updates of lists and maps.
use skyr_block_explorer.Prelude.Lists.{get_elem?, set, replicate, All}
use skyr_block_explorer.Prelude.Bytes.{Bytes, bytes_eq}
use skyr_block_explorer.Prelude.GoMap.{GoMap, lookup, insert}
use Prim.Native.Nat.{ℕ, zero, suc}
use mathlib.Core.Path.{◌≡◌, subst}
use mathlib.Core.Logic.{inl, inr}
use mathlib.Core.Option.{some}
use mathlib.Core.List.{List, [], ◌∷◌}
use skyr_block_explorer.Prelude.Tests.{Bool-cases}

module _ {A : Type 0} (P : A → Type 0) where
  pub All-get_elem? : (xs : List A) (i : ℕ) {x : A} → All P xs → get_elem? xs i ≡ some x → P x
  All-get_elem? [] i h e = cc
  All-get_elem? (y ∷ xs) zero {x} h e = let q : y ≡ x = cc in subst P q h.0
  All-get_elem? (y ∷ xs) (suc i) h e = All-get_elem? xs i h.1 e

  pub All-set : (xs : List A) (i : ℕ) (x : A) → All P xs → P x → All P (set xs i x)
  All-set [] i x h k = h
  All-set (y ∷ xs) zero x h k = (k, h.1)
  All-set (y ∷ xs) (suc i) x h k = (h.0, All-set xs i x h.1 k)

  pub All-replicate : (n : ℕ) (x : A) → P x → All P (replicate n x)
  All-replicate zero x k = tt
  All-replicate (suc n) x k = (k, All-replicate n x k)

  abbrev pub AllValues : GoMap A → Type 0
  AllValues m = All (λ (p : Bytes × A). P p.1) m

  pub AllValues-lookup : (m : GoMap A) (k : Bytes) {x : A} → AllValues m → lookup k m ≡ some x → P x
  unfolding lookup
  AllValues-lookup [] k h e = cc
  AllValues-lookup ((j, y) ∷ m) k {x} h e = elim (Bool-cases (bytes_eq j k)) [
    | inl s ↦ let q : y ≡ x = cc (s, e) in subst P q h.0
    | inr s ↦ AllValues-lookup m k h.1 (rw s at e)
  ]

  pub AllValues-insert :
      (m : GoMap A) (k : Bytes) (x : A) → AllValues m → P x → AllValues (insert k x m)
  unfolding insert
  AllValues-insert [] k x h p = (p, tt)
  AllValues-insert ((j, y) ∷ m) k x h p = elim (Bool-cases (bytes_eq j k)) [
    | inl s ↦ rw s (p, h.1)
    | inr s ↦ rw s (h.0, AllValues-insert m k x h.1 p)
  ]
