-- ===== src/Prelude/Bytes.antt =====
-- Byte slices and strings: both are lists of bytes. `bytes.Equal` and `==` on strings agree.
use Prim.Native.Nat.{ℕ}
use mathlib.Core.Path.{◌≡◌, refl}
use mathlib.Core.Logic.{◌↔◌}
use mathlib.Core.Bool.{Bool, true, false, ◌&&◌}
use mathlib.Core.Option.{Option, none, some}
use mathlib.Core.List.{List, [], ◌∷◌, ◌++◌}
use native.Mathlib.Omega.{arith}
use skyr_block_explorer.Prelude.Tests.{leb, ◌==◌, if◌then◌else◌}
use skyr_block_explorer.Prelude.Lists.{length, take, drop, take-append, drop-append, length-append}

abbrev pub Bytes : Type 0
Bytes = List ℕ

unfoldable pub bytes_eq : Bytes → Bytes → Bool
bytes_eq [] [] = true
bytes_eq (x ∷ xs) (y ∷ ys) = (x == y) && bytes_eq xs ys
bytes_eq _ _ = false

pub bytes_eq_iff : (a b : Bytes) → (bytes_eq a b ≡ true) ↔ (a ≡ b)
unfolding bytes_eq
bytes_eq_iff [] [] = ground arith
bytes_eq_iff [] (y ∷ ys) = ground arith
bytes_eq_iff (x ∷ xs) [] = ground arith
bytes_eq_iff (x ∷ xs) (y ∷ ys) = ground (arith, bytes_eq_iff xs ys)

pub bytes_eq_refl : (a : Bytes) → bytes_eq a a ≡ true
bytes_eq_refl a = (bytes_eq_iff a a).1 refl

-- `buf[n:]` and `buf[:n]`; `none` is the run-time panic of an index out of range.
unfoldable pub slice_from : Bytes → ℕ → Option Bytes
slice_from buf n = if leb n (length buf) then some (drop n buf) else none

unfoldable pub slice_to : Bytes → ℕ → Option Bytes
slice_to buf n = if leb n (length buf) then some (take n buf) else none

pub slice_from-append : (xs ys : Bytes) → slice_from (xs ++ ys) (length xs) ≡ some ys
unfolding slice_from
slice_from-append xs ys = ground (arith, length-append xs ys, drop-append xs ys)

pub slice_to-append : (xs ys : Bytes) → slice_to (xs ++ ys) (length xs) ≡ some xs
unfolding slice_to
slice_to-append xs ys = ground (arith, length-append xs ys, take-append xs ys)
