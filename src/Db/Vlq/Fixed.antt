-- ===== src/Db/Vlq/Fixed.antt =====
-- A codec that meets `VlqLaws`, at which theorems over any codec can be applied: eight bytes a number.
use skyr_block_explorer.Prelude.{
  ℕ, ◌+◌, ◌*◌, ◌/◌, ◌%◌, ◌^◌, ◌<◌, ◌≡◌, Option, none, some, [], ◌∷◌, ◌++◌, arith, ◌==◌,
  if◌then◌else◌,
}
use skyr_block_explorer.Prelude.Int.{ℤ, pos, negsuc, FitsInt}
use skyr_block_explorer.Prelude.Bytes.{Bytes}
use skyr_block_explorer.Db.Vlq.{Vlq, VlqLaws}

abbrev put : ℕ → Bytes
put n =
    (n % 256)
    ∷ (n / 2 ^ 8 % 256)
    ∷ (n / 2 ^ 16 % 256)
    ∷ (n / 2 ^ 24 % 256)
    ∷ (n / 2 ^ 32 % 256)
    ∷ (n / 2 ^ 40 % 256)
    ∷ (n / 2 ^ 48 % 256)
    ∷ (n / 2 ^ 56 % 256)
    ∷ []

abbrev get : Bytes → Option (ℕ × ℕ)
get (a ∷ b ∷ c ∷ d ∷ e ∷ f ∷ g ∷ h ∷ rest) =
    some (
      a + b * 2 ^ 8 + c * 2 ^ 16 + d * 2 ^ 24 + e * 2 ^ 32 + f * 2 ^ 40 + g * 2 ^ 48 + h * 2 ^ 56,
      8,
    )
get _ = none

abbrev zigzag : ℤ → ℕ
zigzag (pos n) = 2 * n
zigzag (negsuc n) = 2 * n + 1

abbrev unzigzag : ℕ → ℤ
unzigzag n = if n % 2 == 0 then pos (n / 2) else negsuc (n / 2)

abbrev pub fixed : Vlq
fixed = record {
  put_uint = put;
  uint = get;
  put_int = λ z. put (zigzag z);
  int = λ buf. elim (get buf) [ none ↦ none | some (n, l) ↦ some (unzigzag n, l) ];
}

get-put : (n : ℕ) (rest : Bytes) → n < 2 ^ 64 → get (put n ++ rest) ≡ some (n, 8)
get-put n rest h = ground arith

int-put : (z : ℤ) (rest : Bytes) → FitsInt 63 z → fixed.int (fixed.put_int z ++ rest) ≡ some (z, 8)
int-put (pos n) rest h = ground (arith, get-put (2 * n) rest)
int-put (negsuc n) rest h = ground (arith, get-put (2 * n + 1) rest)

pub fixed-laws : VlqLaws fixed
fixed-laws = record {
  uint-put = get-put;
  int-put = int-put;
  put_uint-pos = λ n. omega arith;
  put_int-pos = λ z. omega arith;
}
