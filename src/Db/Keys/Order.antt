-- ===== src/Db/Keys/Order.antt =====
-- db/rocksdb.go, packAddressKey: on the order of keys.
use mathlib.Core.Path.{ap₂}
use skyr_block_explorer.Prelude.{
  ℕ, ◌+◌, ◌*◌, ◌/◌, ◌%◌, ◌^◌, ◌<◌, ◌≡◌, refl, ◌∙◌, false, ◌&&◌, ◌||◌, [], ◌∷◌, ◌++◌, arith, ltb,
  ◌==◌,
}
use skyr_block_explorer.Prelude.Bytes.{Bytes}
use skyr_block_explorer.Db.Keys.{pack_uint, pack_address_key, complement32, bytes_ltb}

bytes_ltb-append : (a xs ys : Bytes) → bytes_ltb (a ++ xs) (a ++ ys) ≡ bytes_ltb xs ys
unfolding bytes_ltb
bytes_ltb-append [] xs ys = refl
bytes_ltb-append (x ∷ a) xs ys = ground (arith, bytes_ltb-append a xs ys)

-- The leading digit decides, and then the others.
lex1 : (d w : ℕ) → (ltb d w || ((d == w) && false)) ≡ ltb d w
lex1 d w = ground arith

lex2 :
    (c d z w : ℕ)
    → d < 2 ^ 8
    → w < 2 ^ 8
    → (ltb c z || ((c == z) && ltb d w)) ≡ ltb (c * 2 ^ 8 + d) (z * 2 ^ 8 + w)
lex2 c d z w h k = ground arith

lex3 :
    (c d z w : ℕ)
    → d < 2 ^ 16
    → w < 2 ^ 16
    → (ltb c z || ((c == z) && ltb d w)) ≡ ltb (c * 2 ^ 16 + d) (z * 2 ^ 16 + w)
lex3 c d z w h k = ground arith

lex4 :
    (c d z w : ℕ)
    → d < 2 ^ 24
    → w < 2 ^ 24
    → (ltb c z || ((c == z) && ltb d w)) ≡ ltb (c * 2 ^ 24 + d) (z * 2 ^ 24 + w)
lex4 c d z w h k = ground arith

bytes_ltb-pack_uint :
    (x y : ℕ) → x < 2 ^ 32 → y < 2 ^ 32 → bytes_ltb (pack_uint x) (pack_uint y) ≡ ltb x y
unfolding bytes_ltb pack_uint
bytes_ltb-pack_uint x y hx hy = rw (lex1 (x % 256) (y % 256)) (
    rw (lex2 (x / 2 ^ 8 % 256) (x % 256) (y / 2 ^ 8 % 256) (y % 256) (omega arith) (omega arith)) (
      rw
        (lex3 (x / 2 ^ 16 % 256) (x / 2 ^ 8 % 256 * 2 ^ 8 + x % 256) (y / 2 ^ 16 % 256)
          (y / 2 ^ 8 % 256 * 2 ^ 8 + y % 256) (omega arith) (omega arith))
        (rw
          (lex4 (x / 2 ^ 24 % 256) (x / 2 ^ 16 % 256 * 2 ^ 16 + (x / 2 ^ 8 % 256 * 2 ^ 8 + x % 256))
            (y / 2 ^ 24 % 256) (y / 2 ^ 16 % 256 * 2 ^ 16 + (y / 2 ^ 8 % 256 * 2 ^ 8 + y % 256))
            (omega arith) (omega arith))
          (ap₂ ltb (whole x hx) (whole y hy)))))
  where
    whole :
        (n : ℕ)
        → n < 2 ^ 32
        → n / 2 ^ 24 % 256 * 2 ^ 24
            + (n / 2 ^ 16 % 256 * 2 ^ 16 + (n / 2 ^ 8 % 256 * 2 ^ 8 + n % 256))
          ≡ n
    whole n h = omega arith

-- Of two keys of one descriptor and heights below 2 ^ 32, the one that is smaller in the order of
-- bytes is the one of the higher block.
pub pack_address_key_order :
    (addr_desc : Bytes) (h1 h2 : ℕ)
    → h1 < 2 ^ 32
    → h2 < 2 ^ 32
    → bytes_ltb (pack_address_key addr_desc h1) (pack_address_key addr_desc h2) ≡ ltb h2 h1
unfolding pack_address_key
pack_address_key_order addr_desc h1 h2 p q =
    bytes_ltb-append addr_desc (pack_uint (complement32 h1)) (pack_uint (complement32 h2))
    ∙ bytes_ltb-pack_uint (complement32 h1) (complement32 h2) (omega arith) (omega arith)
    ∙ ground arith
