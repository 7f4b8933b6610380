-- ===== src/Db/Vlq.antt =====
-- db/rocksdb.go, packVarint32 to unpackVaruint. The codec is github.com/bsm/go-vlq, which is not in
-- the repository: it is the parameter `Vlq`, with what the code relies on as `VlqLaws`.
pub mod Fixed
use skyr_block_explorer.Prelude.{ℕ, ◌≤◌, ◌<◌, ◌^◌, ◌≡◌, Option, none, some, ◌++◌, length}
use skyr_block_explorer.Prelude.Int.{ℤ, to_int32, FitsInt}
use skyr_block_explorer.Prelude.Bytes.{Bytes}

-- `PutUint` and `PutInt` give the bytes that are written; `Uint` and `Int` give the value and the
-- number of bytes read, and `none` where they panic.
pub record Vlq : Type 0 where
  pub put_uint : ℕ → Bytes
  pub uint : Bytes → Option (ℕ × ℕ)
  pub put_int : ℤ → Bytes
  pub int : Bytes → Option (ℤ × ℕ)

-- A number is read back whatever follows it, and takes a byte at least.
pub record VlqLaws (v : Vlq) : Type 0 where
  pub uint-put :
      (n : ℕ) (rest : Bytes)
      → n < 2 ^ 64
      → v.uint (v.put_uint n ++ rest) ≡ some (n, length (v.put_uint n))
  pub int-put :
      (z : ℤ) (rest : Bytes)
      → FitsInt 63 z
      → v.int (v.put_int z ++ rest) ≡ some (z, length (v.put_int z))
  pub put_uint-pos : (n : ℕ) → 1 ≤ length (v.put_uint n)
  pub put_int-pos : (z : ℤ) → 1 ≤ length (v.put_int z)

module _ (v : Vlq) where
  unfoldable pub pack_varint32 : ℤ → Bytes
  pack_varint32 i = v.put_int i

  unfoldable pub pack_varint : ℤ → Bytes
  pack_varint i = v.put_int i

  unfoldable pub pack_varuint : ℕ → Bytes
  pack_varuint i = v.put_uint i

  -- `int32(i)` keeps the low 32 bits.
  unfoldable pub unpack_varint32 : Bytes → Option (ℤ × ℕ)
  unpack_varint32 buf = elim (v.int buf) [ none ↦ none | some (i, ofs) ↦ some (to_int32 i, ofs) ]

  unfoldable pub unpack_varint : Bytes → Option (ℤ × ℕ)
  unpack_varint buf = v.int buf

  unfoldable pub unpack_varuint : Bytes → Option (ℕ × ℕ)
  unpack_varuint buf = v.uint buf
