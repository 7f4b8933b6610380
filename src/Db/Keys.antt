-- ===== src/Db/Keys.antt =====
-- db/rocksdb.go, packUint, packAddressKey and their inverses: heights and the keys of the addresses
-- column.
pub mod Order
pub mod RoundTrip
use skyr_block_explorer.Prelude.{
  ℕ, ◌+◌, ◌-◌, ◌*◌, ◌/◌, ◌%◌, ◌^◌, Bool, true, false, ◌&&◌, ◌||◌, Option, none, some, List, [], ◌∷◌,
  ◌++◌, length, ltb, leb, ◌==◌, if◌then◌else◌,
}
use skyr_block_explorer.Prelude.Bytes.{Bytes, slice_from, slice_to}
use skyr_block_explorer.Prelude.Result.{Result, ok, err, run, invalid_address_key, ◌>>=◌}

abbrev pub packed_height_bytes : ℕ
packed_height_bytes = 4

-- `binary.BigEndian.PutUint32` and `Uint32`, which panics on fewer than four bytes.
unfoldable pub pack_uint : ℕ → Bytes
pack_uint i = (i / 2 ^ 24 % 256) ∷ (i / 2 ^ 16 % 256) ∷ (i / 2 ^ 8 % 256) ∷ (i % 256) ∷ []

unfoldable pub unpack_uint : Bytes → Option ℕ
unpack_uint (a ∷ b ∷ c ∷ d ∷ rest) = some (a * 2 ^ 24 + b * 2 ^ 16 + c * 2 ^ 8 + d)
unpack_uint _ = none

-- `^height` on a uint32.
abbrev pub complement32 : ℕ → ℕ
complement32 h = 2 ^ 32 - 1 - h

unfoldable pub pack_address_key : Bytes → ℕ → Bytes
pack_address_key addr_desc height = addr_desc ++ pack_uint (complement32 height)

unfoldable pub unpack_address_key : Bytes → Result (Bytes × ℕ)
unpack_address_key key =
    if leb (length key) packed_height_bytes then err invalid_address_key else do
      let i = length key - packed_height_bytes
      desc ← run (slice_to key i)
      tail ← run (slice_from key i)
      h ← run (unpack_uint tail)
      ok (desc, complement32 h)

-- `bytes.Compare(a, b) < 0`.
unfoldable pub bytes_ltb : Bytes → Bytes → Bool
bytes_ltb a [] = false
bytes_ltb [] (y ∷ ys) = true
bytes_ltb (x ∷ xs) (y ∷ ys) = ltb x y || ((x == y) && bytes_ltb xs ys)
