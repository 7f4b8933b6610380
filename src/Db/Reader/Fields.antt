-- ===== src/Db/Reader/Fields.antt =====
-- The fields that the records consist of, read back: numbers, offsets and amounts.
use skyr_block_explorer.Prelude.{ℕ, ◌^◌, ◌<◌, refl, ◌++◌, length, arith}
use skyr_block_explorer.Prelude.Int.{ℤ, pos, abs, FitsInt, to_int32_id}
use skyr_block_explorer.Prelude.Bytes.{Bytes}
use skyr_block_explorer.Db.Vlq.{
  Vlq, VlqLaws, pack_varint, pack_varint32, pack_varuint, unpack_varint, unpack_varint32,
  unpack_varuint,
}
use skyr_block_explorer.Db.Bigint.{pack_bigint, unpack_bigint}
use skyr_block_explorer.Db.Bigint.RoundTrip.{bigint_fits}
use skyr_block_explorer.Db.Reader.Laws.{Reads, At}

-- Amounts that packBigint does not truncate.
abbrev pub FitsBigint : ℤ → Type 0
FitsBigint z = abs z < 2 ^ 1984

module _ {v : Vlq} (laws : VlqLaws v) where
  pub Reads-varuint : (n : ℕ) → n < 2 ^ 64 → Reads (unpack_varuint v) (pack_varuint v n) n
  unfolding pack_varuint unpack_varuint
  Reads-varuint n h rest = laws.uint-put n rest h

  pub Reads-varint : (z : ℤ) → FitsInt 63 z → Reads (unpack_varint v) (pack_varint v z) z
  unfolding pack_varint unpack_varint
  Reads-varint z h rest = laws.int-put z rest h

  pub Reads-varint32 : (z : ℤ) → FitsInt 31 z → Reads (unpack_varint32 v) (pack_varint32 v z) z
  unfolding pack_varint32 unpack_varint32
  Reads-varint32 z h rest =
      rw (laws.int-put z rest (wider z h), unpack_varint32) (rw (to_int32_id z h) refl)
    where
      wider : (z : ℤ) → FitsInt 31 z → FitsInt 63 z
      wider z h = ground arith

pub Reads-bigint : (z : ℤ) → FitsBigint z → Reads unpack_bigint (pack_bigint z) (pos (abs z))
Reads-bigint z h rest = bigint_fits z rest h

-- Behind the first field.
pub At-first : (bs rest : Bytes) → At (bs ++ rest) (length bs) rest
At-first bs rest = (bs, refl, refl)
