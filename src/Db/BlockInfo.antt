-- ===== src/Db/BlockInfo.antt =====
-- db/rocksdb.go, packBlockInfo and unpackBlockInfo: the records of the height column.
pub mod RoundTrip
use skyr_block_explorer.Prelude.{
  ℕ, ◌+◌, ◌%◌, ◌^◌, Bool, true, false, Option, none, some, ◌++◌, length, ltb,
}
use skyr_block_explorer.Prelude.Int.{ℤ, pos, to_uint32}
use skyr_block_explorer.Prelude.Bytes.{Bytes, slice_from, slice_to}
use skyr_block_explorer.Prelude.Result.{Result, ok, run, ◌>>=◌}
use skyr_block_explorer.Chain.{ChainParser}
use skyr_block_explorer.Db.Vlq.{Vlq, pack_varuint, unpack_varuint}
use skyr_block_explorer.Db.Keys.{pack_uint, unpack_uint}
use skyr_block_explorer.Db.Reader.{read_at}
use skyr_block_explorer.Db.Types.{BlockInfo}

module _ (v : Vlq) (parser : ChainParser) where
  unfoldable pub pack_block_info : BlockInfo → Result Bytes
  pack_block_info block = do
    b ← parser.pack_block_hash block.hash
    ok (
        b
        ++ (pack_uint (to_uint32 block.time)
            ++ (pack_varuint v block.txs ++ pack_varuint v block.size)))

  -- `none` is no information. The height is not packed.
  unfoldable pub unpack_block_info : Bytes → Result (Option BlockInfo)
  unpack_block_info buf =
      let pl = parser.packed_txid_len in
      elim (ltb (length buf) (pl + 4 + 2)) [
        | true ↦ ok none
        | false ↦ do
          hash ← run (slice_to buf pl)
          txid ← parser.unpack_block_hash hash
          from ← run (slice_from buf pl)
          t ← run (unpack_uint from)
          (txs, l) ← run (read_at (unpack_varuint v) buf (pl + 4))
          (size, _) ← run (read_at (unpack_varuint v) buf l)
          ok (
              some (record {
                hash = txid;
                time = pos t;
                txs = txs % 2 ^ 32;
                size = size % 2 ^ 32;
                height = 0;
              }))
      ]
