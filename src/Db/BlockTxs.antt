-- ===== src/Db/BlockTxs.antt =====
-- db/rocksdb.go, packOutpoints, unpackNOutpoints, and the blockTxs column: what storeAndCleanupBlockTxs
-- packs and getBlockTxs reads, which is needed to disconnect a block.
pub mod RoundTrip
use skyr_block_explorer.Prelude.{
  ℕ, zero, suc, ◌+◌, ◌-◌, Bool, true, false, List, [], ◌∷◌, ◌++◌, length, replicate, leb, ltb,
}
use skyr_block_explorer.Prelude.Int.{pos, to_int32}
use skyr_block_explorer.Prelude.Bytes.{Bytes, slice_from}
use skyr_block_explorer.Prelude.Result.{
  Result, ok, err, panic, txid_missing, inconsistent_outpoints, inconsistent_block_txs, run, ◌>>=◌,
}
use skyr_block_explorer.Chain.{ChainParser, Vin, Tx}
use skyr_block_explorer.Db.Vlq.{Vlq, pack_varuint, pack_varint32, unpack_varuint, unpack_varint32}
use skyr_block_explorer.Db.Reader.{read_bytes, read_at}
use skyr_block_explorer.Db.Types.{BtxOutpoint, BlockTxs}

module _ (v : Vlq) where
  unfoldable pub pack_outpoints : List BtxOutpoint → Bytes
  pack_outpoints [] = []
  pack_outpoints (o ∷ os) = o.btx_id ++ (pack_varint32 v o.index ++ pack_outpoints os)

  -- The bytes of all transactions of a block.
  unfoldable pub pack_block_txs : List BlockTxs → Bytes
  pack_block_txs [] = []
  pack_block_txs (t ∷ ts) =
      t.btx_id
      ++ (pack_varuint v (length t.inputs) ++ (pack_outpoints t.inputs ++ pack_block_txs ts))

  module _ (txid_unpacked_len : ℕ) where
    -- `for i := uint(0); i < n; i++`, from the position `p`.
    unpack_outpoints : ℕ → Bytes → ℕ → Result (List BtxOutpoint × ℕ)
    unpack_outpoints zero buf p = ok ([], p)
    unpack_outpoints (suc n) buf p = elim (leb (length buf) (p + txid_unpacked_len)) [
      | true ↦ err inconsistent_outpoints
      | false ↦ do
        (id, p1) ← run (read_at (read_bytes txid_unpacked_len) buf p)
        (vout, p2) ← run (read_at (unpack_varint32 v) buf p1)
        (os, p3) ← unpack_outpoints n buf p2
        ok (record { btx_id = id; index = vout } ∷ os, p3)
    ]

    unfoldable pub unpack_n_outpoints : Bytes → Result (List BtxOutpoint × ℕ)
    unfolding unpack_outpoints
    unpack_n_outpoints buf = do (n, p) ← run (unpack_varuint v buf); unpack_outpoints n buf p

    -- Both errors of the reading are the same.
    as_inconsistent : Result (List BtxOutpoint × ℕ) → Result (List BtxOutpoint × ℕ)
    as_inconsistent (err e) = err inconsistent_block_txs
    as_inconsistent r = r

    -- `for i := 0; i < len(buf);`; the fuel is more than the bytes that are left.
    unpack_block_txs_from : ℕ → Bytes → ℕ → Result (List BlockTxs)
    unpack_block_txs_from zero buf i = panic
    unpack_block_txs_from (suc fuel) buf i = elim (ltb i (length buf)) [
      | false ↦ ok []
      | true ↦ elim (ltb (length buf - i) txid_unpacked_len) [
        | true ↦ err inconsistent_block_txs
        | false ↦ do
          (txid, i1) ← run (read_at (read_bytes txid_unpacked_len) buf i)
          rest ← run (slice_from buf i1)
          (o, ol) ← as_inconsistent (unpack_n_outpoints rest)
          bt ← unpack_block_txs_from fuel buf (i1 + ol)
          ok (record { btx_id = txid; inputs = o } ∷ bt)
      ]
    ]

    unfoldable pub unpack_block_txs : Bytes → Result (List BlockTxs)
    unfolding as_inconsistent unpack_block_txs_from
    unpack_block_txs buf = unpack_block_txs_from (suc (length buf)) buf 0

module _ (parser : ChainParser) where
  -- An input without a transaction id counts as one of the id of zeros.
  btx_id_of_input : Result Bytes → Result Bytes
  btx_id_of_input (err txid_missing) = ok (replicate parser.packed_txid_len 0)
  btx_id_of_input r = r

  outpoints_of : List Vin → Result (List BtxOutpoint)
  outpoints_of [] = ok []
  outpoints_of (x ∷ xs) = do
    btx_id ← btx_id_of_input (parser.pack_txid x.txid)
    os ← outpoints_of xs
    ok (record { btx_id = btx_id; index = to_int32 (pos x.vout) } ∷ os)

  -- The loop over the transactions of a block.
  unfoldable pub block_txs_of : List Tx → Result (List BlockTxs)
  unfolding btx_id_of_input outpoints_of
  block_txs_of [] = ok []
  block_txs_of (tx ∷ txs) = do
    o ← outpoints_of tx.vin
    btx_id ← parser.pack_txid tx.txid
    ts ← block_txs_of txs
    ok (record { btx_id = btx_id; inputs = o } ∷ ts)
