-- ===== src/Db/TxAddresses/Size.antt =====
-- db/rocksdb.go, packTxAddresses: on the least size.
use skyr_block_explorer.Prelude.{◌≤◌, ◌++◌, length, length-append, arith}
use skyr_block_explorer.Db.Vlq.{Vlq, VlqLaws, pack_varuint}
use skyr_block_explorer.Db.Bigint.{pack_bigint}
use skyr_block_explorer.Db.Types.{TxAddresses}
use skyr_block_explorer.Db.TxAddresses.{append_inputs, append_outputs, pack_tx_addresses}

pub length-pack_tx_addresses :
    {v : Vlq} (laws : VlqLaws v) (ta : TxAddresses) → 3 ≤ length (pack_tx_addresses v ta)
unfolding pack_tx_addresses pack_varuint
length-pack_tx_addresses {v} laws ta =
    let a = v.put_uint ta.height in
    let b = v.put_uint (length ta.inputs) in
    let c = append_inputs v ta.inputs in
    let d = v.put_uint (length ta.outputs) in
    let e =
      append_outputs v ta.outputs
      ++ (v.put_uint ta.shield_ins
          ++ (v.put_uint ta.shield_outs ++ pack_bigint ta.shield_val_bal)) in
    omega (
      arith,
      length-append a (b ++ (c ++ (d ++ e))),
      length-append b (c ++ (d ++ e)),
      length-append c (d ++ e),
      length-append d e,
      laws.put_uint-pos ta.height,
      laws.put_uint-pos (length ta.inputs),
      laws.put_uint-pos (length ta.outputs),
    )
