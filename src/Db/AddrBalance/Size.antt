-- ===== src/Db/AddrBalance/Size.antt =====
-- db/rocksdb.go, packAddrBalance: on the least size.
use skyr_block_explorer.Prelude.{◌≤◌, ◌++◌, length, length-append, arith}
use skyr_block_explorer.Db.Vlq.{Vlq, VlqLaws, pack_varuint}
use skyr_block_explorer.Db.Bigint.{pack_bigint}
use skyr_block_explorer.Db.Bigint.RoundTrip.{length-pack_bigint}
use skyr_block_explorer.Db.Types.{AddrBalance}
use skyr_block_explorer.Db.AddrBalance.{pack_utxos, pack_addr_balance}

pub length-pack_addr_balance :
    {v : Vlq} (laws : VlqLaws v) (ab : AddrBalance) → 3 ≤ length (pack_addr_balance v ab)
unfolding pack_addr_balance pack_varuint
length-pack_addr_balance {v} laws ab =
    let a = v.put_uint ab.txs in
    let b = pack_bigint ab.sent_sat in
    let c = pack_bigint ab.balance_sat in
    let d = pack_utxos v ab.utxos in
    omega (
      arith,
      length-append a (b ++ (c ++ d)),
      length-append b (c ++ d),
      length-append c d,
      laws.put_uint-pos ab.txs,
      (length-pack_bigint ab.sent_sat).0,
      (length-pack_bigint ab.balance_sat).0,
    )
