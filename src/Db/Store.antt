-- ===== src/Db/Store.antt =====
-- db/rocksdb.go, storeAddresses, storeTxAddresses, storeBalances, storeAndCleanupBlockTxs,
-- cleanupBlockTxs, writeHeight and ConnectBlock: what is written for a block.
pub mod Batch
pub mod Balances
pub mod Connected
pub mod Followed
pub mod Parts
pub mod Transactions
pub mod Addresses
use skyr_block_explorer.Prelude.{
  ℕ, zero, suc, ◌+◌, ◌-◌, ◌%◌, ◌^◌, Bool, true, false, Option, none, some, List, [], ◌∷◌, ◌++◌,
  length, get_elem?, ltb, ◌==◌, if◌then◌else◌,
}
use skyr_block_explorer.Prelude.Int.{ℤ, pos, to_uint32}
use skyr_block_explorer.Prelude.Bytes.{Bytes, bytes_eq}
use skyr_block_explorer.Prelude.GoMap.{GoMap}
use skyr_block_explorer.Prelude.Result.{
  Result, Error, ok, err, panic, unknown_chain_type, run, ◌>>=◌,
}
use skyr_block_explorer.Chain.{ChainParser, Tx, Block, bitcoin_type}
use skyr_block_explorer.Db.Vlq.{Vlq}
use skyr_block_explorer.Db.Keys.{pack_uint, pack_address_key}
use skyr_block_explorer.Db.Types.{TxAddresses, AddrBalance, TxIndexes, BlockInfo}
use skyr_block_explorer.Db.TxAddresses.{pack_tx_addresses}
use skyr_block_explorer.Db.AddrBalance.{pack_addr_balance}
use skyr_block_explorer.Db.TxIndexes.{AddressesMap, pack_tx_indexes}
use skyr_block_explorer.Db.BlockTxs.{pack_block_txs, block_txs_of}
use skyr_block_explorer.Db.BlockInfo.{pack_block_info}
use skyr_block_explorer.Db.Connect.{
  Column, Env, ConnectBlockStats, Maps, cf_height, cf_addresses, cf_block_txs, cf_address_balance,
  cf_tx_addresses,
}
use skyr_block_explorer.Db.Connect.Process.{process_addresses_bitcoin_type}

-- `wb.PutCF` and `wb.DeleteCF`.
pub data Op : Type 0 where
  put_cf : Column → Bytes → Bytes → Op
  delete_cf : Column → Bytes → Op

-- One operation for each entry of a map: a value, or `none` for the deletion of the key.
unfoldable pub put_or_delete : Column → Bytes → Option Bytes → Op
put_or_delete c k none = delete_cf c k
put_or_delete c k (some val) = put_cf c k val

unfoldable pub ops_of : {V : Type 0} → Column → (V → Option Bytes) → GoMap V → List Op
ops_of c f [] = []
ops_of c f ((k, x) ∷ m) = put_or_delete c k (f x) ∷ ops_of c f m

module _ (v : Vlq) where
  unfoldable pub store_addresses : ℕ → AddressesMap → List Op
  store_addresses height [] = []
  store_addresses height ((addr_desc, txi) ∷ addresses) =
      put_cf cf_addresses (pack_address_key addr_desc height) (pack_tx_indexes v txi)
      ∷ store_addresses height addresses

  unfoldable pub tx_addresses_value : TxAddresses → Option Bytes
  tx_addresses_value ta = some (pack_tx_addresses v ta)

  unfoldable pub store_tx_addresses : GoMap TxAddresses → List Op
  store_tx_addresses am = ops_of cf_tx_addresses tx_addresses_value am

  -- A balance with no transactions is removed, and so is a nil one.
  unfoldable pub balance_value : Option AddrBalance → Option Bytes
  balance_value none = none
  balance_value (some ab) = if ab.txs == 0 then none else some (pack_addr_balance v ab)

  unfoldable pub store_balances : GoMap (Option AddrBalance) → List Op
  store_balances abm = ops_of cf_address_balance balance_value abm

-- `opInsert` and `opDelete`.
pub data HeightOp : Type 0 where
  op_insert op_delete : HeightOp

-- A batch, the deletions that go to the data base at once, and the best height that the internal
-- state is given.
pub record Written : Type 0 where
  pub batch : List Op
  pub at_once : List Op
  pub best_height : ℕ

-- The pointers of the map, followed.
unfoldable pub follow : List TxAddresses → GoMap ℕ → Result (GoMap TxAddresses)
follow heap [] = ok []
follow heap ((k, ref) ∷ m) = do
  ta ← run (get_elem? heap ref)
  rest ← follow heap m
  ok ((k, ta) ∷ rest)

-- No entry of the map of a block is nil.
unfoldable pub not_nil : GoMap AddrBalance → GoMap (Option AddrBalance)
not_nil [] = []
not_nil ((k, ab) ∷ m) = (k, some ab) ∷ not_nil m

-- The maps that ConnectBlock makes, and the statistics of the data base.
abbrev pub empty_maps : ConnectBlockStats → Maps
empty_maps cbs = record {
  addresses = [];
  heap = [];
  tx_addresses_map = [];
  balances = [];
  cbs = cbs;
}

module _ (env : Env) where
  open env use {vlq, parser, get_cf, has_cf}

  -- The operation in the batch and the best height.
  unfoldable pub write_height : ℕ → BlockInfo → HeightOp → Result (Op × ℕ)
  write_height height bi op_insert = do
    val ← pack_block_info vlq parser bi
    ok (put_cf cf_height (pack_uint height) val, height)
  write_height height bi op_delete =
      ok (delete_cf cf_height (pack_uint height), (height + (2 ^ 32 - 1)) % 2 ^ 32)

  unfoldable pub write_height_from_block : Block → HeightOp → Result (Op × ℕ)
  write_height_from_block block op =
      write_height block.height
        (record {
          hash = block.hash;
          time = block.time;
          txs = length block.txs % 2 ^ 32;
          size = to_uint32 block.size;
          height = block.height;
        })
        op

  -- `for rh := …; rh > 0; rh--`, until the data of a key are nil. Every key is deleted after it is read, and
  -- the keys differ, so the reads do not see the deletions.
  unfoldable pub cleanup_from : ℕ → Result (List Op)
  cleanup_from zero = ok []
  cleanup_from (suc n) = do
    val ← get_cf cf_block_txs (pack_uint (suc n))
    rest ← elim (has_cf cf_block_txs (pack_uint (suc n))) [
      | false ↦ ok []
      | true ↦ (do rest ← cleanup_from n; ok (delete_cf cf_block_txs (pack_uint (suc n)) ∷ rest))
    ]
    ok rest

  unfoldable pub cleanup_block_txs : Block → Result (List Op)
  unfolding cleanup_from
  cleanup_block_txs block =
      let keep = parser.keep_block_addresses % 2 ^ 32 in
      elim (ltb keep block.height) [ true ↦ cleanup_from (block.height - keep) | false ↦ ok [] ]

  unfoldable pub store_and_cleanup_block_txs : Block → Result (Op × List Op)
  store_and_cleanup_block_txs block = do
    bts ← block_txs_of parser block.txs
    at_once ← cleanup_block_txs block
    ok (put_cf cf_block_txs (pack_uint block.height) (pack_block_txs vlq bts), at_once)

  -- ConnectBlock on a chain of the Bitcoin type, up to the writing of the batch.
  unfoldable pub connect_block : Block → ConnectBlockStats → Result Written
  unfolding follow not_nil
  connect_block block cbs = do
    (height_op, best) ← write_height_from_block block op_insert
    m ← process_addresses_bitcoin_type env block (empty_maps cbs)
    tas ← follow m.heap m.tx_addresses_map
    (block_txs_op, at_once) ← store_and_cleanup_block_txs block
    ok (record {
      batch =
          height_op
          ∷ (store_tx_addresses vlq tas
              ++ (store_balances vlq (not_nil m.balances)
                  ++ (block_txs_op ∷ store_addresses vlq block.height m.addresses)));
      at_once = at_once;
      best_height = best;
    })
