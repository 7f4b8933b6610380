-- ===== src/Db/Ethereum/Connect.antt =====
-- db/rocksdb.go and db/rocksdb_ethereumtype.go: what ConnectBlock writes on a chain of the Ethereum
-- type.
pub mod Stored
pub mod Connected
use skyr_block_explorer.Prelude.{
  ℕ, zero, suc, ◌-◌, ◌%◌, ◌^◌, Bool, true, false, Option, none, some, List, [], ◌∷◌, ◌++◌, ltb,
}
use skyr_block_explorer.Prelude.Bytes.{Bytes}
use skyr_block_explorer.Prelude.GoMap.{GoMap}
use skyr_block_explorer.Prelude.Result.{Result, ok, ◌>>=◌}
use skyr_block_explorer.Chain.{Block}
use skyr_block_explorer.Db.Keys.{pack_uint}
use skyr_block_explorer.Db.Connect.{Column, Env, ConnectBlockStats, cf_block_txs}
use skyr_block_explorer.Db.Store.{
  Op, Written, put_cf, delete_cf, op_insert, write_height_from_block, store_addresses,
}
use skyr_block_explorer.Db.Ethereum.{AddrContracts, store_address_contracts}
use skyr_block_explorer.Db.Ethereum.Process.{EthMaps, EthBlockTx, process_addresses_ethereum_type}
use skyr_block_explorer.Db.Ethereum.BlockTxs.{pack_eth_block_txs}

-- A block may have no transactions here, and then its data are empty: `get_data` tells a key with empty
-- data from a key that is not there.
pub record EthEnv : Type 0 where
  pub env : Env
  pub get_data : Column → Bytes → Result (Option Bytes)

-- The maps that ConnectBlock makes.
abbrev pub empty_eth_maps : ConnectBlockStats → EthMaps
empty_eth_maps cbs = record { addresses = []; address_contracts = []; cbs = cbs }

-- No entry of the map of a block is nil.
unfoldable pub not_nil_contracts : GoMap AddrContracts → GoMap (Option AddrContracts)
not_nil_contracts [] = []
not_nil_contracts ((k, ac) ∷ m) = (k, some ac) ∷ not_nil_contracts m

module _ (e : EthEnv) where
  open e use {env, get_data}

  -- cleanupBlockTxs, as on the Bitcoin type.
  unfoldable pub cleanup_eth_from : ℕ → Result (List Op)
  cleanup_eth_from zero = ok []
  cleanup_eth_from (suc n) = do
    val ← get_data cf_block_txs (pack_uint (suc n))
    elim val [
      | none ↦ ok []
      | some _ ↦ (do
        rest ← cleanup_eth_from n
        ok (delete_cf cf_block_txs (pack_uint (suc n)) ∷ rest))
    ]

  unfoldable pub cleanup_eth_block_txs : Block → Result (List Op)
  unfolding cleanup_eth_from
  cleanup_eth_block_txs block =
      let keep = env.parser.keep_block_addresses % 2 ^ 32 in
      elim (ltb keep block.height) [ true ↦ cleanup_eth_from (block.height - keep) | false ↦ ok [] ]

  unfoldable pub store_and_cleanup_block_txs_ethereum_type :
      Block → List EthBlockTx → Result (Op × List Op)
  store_and_cleanup_block_txs_ethereum_type block block_txs = do
    at_once ← cleanup_eth_block_txs block
    ok (
      put_cf cf_block_txs (pack_uint block.height) (pack_eth_block_txs env.vlq block_txs),
      at_once,
    )

  -- ConnectBlock on a chain of the Ethereum type, up to the writing of the batch.
  unfoldable pub connect_block_ethereum_type : Block → ConnectBlockStats → Result Written
  connect_block_ethereum_type block cbs = do
    (height_op, best) ← write_height_from_block env block op_insert
    (block_txs, m) ← process_addresses_ethereum_type env block (empty_eth_maps cbs)
    (block_txs_op, at_once) ← store_and_cleanup_block_txs_ethereum_type block block_txs
    ok (record {
      batch =
          height_op
          ∷ (store_address_contracts env.vlq (not_nil_contracts m.address_contracts)
              ++ (block_txs_op ∷ store_addresses env.vlq block.height m.addresses));
      at_once = at_once;
      best_height = best;
    })
