-- ===== src/Db/Bulk.antt =====
-- db/bulkconnect.go: blocks connected in bulk, with what they change kept in memory.
pub mod Pending
pub mod Kept
pub mod Parted
pub mod Flushed
pub mod Closing
pub mod Written
pub mod Single
use skyr_block_explorer.Prelude.{
  ℕ, ◌+◌, ◌-◌, ◌/◌, ◌%◌, ◌^◌, Bool, true, false, ◌&&◌, ◌||◌, Option, none, some, List, [], ◌∷◌,
  ◌++◌, length, get_elem?, take, drop, ltb, if◌then◌else◌,
}
use skyr_block_explorer.Prelude.Int.{to_uint32}
use skyr_block_explorer.Prelude.Bytes.{Bytes}
use skyr_block_explorer.Prelude.GoMap.{GoMap}
use skyr_block_explorer.Prelude.Result.{Result, ok, err, unknown_chain_type, ◌>>=◌}
use skyr_block_explorer.Chain.{Block, bitcoin_type, ethereum_type, other_type}
use skyr_block_explorer.Db.Types.{TxOutput, TxAddresses, AddrBalance, BlockInfo}
use skyr_block_explorer.Db.TxAddresses.{pack_tx_addresses}
use skyr_block_explorer.Db.TxIndexes.{AddressesMap}
use skyr_block_explorer.Db.Connect.{ConnectBlockStats, Maps, cf_tx_addresses, cf_address_balance}
use skyr_block_explorer.Db.Connect.Process.{process_addresses_bitcoin_type}
use skyr_block_explorer.Db.Store.{
  Op, op_insert, ops_of, not_nil, store_addresses, store_balances, write_height,
  write_height_from_block, store_and_cleanup_block_txs,
}
use skyr_block_explorer.Db.Ethereum.{AddrContracts, store_address_contracts}
use skyr_block_explorer.Db.Ethereum.Process.{process_addresses_ethereum_type}
use skyr_block_explorer.Db.Ethereum.Connect.{
  EthEnv, not_nil_contracts, store_and_cleanup_block_txs_ethereum_type,
}

pub record BulkAddresses : Type 0 where
  pub bi : BlockInfo
  pub addresses : AddressesMap

-- The states of the data base that the bulk connection sets.
pub data DbState : Type 0 where
  db_open db_inconsistent : DbState

-- `tx_addresses_map` holds pointers into `heap`, none of them nil; `cbs`, `db_state` and `best_height`
-- are those of the data base and of its internal state.
pub record BulkConnect : Type 0 where
  pub bulk_addresses : List BulkAddresses
  pub bulk_addresses_count : ℕ
  pub heap : List TxAddresses
  pub tx_addresses_map : GoMap ℕ
  pub balances : GoMap AddrBalance
  pub address_contracts : GoMap AddrContracts
  pub height : ℕ
  pub cbs : ConnectBlockStats
  pub db_state : DbState
  pub best_height : ℕ

abbrev pub max_bulk_addresses : ℕ
max_bulk_addresses = 80000

abbrev pub max_bulk_tx_addresses : ℕ
max_bulk_tx_addresses = 500000

abbrev pub partial_store_addresses : ℕ
partial_store_addresses = max_bulk_tx_addresses / 10

abbrev pub max_bulk_balances : ℕ
max_bulk_balances = 700000

abbrev pub partial_store_balances : ℕ
partial_store_balances = max_bulk_balances / 10

abbrev pub max_bulk_addr_contracts : ℕ
max_bulk_addr_contracts = 1200000

abbrev pub partial_store_addr_contracts : ℕ
partial_store_addr_contracts = max_bulk_addr_contracts / 10

-- SetInconsistentState and the empty maps.
unfoldable pub init_bulk_connect : ConnectBlockStats → ℕ → BulkConnect
init_bulk_connect cbs best_height = record {
  bulk_addresses = [];
  bulk_addresses_count = 0;
  heap = [];
  tx_addresses_map = [];
  balances = [];
  address_contracts = [];
  height = 0;
  cbs = cbs;
  db_state = db_inconsistent;
  best_height = best_height;
}

unfoldable pub all_spent : List TxOutput → Bool
all_spent [] = true
all_spent (o ∷ os) = if o.spent then all_spent os else false

unfoldable pub is_spent : List TxAddresses → ℕ → Bool
is_spent heap ref = elim (get_elem? heap ref) [ none ↦ false | some ta ↦ all_spent ta.outputs ]

-- The entries that a test holds of, and the others.
unfoldable pub split_by : {V : Type 0} → (V → Bool) → GoMap V → GoMap V × GoMap V
split_by p [] = ([], [])
split_by p ((k, x) ∷ m) =
    let (chosen, rest) = split_by p m in
    if p x then ((k, x) ∷ chosen, rest) else (chosen, (k, x) ∷ rest)

-- What is stored of the transactions, and what stays: the spent ones, and others up to a number.
unfoldable pub choose_tx_addresses : List TxAddresses → Bool → GoMap ℕ → GoMap ℕ × GoMap ℕ
choose_tx_addresses heap true m = (m, [])
choose_tx_addresses heap false m =
    let (spent, rest) = split_by (is_spent heap) m in
    let n = partial_store_addresses - length spent in (spent ++ take n rest, drop n rest)

-- The same of the balances and of the contracts, of which some are taken.
unfoldable pub choose : {V : Type 0} → ℕ → Bool → GoMap V → GoMap V × GoMap V
choose n true m = (m, [])
choose n false m = (take n m, drop n m)

-- What connecting a block gives: the new state, the batches that are written beside the last one, the
-- deletions at once, and the last batch. Their columns differ, so that their order does not matter.
pub record Connected : Type 0 where
  pub bulk : BulkConnect
  pub beside : List Op
  pub at_once : List Op
  pub batch : List Op

-- All that is written.
abbrev pub written : Connected → List Op
written c = c.beside ++ (c.at_once ++ c.batch)

unfoldable pub block_addresses : Block → AddressesMap → BulkAddresses
block_addresses block addresses = record {
  bi = record {
    hash = block.hash;
    time = block.time;
    txs = length block.txs % 2 ^ 32;
    size = to_uint32 block.size;
    height = block.height;
  };
  addresses = addresses;
}

-- The choice of the transactions of a full map; nothing is stored while it is not.
unfoldable pub cut_tx_addresses : Bool → List TxAddresses → GoMap ℕ → GoMap ℕ × GoMap ℕ
cut_tx_addresses sa heap m =
    if sa && ltb max_bulk_tx_addresses (length m + partial_store_addresses)
    then choose_tx_addresses heap false m
    else ([], m)

unfoldable pub cut_balances : Bool → GoMap AddrBalance → GoMap AddrBalance × GoMap AddrBalance
cut_balances sa m =
    if sa && ltb max_bulk_balances (length m + partial_store_balances)
    then choose partial_store_balances false m
    else ([], m)

unfoldable pub cut_contracts :
    Bool → GoMap AddrContracts → GoMap AddrContracts × GoMap AddrContracts
cut_contracts sa m = if sa then choose partial_store_addr_contracts false m else ([], m)

-- storeAndCleanupBlockTxs and its namesake on the Ethereum type, if the data are asked for.
unfoldable pub if_stored : Bool → Result (Op × List Op) → Result (List Op × List Op)
if_stored false r = ok ([], [])
if_stored true r = do (op, at_once) ← r; ok (op ∷ [], at_once)

module _ (e : EthEnv) where
  open e use {env}
  open env use {vlq, parser}

  -- No pointer dangles.
  unfoldable pub tx_addresses_at : List TxAddresses → ℕ → Option Bytes
  tx_addresses_at heap ref = elim (get_elem? heap ref) [
    | none ↦ none
    | some ta ↦ some (pack_tx_addresses vlq ta)
  ]

  unfoldable pub tx_addresses_ops : List TxAddresses → GoMap ℕ → List Op
  tx_addresses_ops heap m = ops_of cf_tx_addresses (tx_addresses_at heap) m

  unfoldable pub balances_ops : GoMap AddrBalance → List Op
  balances_ops m = store_balances vlq (not_nil m)

  unfoldable pub contracts_ops : GoMap AddrContracts → List Op
  contracts_ops m = store_address_contracts vlq (not_nil_contracts m)

  -- The operations and the best height.
  unfoldable pub store_bulk_addresses : List BulkAddresses → ℕ → Result (List Op × ℕ)
  store_bulk_addresses [] best = ok ([], best)
  store_bulk_addresses (ba ∷ bas) best = do
    (height_op, best) ← write_height env ba.bi.height ba.bi op_insert
    (ops, best) ← store_bulk_addresses bas best
    ok (store_addresses vlq ba.bi.height ba.addresses ++ (height_op ∷ ops), best)

  -- The addresses of the blocks, stored if they are many or if something else is stored.
  unfoldable pub flush_addresses : Bool → BulkConnect → Result (BulkConnect × List Op)
  flush_addresses sa b = elim (sa || ltb max_bulk_addresses b.bulk_addresses_count) [
    | false ↦ ok (b, [])
    | true ↦ do
      (ops, best) ← store_bulk_addresses b.bulk_addresses b.best_height
      ok (record b { bulk_addresses = []; bulk_addresses_count = 0; best_height = best }, ops)
  ]

  -- What follows the processing of a block.
  unfoldable pub store_processed : BulkConnect → Block → Bool → Maps → Result Connected
  store_processed b block store_block_txs m = do
    let sa =
        ltb max_bulk_tx_addresses (length m.tx_addresses_map)
        || ltb max_bulk_balances (length m.balances)
    let (txs, txs_left) = cut_tx_addresses sa m.heap m.tx_addresses_map
    let (bals, bals_left) = cut_balances sa m.balances
    (b, ops) ← flush_addresses sa (record b {
      bulk_addresses = b.bulk_addresses ++ (block_addresses block m.addresses ∷ []);
      bulk_addresses_count = b.bulk_addresses_count + length m.addresses;
      heap = m.heap;
      tx_addresses_map = txs_left;
      balances = bals_left;
      cbs = m.cbs;
    })
    (block_txs, at_once) ← if_stored store_block_txs (store_and_cleanup_block_txs env block)
    ok (record {
      bulk = b;
      beside = tx_addresses_ops m.heap txs ++ balances_ops bals;
      at_once = at_once;
      batch = ops ++ block_txs;
    })

  unfoldable pub connect_block_bitcoin_type : BulkConnect → Block → Bool → Result Connected
  connect_block_bitcoin_type b block store_block_txs = do
    m ← process_addresses_bitcoin_type env block (record {
      addresses = [];
      heap = b.heap;
      tx_addresses_map = b.tx_addresses_map;
      balances = b.balances;
      cbs = b.cbs;
    })
    store_processed b block store_block_txs m

  unfoldable pub connect_block_ethereum_type : BulkConnect → Block → Bool → Result Connected
  connect_block_ethereum_type b block store_block_txs = do
    (eth_block_txs, m) ←
        process_addresses_ethereum_type env block
          (record { addresses = []; address_contracts = b.address_contracts; cbs = b.cbs })
    let sa = ltb max_bulk_addr_contracts (length m.address_contracts)
    let (contracts, contracts_left) = cut_contracts sa m.address_contracts
    (b, ops) ← flush_addresses sa (record b {
      bulk_addresses = b.bulk_addresses ++ (block_addresses block m.addresses ∷ []);
      bulk_addresses_count = b.bulk_addresses_count + length m.addresses;
      address_contracts = contracts_left;
      cbs = m.cbs;
    })
    (block_txs, at_once) ←
        if_stored store_block_txs (store_and_cleanup_block_txs_ethereum_type e block eth_block_txs)
    ok (record {
      bulk = b;
      beside = contracts_ops contracts;
      at_once = at_once;
      batch = ops ++ block_txs;
    })

  -- On other chains ConnectBlock of the data base refuses the block.
  unfoldable pub connect_block : BulkConnect → Block → Bool → Result Connected
  connect_block b block store_block_txs =
      let b = record b { height = block.height } in
      elim (parser.get_chain_type) [
        | bitcoin_type ↦ connect_block_bitcoin_type b block store_block_txs
        | ethereum_type ↦ connect_block_ethereum_type b block store_block_txs
        | other_type ↦ do
          written ← write_height_from_block env block op_insert
          err unknown_chain_type
      ]

  -- What Close stores beside the addresses.
  unfoldable pub store_all : BulkConnect → List Op
  store_all b = elim (parser.get_chain_type) [
    | bitcoin_type ↦
        tx_addresses_ops b.heap (choose_tx_addresses b.heap true b.tx_addresses_map).0
        ++ balances_ops (choose partial_store_balances true b.balances).0
    | ethereum_type ↦ contracts_ops (choose partial_store_addr_contracts true b.address_contracts).0
    | other_type ↦ []
  ]

  unfoldable pub emptied : BulkConnect → BulkConnect
  emptied b = elim (parser.get_chain_type) [
    | bitcoin_type ↦ record b { tx_addresses_map = []; balances = [] }
    | ethereum_type ↦ record b { address_contracts = [] }
    | other_type ↦ b
  ]

  unfoldable pub close : BulkConnect → Result Connected
  close b = do
    (ops, best) ← store_bulk_addresses b.bulk_addresses b.best_height
    ok (record {
      bulk = record (emptied b) {
        bulk_addresses = [];
        bulk_addresses_count = 0;
        db_state = db_open;
        best_height = best;
      };
      beside = store_all b;
      at_once = [];
      batch = ops;
    })
