-- ===== src/Db/TxCache.antt =====
-- db/txcache.go and GetTx, PutTx and DeleteTx of db/rocksdb.go: transactions kept in the data base.
pub mod Kept
use skyr_block_explorer.Prelude.{
  ℕ, ◌+◌, ◌-◌, ◌%◌, ◌^◌, Bool, true, false, Option, none, some, List, [], ◌∷◌, length, ltb,
}
use skyr_block_explorer.Prelude.Int.{ℤ}
use skyr_block_explorer.Prelude.Bytes.{Bytes}
use skyr_block_explorer.Prelude.Result.{Result, ok, err, panic, unknown_chain_type, ◌>>=◌}
use skyr_block_explorer.Chain.{Tx, bitcoin_type, ethereum_type, other_type}
use skyr_block_explorer.Db.Types.{TxAddresses}
use skyr_block_explorer.Db.Connect.{Env, cf_transactions}
use skyr_block_explorer.Db.Store.{Op, put_cf, delete_cf}
use skyr_block_explorer.Db.Lookup.{get_tx_addresses_of_txid}

-- What the cache asks of the backend and of the parser of the coin. `get_height_from_tx` is the one of
-- the Ethereum parser, which reads the height from data of the coin.
pub record CacheBackend : Type 0 where
  pub get_transaction : Bytes → Result Tx
  pub get_best_block_height : Result ℕ
  pub get_height_from_tx : Tx → Result ℕ
  pub pack_tx : Tx → ℕ → ℤ → Result Bytes
  pub unpack_tx : Bytes → Result (Tx × ℕ)

-- A transaction with its height, and the operation that stores it.
pub record Fetched : Type 0 where
  pub tx : Tx
  pub height : ℕ
  pub stored : List Op

module _ (env : Env) (backend : CacheBackend) where
  open env use {parser, get_cf}

  unfoldable pub get_tx : Bytes → Result (Option (Tx × ℕ))
  get_tx txid = do
    key ← parser.pack_txid txid
    val ← get_cf cf_transactions key
    elim (ltb 4 (length val)) [
      | false ↦ ok none
      | true ↦ do found ← backend.unpack_tx val; ok (some found)
    ]

  -- An id that cannot be packed is passed over.
  unfoldable pub put_packed : Result Bytes → Result Bytes → Result (List Op)
  put_packed (ok key) (ok buf) = ok (put_cf cf_transactions key buf ∷ [])
  put_packed (ok key) (err e) = err e
  put_packed (ok key) panic = panic
  put_packed (err e) buf = ok []
  put_packed panic buf = panic

  unfoldable pub put_tx : Tx → ℕ → ℤ → Result (List Op)
  put_tx tx height block_time =
      put_packed (parser.pack_txid tx.txid) (backend.pack_tx tx height block_time)

  unfoldable pub delete_packed : Result Bytes → Result (List Op)
  delete_packed (ok key) = ok (delete_cf cf_transactions key ∷ [])
  delete_packed (err e) = ok []
  delete_packed panic = panic

  unfoldable pub delete_tx : Bytes → Result (List Op)
  delete_tx txid = delete_packed (parser.pack_txid txid)

  -- `bestheight - h + 1` on uint32.
  unfoldable pub with_confirmations : ℕ → Tx × ℕ → Fetched
  with_confirmations best_height (tx, h) = record {
    tx = record tx { confirmations = (best_height + (2 ^ 32 - h) + 1) % 2 ^ 32 };
    height = h;
    stored = [];
  }

  -- A transaction that is not indexed yet gets the best height of the backend.
  unfoldable pub height_or_best : Option TxAddresses → Result ℕ
  height_or_best none = backend.get_best_block_height
  height_or_best (some ta) = ok ta.height

  unfoldable pub height_of : Bytes → Tx → Result ℕ
  height_of txid tx = elim (parser.get_chain_type) [
    | bitcoin_type ↦ (do ta ← get_tx_addresses_of_txid env txid; height_or_best ta)
    | ethereum_type ↦ backend.get_height_from_tx tx
    | other_type ↦ err unknown_chain_type
  ]

  -- An error of PutTx is logged.
  unfoldable pub or_nothing_stored : Result (List Op) → Result (List Op)
  or_nothing_stored (ok ops) = ok ops
  or_nothing_stored (err e) = ok []
  or_nothing_stored panic = panic

  unfoldable pub stored_if : Bool → Tx → ℕ → Result (List Op)
  stored_if false tx h = ok []
  stored_if true tx h = or_nothing_stored (put_tx tx h tx.blocktime)

  -- GetTransaction where the data base has not got the transaction.
  unfoldable pub fetch_transaction : Bool → Bytes → Result Fetched
  fetch_transaction enabled txid = do
    tx ← backend.get_transaction txid
    elim (ltb 0 tx.confirmations) [
      | false ↦ ok (record { tx = tx; height = 0; stored = [] })
      | true ↦ do
        h ← height_of txid tx
        stored ← stored_if enabled tx h
        ok (record { tx = tx; height = h; stored = stored })
    ]

  unfoldable pub found_or_fetched : ℕ → Bytes → Option (Tx × ℕ) → Result Fetched
  found_or_fetched best_height txid (some found) = ok (with_confirmations best_height found)
  found_or_fetched best_height txid none = fetch_transaction true txid

  -- `best_height` is that of GetSyncState.
  unfoldable pub get_transaction : Bool → ℕ → Bytes → Result Fetched
  get_transaction false best_height txid = fetch_transaction false txid
  get_transaction true best_height txid = do
    found ← get_tx txid
    found_or_fetched best_height txid found
