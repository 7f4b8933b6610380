-- ===== src/Db/Tests/Connected/Bulk.antt =====
-- The runs of the theorems on the bulk connection.
use skyr_block_explorer.Prelude.{◌≡◌, refl, true, none, List, [], ◌∷◌, ◌++◌}
use skyr_block_explorer.Prelude.Bytes.{bytes_eq}
use skyr_block_explorer.Prelude.GoMap.{Distinct, lookup, insert}
use skyr_block_explorer.Prelude.Result.{Result, ok}
use skyr_block_explorer.Db.Connect.{
  cf_address_balance, for_each, with_owner, credit, debit, load_balance, get_addr_desc_balance,
  or_empty, count_tx,
}
use skyr_block_explorer.Db.Connect.Process.{process_addresses_bitcoin_type}
use skyr_block_explorer.Db.Utxos.{has_utxo}
use skyr_block_explorer.Db.TxIndexes.{add_to_addresses_map, slice_at, append_index}
use skyr_block_explorer.Db.BlockTxs.{block_txs_of}
use skyr_block_explorer.Db.BlockInfo.{pack_block_info}
use skyr_block_explorer.Db.Store.{Op, write_height, cleanup_block_txs, store_and_cleanup_block_txs}
use skyr_block_explorer.Db.Store.Batch.{after_ops}
use skyr_block_explorer.Db.Ethereum.Connect.{EthEnv}
use skyr_block_explorer.Db.Bulk.{
  BulkConnect, Connected, written, init_bulk_connect, connect_block_bitcoin_type, close, if_stored,
  store_processed, flush_addresses, store_bulk_addresses,
}
use skyr_block_explorer.Db.Bulk.Closing.{uncut}
use skyr_block_explorer.Db.Bulk.Written.{connect_block_bitcoin_type-close}
use skyr_block_explorer.Db.Bulk.Single.{connect_block_bitcoin_type-single}
use skyr_block_explorer.Db.Tests.{env, block}
use skyr_block_explorer.Db.Tests.Connected.{
  stats, processed, connected, processed_lem, connected_lem,
}

abbrev bulk_env : EthEnv
bulk_env = record { env = env; get_data = λ c k. ok none }

abbrev begun : BulkConnect
begun = init_bulk_connect stats 0

abbrev or_closed : Result Connected → Connected
or_closed (ok c) = c
or_closed _ = record { bulk = begun; beside = []; at_once = []; batch = [] }

abbrev in_bulk : Connected
in_bulk = or_closed (store_processed bulk_env begun block true processed)

abbrev at_end : Connected
at_end = or_closed (close bulk_env in_bulk.bulk)

abbrev at_end_uncut : Connected
at_end_uncut = or_closed (close bulk_env (uncut begun block processed))

abbrev or_ops : Result (List Op × List Op) → List Op × List Op
or_ops (ok x) = x
or_ops _ = ([], [])

abbrev kept : List Op × List Op
kept = or_ops (if_stored true (store_and_cleanup_block_txs env block))

kept_lem : if_stored true (store_and_cleanup_block_txs env block) ≡ ok kept
unfolding if_stored store_and_cleanup_block_txs block_txs_of cleanup_block_txs
kept_lem = refl

stored_lem : store_processed bulk_env begun block true processed ≡ ok in_bulk
unfolding store_processed flush_addresses if_stored store_and_cleanup_block_txs block_txs_of
    cleanup_block_txs process_addresses_bitcoin_type for_each with_owner credit load_balance lookup
    get_addr_desc_balance has_utxo or_empty insert bytes_eq debit add_to_addresses_map slice_at
    append_index count_tx init_bulk_connect
stored_lem = refl

in_bulk_lem : connect_block_bitcoin_type bulk_env begun block true ≡ ok in_bulk
unfolding connect_block_bitcoin_type init_bulk_connect
in_bulk_lem = rw processed_lem stored_lem

at_end_uncut_lem : close bulk_env (uncut begun block processed) ≡ ok at_end_uncut
unfolding close store_bulk_addresses init_bulk_connect write_height pack_block_info
at_end_uncut_lem = refl

at_end_lem : close bulk_env in_bulk.bulk ≡ ok at_end
unfolding close store_bulk_addresses write_height pack_block_info store_processed flush_addresses
    if_stored store_and_cleanup_block_txs block_txs_of cleanup_block_txs
    process_addresses_bitcoin_type for_each with_owner credit load_balance lookup
    get_addr_desc_balance has_utxo or_empty insert bytes_eq debit add_to_addresses_map slice_at
    append_index count_tx init_bulk_connect
at_end_lem = refl

processed-Distinct : Distinct processed.tx_addresses_map
unfolding process_addresses_bitcoin_type for_each with_owner credit load_balance lookup
    get_addr_desc_balance has_utxo or_empty insert bytes_eq debit
processed-Distinct = (refl, (refl, tt))

connect_block_bitcoin_type-close_example :
    after_ops cf_address_balance (40 ∷ []) (written in_bulk ++ written at_end) (ok [])
    ≡ after_ops cf_address_balance (40 ∷ []) (kept.1 ++ (kept.0 ++ written at_end_uncut)) (ok [])
unfolding init_bulk_connect
connect_block_bitcoin_type-close_example =
    connect_block_bitcoin_type-close bulk_env begun block true processed in_bulk at_end at_end_uncut
      kept.0 kept.1 refl processed_lem processed-Distinct kept_lem in_bulk_lem at_end_lem
      at_end_uncut_lem cf_address_balance (40 ∷ []) (ok [])

connect_block_bitcoin_type-single_example :
    after_ops cf_address_balance (40 ∷ []) (written in_bulk ++ written at_end) (ok [])
    ≡ after_ops cf_address_balance (40 ∷ []) (connected.at_once ++ connected.batch) (ok [])
connect_block_bitcoin_type-single_example =
    connect_block_bitcoin_type-single bulk_env block stats 0 processed connected in_bulk at_end refl
      processed_lem ((refl, (refl, tt)), ((refl, tt), tt)) connected_lem in_bulk_lem at_end_lem
      cf_address_balance (40 ∷ []) (ok [])
