-- ===== src/Db/Tests/Connected.antt =====
-- The run of the theorem on a connected block.
mod Bulk
use native.Mathlib.Omega.{arith}
use skyr_block_explorer.Prelude.{◌≡◌, refl, none, some, [], ◌∷◌}
use skyr_block_explorer.Prelude.Bytes.{Bytes, bytes_eq}
use skyr_block_explorer.Prelude.GoMap.{lookup, insert}
use skyr_block_explorer.Prelude.Each.{AllValues}
use skyr_block_explorer.Prelude.Result.{Result, ok}
use skyr_block_explorer.Prelude.{ℕ, ◌++◌, All, ◌==◌, if◌then◌else◌}
use skyr_block_explorer.Db.Vlq.{pack_varuint}
use skyr_block_explorer.Db.Vlq.Fixed.{fixed}
use skyr_block_explorer.Db.Keys.{pack_uint, pack_address_key}
use skyr_block_explorer.Db.Connect.{cf_height, cf_addresses}
use skyr_block_explorer.Db.Store.{Op, put_cf, op_insert}
use skyr_block_explorer.Db.Lookup.{get_block_hash}
use skyr_block_explorer.Db.Lookup.Heights.{hash_left, get_block_hash-write_height}
use skyr_block_explorer.Db.Tests.{info}
use skyr_block_explorer.Db.Vlq.Fixed.{fixed-laws}
use skyr_block_explorer.Db.AddrBalance.{utxo}
use skyr_block_explorer.Db.AddrBalance.RoundTrip.{FitsAddrBalance}
use skyr_block_explorer.Db.BlockInfo.{pack_block_info}
use skyr_block_explorer.Db.BlockTxs.{block_txs_of}
use skyr_block_explorer.Db.Utxos.{has_utxo, add_utxo, mark_utxo_as_spent}
use skyr_block_explorer.Db.TxIndexes.{add_to_addresses_map, slice_at, append_index}
use skyr_block_explorer.Prelude.Int.{◌+ℤ◌, ◌-ℤ◌}
use skyr_block_explorer.Db.Connect.{
  Column, Maps, ConnectBlockStats, for_each, with_owner, credit, debit, load_balance,
  get_addr_desc_balance, or_empty, count_tx,
}
use skyr_block_explorer.Db.Connect.Process.{process_addresses_bitcoin_type}
use skyr_block_explorer.Db.Store.{
  Written, empty_maps, connect_block, write_height, write_height_from_block, cleanup_block_txs,
  store_and_cleanup_block_txs,
}
use skyr_block_explorer.Db.Store.Batch.{after_ops}
use skyr_block_explorer.Db.Store.Balances.{over, kept_balance}
use skyr_block_explorer.Db.Store.Connected.{connect_block-get_addr_desc_balance}
use skyr_block_explorer.Db.TxAddresses.RoundTrip.{FitsTxAddresses}
use skyr_block_explorer.Db.Store.Transactions.{ReadsTx, connect_block-get_tx_addresses}
use skyr_block_explorer.Db.Store.Addresses.{entry_left, connect_block-get_addresses}
use skyr_block_explorer.Db.Tests.{env, block}

abbrev stats : ConnectBlockStats
stats = record { tx_addresses_hit = 0; tx_addresses_miss = 0; balances_hit = 0; balances_miss = 0 }

abbrev or_maps : Result Maps → Maps
or_maps (ok m) = m
or_maps _ = empty_maps stats

abbrev or_written : Result Written → Written
or_written (ok w) = w
or_written _ = record { batch = []; at_once = []; best_height = 0 }

abbrev processed : Maps
processed = or_maps (process_addresses_bitcoin_type env block (empty_maps stats))

abbrev connected : Written
connected = or_written (connect_block env block stats)

processed_lem : process_addresses_bitcoin_type env block (empty_maps stats) ≡ ok processed
unfolding process_addresses_bitcoin_type for_each with_owner credit load_balance lookup
    get_addr_desc_balance has_utxo or_empty insert bytes_eq debit
processed_lem = refl

connected_lem : connect_block env block stats ≡ ok connected
unfolding process_addresses_bitcoin_type for_each with_owner credit load_balance lookup
    get_addr_desc_balance has_utxo or_empty insert bytes_eq debit connect_block write_height
    write_height_from_block cleanup_block_txs store_and_cleanup_block_txs pack_block_info
    block_txs_of
connected_lem = refl

processed-Fits : AllValues (FitsAddrBalance 1) processed.balances
unfolding process_addresses_bitcoin_type for_each with_owner credit load_balance lookup
    get_addr_desc_balance has_utxo or_empty insert bytes_eq debit count_tx add_to_addresses_map
    slice_at append_index add_utxo mark_utxo_as_spent ◌+ℤ◌ ◌-ℤ◌
processed-Fits = (
  record {
    txs = omega arith;
    sent = omega arith;
    balance = omega arith;
    utxos =
        (record { id = refl; vout = omega arith; height = omega arith; value = omega arith }, tt);
  },
  (
    record {
      txs = omega arith;
      sent = omega arith;
      balance = omega arith;
      utxos =
          (record { id = refl; vout = omega arith; height = omega arith; value = omega arith }, tt);
    },
    (
      record {
        txs = omega arith;
        sent = omega arith;
        balance = omega arith;
        utxos = (
          record { id = refl; vout = omega arith; height = omega arith; value = omega arith },
          tt,
        );
      },
      tt,
    ),
  ),
)

abbrev after_block : Column → Bytes → Result Bytes
after_block c k = after_ops c k connected.batch (env.get_cf c k)

connect_block_example :
    get_addr_desc_balance (over env after_block) (40 ∷ []) utxo
    ≡ (elim (lookup (40 ∷ []) processed.balances) [
      | none ↦ get_addr_desc_balance env (40 ∷ []) utxo
      | some ab ↦ ok (kept_balance (some ab) utxo)
    ])
connect_block_example =
    connect_block-get_addr_desc_balance env fixed-laws block stats processed connected after_block
      (40 ∷ []) utxo ((refl, (refl, tt)), ((refl, tt), tt)) processed_lem connected_lem
      processed-Fits (record { get = λ c k. refl })

processed_heap-Fits : All FitsTxAddresses processed.heap
unfolding process_addresses_bitcoin_type for_each with_owner credit load_balance lookup
    get_addr_desc_balance has_utxo or_empty insert bytes_eq debit
processed_heap-Fits = (
  record {
    height = omega arith;
    inputs = omega arith;
    outputs = omega arith;
    each_input = tt;
    each_output = (
      record { desc = omega arith; value = omega arith },
      (record { desc = omega arith; value = omega arith }, tt),
    );
    shield_ins = omega arith;
    shield_outs = omega arith;
    shield_val_bal = omega arith;
  },
  (
    record {
      height = omega arith;
      inputs = omega arith;
      outputs = omega arith;
      each_input = (record { desc = omega arith; value = omega arith }, tt);
      each_output = (record { desc = omega arith; value = omega arith }, tt);
      shield_ins = omega arith;
      shield_outs = omega arith;
      shield_val_bal = omega arith;
    },
    tt,
  ),
)

connect_block-get_tx_addresses_example :
    ReadsTx env after_block processed (1 ∷ []) (lookup (1 ∷ []) processed.tx_addresses_map)
connect_block-get_tx_addresses_example =
    connect_block-get_tx_addresses env fixed-laws block stats processed connected after_block
      (1 ∷ []) ((refl, (refl, tt)), ((refl, tt), tt)) processed_lem connected_lem
      processed_heap-Fits (record { get = λ c k. refl })

connect_block-get_addresses_example :
    after_block cf_addresses (pack_address_key (40 ∷ []) block.height)
    ≡ entry_left fixed
        (block.height == block.height)
        (lookup (40 ∷ []) processed.addresses)
        (env.get_cf cf_addresses (pack_address_key (40 ∷ []) block.height))
connect_block-get_addresses_example =
    connect_block-get_addresses env block stats processed connected after_block (40 ∷ [])
      block.height ((refl, (refl, tt)), ((refl, tt), tt)) processed_lem connected_lem (omega arith)
      (omega arith) (record { get = λ c k. refl })

-- The record of a height.
abbrev height_written : Op × ℕ
height_written = (
  put_cf cf_height (pack_uint 600)
      (9 ∷ (pack_uint 1600000000 ++ (fixed.put_uint 2 ++ fixed.put_uint 500))),
  600,
)

height_written_lem : write_height env 600 info op_insert ≡ ok height_written
unfolding write_height pack_block_info pack_varuint
height_written_lem = refl

abbrev after_height : Column → Bytes → Result Bytes
after_height c k = after_ops c k (height_written.0 ∷ []) (env.get_cf c k)

get_block_hash_example :
    get_block_hash (over env after_height) 600
    ≡ (if 600 == 600 then ok (hash_left op_insert info) else get_block_hash env 600)
get_block_hash_example =
    get_block_hash-write_height env fixed-laws 600 600 info (9 ∷ []) op_insert height_written
      after_height (omega arith) (omega arith)
      (record { packs = refl; size = refl; unpacks = refl })
      (record { time = omega arith; txs = omega arith; size = omega arith }) height_written_lem
      (record { get = λ c k. refl })
