-- ===== src/Db/Tests/TxCache.antt =====
-- A run of the theorem on a transaction that is asked for twice.
use native.Mathlib.Omega.{arith}
use skyr_block_explorer.Prelude.{◌+◌, ◌-◌, ◌≡◌, refl, sym, ◌∙◌, true, [], ◌∷◌}
use skyr_block_explorer.Prelude.Int.{pos}
use skyr_block_explorer.Prelude.Bytes.{Bytes}
use skyr_block_explorer.Prelude.Result.{Result, ok, err, not_supported}
use skyr_block_explorer.Chain.Parser.{
  ProtoTransaction, Proto, to_proto, decode_string, from_hex_char, map_each, pack_vin, pack_vout,
  pack_vin_txid, pack_txid, bytes_from, to_uint64, pack_tx,
}
use skyr_block_explorer.Chain.Parser.RoundTrip.{kept_tx}
use skyr_block_explorer.Chain.Parser.Tests.{coin_tx, coin_tx-Fits, coin_proto}
use skyr_block_explorer.Db.Connect.{Column, cf_transactions, get_tx_addresses}
use skyr_block_explorer.Db.Store.{put_cf}
use skyr_block_explorer.Db.Store.Batch.{after_ops}
use skyr_block_explorer.Db.Store.Balances.{over}
use skyr_block_explorer.Db.Lookup.{get_tx_addresses_of_txid}
use skyr_block_explorer.Db.TxCache.{
  CacheBackend, Fetched, get_tx, height_of, height_or_best, get_transaction, put_packed, put_tx,
  or_nothing_stored, stored_if, fetch_transaction, found_or_fetched,
}
use skyr_block_explorer.Db.TxCache.Kept.{with_base_parser, get_transaction_again}
use skyr_block_explorer.Db.Tests.{env}

abbrev cached_proto : ProtoTransaction
cached_proto = record coin_proto { blocktime = 9 }

cached_proto_lem : to_proto coin_tx 600 (pos 9) ≡ ok cached_proto
unfolding to_proto decode_string from_hex_char map_each pack_vin pack_vout pack_vin_txid pack_txid
    bytes_from to_uint64
cached_proto_lem = refl

abbrev message : Bytes
message = 1 ∷ 2 ∷ 3 ∷ 4 ∷ 5 ∷ []

abbrev one_message : Proto
one_message = record { marshal = λ pt. ok message; unmarshal = λ buf. ok cached_proto }

abbrev backend : CacheBackend
backend = record {
  get_transaction = λ t. ok coin_tx;
  get_best_block_height = ok 600;
  get_height_from_tx = λ tx. err not_supported;
  pack_tx = λ tx height time. err not_supported;
  unpack_tx = λ buf. err not_supported;
}

abbrev stored : Fetched
stored = record {
  tx = coin_tx;
  height = 600;
  stored = put_cf cf_transactions coin_tx.txid message ∷ [];
}

stored_lem :
    get_transaction env (with_base_parser one_message backend) true 600 coin_tx.txid ≡ ok stored
unfolding get_transaction get_tx found_or_fetched fetch_transaction stored_if put_tx put_packed
    or_nothing_stored height_of get_tx_addresses_of_txid get_tx_addresses height_or_best pack_tx
    to_proto map_each pack_vin decode_string pack_vin_txid pack_txid from_hex_char pack_vout
stored_lem = refl

abbrev after_fetch : Column → Bytes → Result Bytes
after_fetch c k = after_ops c k stored.stored (env.get_cf c k)

get_transaction_again_example :
    (stored.tx ≡ coin_tx)
    × (stored.height ≡ 600)
    × (get_transaction
          (over env after_fetch)
          (with_base_parser one_message backend)
          true
          650
          coin_tx.txid
        ≡ ok (record {
          tx = record (kept_tx coin_tx coin_tx.blocktime) { confirmations = 650 - 600 + 1 };
          height = 600;
          stored = [];
        }))
unfolding get_tx height_of height_or_best get_tx_addresses_of_txid get_tx_addresses
get_transaction_again_example =
    get_transaction_again env one_message backend coin_tx.txid coin_tx.txid coin_tx 600 refl refl
      600 650 stored after_fetch refl refl (omega arith) refl coin_tx-Fits (omega arith)
      (λ pt e. (message, refl, sym cached_proto_lem ∙ e, omega arith)) stored_lem
      (record { get = λ c k. refl }) (omega arith) (omega arith)
