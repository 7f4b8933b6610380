-- ===== src/Db/Tests.antt =====
-- Runs of the theorems at concrete data.
mod Connected
mod Ethereum
mod Sync
mod Utxos
mod Undone
mod TxCache
mod Scan
use native.Mathlib.Omega.{arith}
use skyr_block_explorer.Prelude.{Option, none}
use skyr_block_explorer.Prelude.Result.{Result}
use skyr_block_explorer.Prelude.{
  ℕ, ◌^◌, ◌-◌, ◌/◌, ◌≤◌, ◌≡◌, refl, true, false, ◌&&◌, ◌==◌, some, List, [], ◌∷◌, ◌++◌, length, ltb,
  if◌then◌else◌, All,
}
use skyr_block_explorer.Prelude.Int.{ℤ, pos, negsuc, eq_ℤ}
use skyr_block_explorer.Prelude.Bytes.{Bytes, bytes_eq}
use skyr_block_explorer.Prelude.Result.{ok, err, not_implemented, not_supported, Ensures, Gives}
use mathlib.Core.List.{reverse}
use skyr_block_explorer.Prelude.GoMap.{lookup, insert}
use skyr_block_explorer.Prelude.Result.{◌>>=◌}
use skyr_block_explorer.Prelude.Int.{to_uint32, is_neg}
use skyr_block_explorer.Prelude.GoMap.{GoMap, Distinct}
use skyr_block_explorer.Db.Types.{BlockTxs, BlockInfo}
use skyr_block_explorer.Db.BlockTxs.{pack_block_txs, unpack_block_txs}
use skyr_block_explorer.Db.BlockTxs.RoundTrip.{unpack_block_txs-pack_block_txs}
use skyr_block_explorer.Db.BlockInfo.{pack_block_info, unpack_block_info}
use skyr_block_explorer.Db.BlockInfo.RoundTrip.{unpack_block_info-pack_block_info}
use skyr_block_explorer.Db.Connect.{Column, get_addr_desc_balance}
use skyr_block_explorer.Db.Store.{store_balances}
use skyr_block_explorer.Db.Store.Batch.{after_ops}
use skyr_block_explorer.Db.Store.Balances.{over, kept_balance, get_addr_desc_balance-store_balances}
use skyr_block_explorer.Db.Disconnect.{sort_by_height, unspent}
use skyr_block_explorer.Db.Disconnect.Settled.{IsSorted, live_at, sort_by_height-unspent}
use skyr_block_explorer.Chain.{ChainParser, bitcoin_type, Vin, Vout, Tx, Block}
use skyr_block_explorer.Db.Vlq.Fixed.{fixed, fixed-laws}
use skyr_block_explorer.Db.Bigint.{pack_bigint, unpack_bigint, bits, max_packed_bigint_bytes}
use skyr_block_explorer.Db.Bigint.RoundTrip.{unpack_bigint-pack_bigint, length-pack_bigint}
use skyr_block_explorer.Db.Keys.{pack_address_key, unpack_address_key, bytes_ltb}
use skyr_block_explorer.Db.Keys.Order.{pack_address_key_order}
use skyr_block_explorer.Db.Keys.RoundTrip.{unpack_address_key-pack_address_key}
use skyr_block_explorer.Db.Types.{TxAddresses, Utxo, AddrBalance, TxIndexes}
use skyr_block_explorer.Db.TxAddresses.{pack_tx_addresses, unpack_tx_addresses}
use skyr_block_explorer.Db.TxAddresses.RoundTrip.{
  FitsTxAddresses, stored, unpack_tx_addresses-pack_tx_addresses,
}
use skyr_block_explorer.Db.Utxos.{add_utxo, mark_utxo_as_spent, mark_linear, has_utxo, any_utxo}
use skyr_block_explorer.Db.Utxos.Index.{IsIndexed, add_utxo-IsIndexed, mark_utxo_as_spent-IsIndexed}
use skyr_block_explorer.Db.Utxos.Spend.{
  mark_utxo_as_spent_together, mark_utxo_as_spent_blocked, has_utxo_cases, NotOfTx,
}
use skyr_block_explorer.Db.AddrBalance.{
  empty_balance, utxo, utxo_indexed, pack_addr_balance, unpack_addr_balance,
}
use skyr_block_explorer.Db.AddrBalance.Order.{
  IsInOrder, IsIndexed-nil, unpack_addr_balance-IsInOrder,
}
use skyr_block_explorer.Db.AddrBalance.RoundTrip.{
  FitsAddrBalance, stored_balance, unpack_addr_balance-pack_addr_balance,
}
use skyr_block_explorer.Db.TxIndexes.{slice_at, add_to_addresses_map, pack_tx_indexes, AddressesMap}
use skyr_block_explorer.Db.TxIndexes.RoundTrip.{FitsIndexes}
use skyr_block_explorer.Db.TxIndexes.Counted.{has_tx, indexes_of, add_to_addresses_map_lem}
use skyr_block_explorer.Db.Connect.{Env, Maps}
use skyr_block_explorer.Db.Connect.Invariant.{IsSound}
use skyr_block_explorer.Db.Connect.Process.{process_addresses_bitcoin_type}
use skyr_block_explorer.Db.Connect.Process.Sound.{process_addresses_bitcoin_type-IsSound}

-- Keys.
pack_address_key_order_example :
    bytes_ltb (pack_address_key (7 ∷ 8 ∷ []) 300) (pack_address_key (7 ∷ 8 ∷ []) 100000)
    ≡ ltb 100000 300
pack_address_key_order_example =
    pack_address_key_order (7 ∷ 8 ∷ []) 300 100000 (omega arith) (omega arith)

-- Amounts.
unpack_bigint_example :
    unpack_bigint (pack_bigint (negsuc 299) ++ 9 ∷ [])
    ≡ some (pos (300 / (2 ^ 64) ^ (length (bits 300) - 31)), length (pack_bigint (negsuc 299)))
unpack_bigint_example = unpack_bigint-pack_bigint (negsuc 299) (9 ∷ [])

length-pack_bigint_example :
    (1 ≤ length (pack_bigint (pos 300)))
    × (length (pack_bigint (pos 300)) ≤ max_packed_bigint_bytes)
length-pack_bigint_example = length-pack_bigint (pos 300)

-- A transaction with a spent output and a negative shielded balance.
abbrev shielded_tx : TxAddresses
shielded_tx = record {
  height = 1000;
  inputs = record { addr_desc = 1 ∷ []; value_sat = pos 70 } ∷ [];
  outputs = record { addr_desc = 2 ∷ 3 ∷ []; spent = true; value_sat = pos 60 } ∷ [];
  shield_ins = 0;
  shield_outs = 1;
  shield_val_bal = negsuc 9;
}

shielded_tx-Fits : FitsTxAddresses shielded_tx
shielded_tx-Fits = record {
  height = omega arith;
  inputs = omega arith;
  outputs = omega arith;
  each_input = (record { desc = omega arith; value = omega arith }, tt);
  each_output = (record { desc = omega arith; value = omega arith }, tt);
  shield_ins = omega arith;
  shield_outs = omega arith;
  shield_val_bal = omega arith;
}

unpack_tx_addresses_example :
    unpack_tx_addresses fixed (pack_tx_addresses fixed shielded_tx ++ [])
    ≡ some (stored shielded_tx)
unpack_tx_addresses_example =
    unpack_tx_addresses-pack_tx_addresses fixed-laws shielded_tx [] shielded_tx-Fits

-- Balances.
abbrev out : ℕ → ℤ → Utxo
out id vout = record { btx_id = id ∷ []; vout = vout; height = 500; value_sat = pos 25 }

abbrev two_outs : AddrBalance
two_outs = record {
  txs = 2;
  sent_sat = pos 10;
  balance_sat = pos 50;
  utxos = out 1 (pos 0) ∷ out 2 (negsuc 0) ∷ [];
  utxos_map = [];
}

two_outs-Fits : FitsAddrBalance 1 two_outs
two_outs-Fits = record {
  txs = omega arith;
  sent = omega arith;
  balance = omega arith;
  utxos = (
    record { id = refl; vout = omega arith; height = omega arith; value = omega arith },
    (record { id = refl; vout = omega arith; height = omega arith; value = omega arith }, tt),
  );
}

unpack_addr_balance_example :
    unpack_addr_balance fixed 1 (pack_addr_balance fixed two_outs) utxo
    ≡ some (stored_balance two_outs utxo)
unpack_addr_balance_example =
    unpack_addr_balance-pack_addr_balance fixed-laws 1 two_outs utxo two_outs-Fits

-- The transactions of an address.
abbrev two_txs : List TxIndexes
two_txs =
    record { btx_id = 1 ∷ []; indexes = pos 0 ∷ pos 3 ∷ [] }
    ∷ record { btx_id = 2 ∷ []; indexes = negsuc 4 ∷ [] }
    ∷ []

two_txs-Fits : All (FitsIndexes 1) two_txs
two_txs-Fits = (
  record { id = refl; some_index = λ e. cc; each = (omega arith, (omega arith, tt)) },
  (record { id = refl; some_index = λ e. cc; each = (omega arith, tt) }, tt),
)

abbrev one_address : AddressesMap
one_address = (7 ∷ [], two_txs) ∷ []

add_to_addresses_map_example :
    ((add_to_addresses_map one_address (7 ∷ []) (2 ∷ []) (pos 1)).1
      ≡ has_tx (2 ∷ []) (slice_at (7 ∷ []) one_address))
    × ((q j : Bytes)
        → indexes_of j (slice_at q (add_to_addresses_map one_address (7 ∷ []) (2 ∷ []) (pos 1)).0)
          ≡ (if bytes_eq (7 ∷ []) q && bytes_eq (2 ∷ []) j
              then indexes_of j (slice_at q one_address) ++ pos 1 ∷ []
              else indexes_of j (slice_at q one_address)))
add_to_addresses_map_example = add_to_addresses_map_lem one_address (7 ∷ []) (2 ∷ []) (pos 1)

-- A block on an empty index.
abbrev parser : ChainParser
parser = record {
  get_chain_type = bitcoin_type;
  keep_block_addresses = 100;
  get_addr_desc_from_vout = λ o. ok (o.script_pub_key_hex);
  get_addr_desc_from_address = λ a. ok a;
  is_addr_desc_indexable = λ d. true;
  packed_txid_len = 1;
  pack_txid = λ t. ok t;
  unpack_txid = λ t. ok t;
  get_addr_desc_for_unknown_input = λ tx i. [];
  get_value_sat_for_unknown_input = λ tx i. pos 0;
  pack_block_hash = λ h. ok h;
  unpack_block_hash = λ h. ok h;
  ethereum_type_get_erc20_from_tx = λ tx. err not_supported;
}

abbrev env : Env
env = record {
  vlq = fixed;
  parser = parser;
  pay_to_pubkey_hash = λ h. err not_implemented;
  get_cf = λ c k. ok [];
  has_cf = λ c k. false;
}

abbrev tx_of : ℕ → List Vin → List Vout → Tx
tx_of id vin vout = record {
  hex = [];
  txid = id ∷ [];
  version = pos 1;
  lock_time = 0;
  vin = vin;
  vout = vout;
  confirmations = 0;
  time = pos 0;
  blocktime = pos 0;
  v_shield_in = [];
  v_shield_out = [];
  shield_val_bal = pos 0;
}

abbrev pays : ℕ → ℕ → Vout
pays n script = record {
  value_sat = pos 50;
  json_value = [];
  n = n;
  script_pub_key_hex = script ∷ [];
  addresses = [];
}

abbrev spends : ℕ → ℕ → Vin
spends id vout = record {
  coinbase = [];
  txid = id ∷ [];
  vout = vout;
  script_sig_hex = [];
  sequence = 0;
  addresses = [];
}

abbrev block : Block
block = record {
  hash = [];
  prev = [];
  next = [];
  height = 600;
  confirmations = pos 1;
  size = pos 0;
  time = pos 0;
  txs = tx_of 1 [] (pays 0 40 ∷ pays 1 41 ∷ []) ∷ tx_of 2 (spends 1 1 ∷ []) (pays 0 42 ∷ []) ∷ [];
}

abbrev no_maps : Maps
no_maps = record {
  addresses = [];
  heap = [];
  tx_addresses_map = [];
  balances = [];
  cbs = record { tx_addresses_hit = 0; tx_addresses_miss = 0; balances_hit = 0; balances_miss = 0 };
}

process_addresses_bitcoin_type-IsSound_example :
    Ensures IsSound (process_addresses_bitcoin_type env block no_maps)
process_addresses_bitcoin_type-IsSound_example =
    process_addresses_bitcoin_type-IsSound env block no_maps ((refl, (refl, tt)), ((refl, tt), tt))
      (record { balances = tt; heap = tt; distinct = tt; keys = tt; addresses = tt })

-- The data of a block for its disconnection, and its record.
abbrev two_block_txs : List BlockTxs
two_block_txs =
    record { btx_id = 1 ∷ []; inputs = [] }
    ∷ record { btx_id = 2 ∷ []; inputs = record { btx_id = 1 ∷ []; index = pos 1 } ∷ [] }
    ∷ []

unpack_block_txs_example :
    unpack_block_txs fixed 1 (pack_block_txs fixed two_block_txs) ≡ ok two_block_txs
unpack_block_txs_example = unpack_block_txs-pack_block_txs fixed-laws 1 two_block_txs (
  record { id = refl; number = omega arith; inputs = tt },
  (
    record {
      id = refl;
      number = omega arith;
      inputs = (record { id = refl; index = omega arith }, tt);
    },
    tt,
  ),
)

abbrev info : BlockInfo
info = record { hash = 9 ∷ []; time = pos 1600000000; txs = 2; size = 500; height = 600 }

unpack_block_info_example :
    (pack_block_info fixed parser info >>= unpack_block_info fixed parser)
    ≡ ok (some (record info { time = pos (to_uint32 (pos 1600000000)); height = 0 }))
unpack_block_info_example =
    unpack_block_info-pack_block_info fixed-laws parser info (9 ∷ [])
      (record { packs = refl; size = refl; unpacks = refl })
      (record { time = omega arith; txs = omega arith; size = omega arith })

sort_by_height-unspent_example :
    IsSorted (sort_by_height (unspent two_outs.utxos))
    × (All (λ (u : Utxo). is_neg u.vout ≡ false) (sort_by_height (unspent two_outs.utxos))
        × ((h : ℕ)
            → live_at h (sort_by_height (unspent two_outs.utxos)) ≡ live_at h two_outs.utxos))
sort_by_height-unspent_example = sort_by_height-unspent two_outs.utxos
