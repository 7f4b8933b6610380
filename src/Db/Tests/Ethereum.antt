-- ===== src/Db/Tests/Ethereum.antt =====
-- Runs of the theorems on the index of the Ethereum type.
use native.Mathlib.Omega.{arith}
use skyr_block_explorer.Prelude.{
  ℕ, ◌≡◌, refl, true, false, none, some, List, [], ◌∷◌, map, replicate,
}
use skyr_block_explorer.Prelude.Int.{pos}
use skyr_block_explorer.Prelude.{if◌then◌else◌}
use skyr_block_explorer.Prelude.Bytes.{Bytes, bytes_eq}
use skyr_block_explorer.Db.Keys.{pack_uint}
use skyr_block_explorer.Prelude.Each.{AllValues}
use skyr_block_explorer.Prelude.GoMap.{lookup, insert}
use skyr_block_explorer.Prelude.Result.{Result, ok, err, cannot_disconnect}
use skyr_block_explorer.Db.Vlq.Fixed.{fixed, fixed-laws}
use skyr_block_explorer.Db.Connect.{Column, ConnectBlockStats}
use skyr_block_explorer.Db.Store.Batch.{after_ops}
use skyr_block_explorer.Db.Store.Balances.{over}
use skyr_block_explorer.Db.TxIndexes.{add_to_addresses_map, append_index, slice_at}
use skyr_block_explorer.Db.Tests.{env, block, tx_of}
use skyr_block_explorer.Chain.{Block}
use skyr_block_explorer.Db.Store.{Written, write_height_from_block, write_height}
use skyr_block_explorer.Db.BlockInfo.{pack_block_info}
use skyr_block_explorer.Db.Ethereum.{
  AddrContracts, pack_addr_contracts, unpack_addr_contracts, get_addr_desc_contracts, count_address,
  count_total, is_zero_address, count_contract, find_contract_in_address_contracts, count_at,
}
use skyr_block_explorer.Db.Ethereum.RoundTrip.{
  FitsContracts, unpack_addr_contracts-pack_addr_contracts,
}
use skyr_block_explorer.Db.Ethereum.Process.{
  EthBlockTx, EthMaps, process_addresses_ethereum_type, process_txs,
  add_to_addresses_and_contracts_ethereum_type, load_contracts,
}
use skyr_block_explorer.Db.Ethereum.BlockTxs.{pack_eth_block_txs, unpack_eth_block_txs}
use skyr_block_explorer.Db.Ethereum.BlockTxs.RoundTrip.{
  kept_tx, unpack_eth_block_txs-pack_eth_block_txs,
}
use skyr_block_explorer.Db.Ethereum.Connect.{
  EthEnv, empty_eth_maps, connect_block_ethereum_type, store_and_cleanup_block_txs_ethereum_type,
  cleanup_eth_block_txs,
}
use skyr_block_explorer.Db.Ethereum.Connect.Connected.{connect_block-get_addr_desc_contracts}
use skyr_block_explorer.Db.Ethereum.Connect.Stored.{kept_contracts}
use skyr_block_explorer.Db.Ethereum.Disconnect.{
  get_block_txs_ethereum_type, disconnect_block_range_ethereum_type, uncount_address, uncount_total,
}
use skyr_block_explorer.Db.Ethereum.Disconnect.Missing.{
  disconnect_block_range_ethereum_type-missing,
}
use skyr_block_explorer.Db.Ethereum.Disconnect.Undone.{uncount_address-count_address}

abbrev contract_of : ℕ → Bytes
contract_of n = replicate 20 n

-- Four transactions, one of them without a contract.
abbrev two_contracts : AddrContracts
two_contracts = record {
  total_txs = 4;
  non_contract_txs = 1;
  contracts =
      record { contract = contract_of 3; txs = 2 }
      ∷ record { contract = contract_of 4; txs = 1 }
      ∷ [];
}

two_contracts-Fits : FitsContracts two_contracts
two_contracts-Fits = record {
  total_txs = omega arith;
  non_contract_txs = omega arith;
  contracts = (
    record { contract = refl; txs = omega arith },
    (record { contract = refl; txs = omega arith }, tt),
  );
}

unpack_addr_contracts_example :
    unpack_addr_contracts fixed (pack_addr_contracts fixed two_contracts) ≡ ok (some two_contracts)
unpack_addr_contracts_example =
    unpack_addr_contracts-pack_addr_contracts fixed-laws two_contracts two_contracts-Fits

-- One without addresses, and one with a transfer to the zero address.
abbrev two_txs : List EthBlockTx
two_txs =
    record { btx_id = 1 ∷ []; from = []; to = []; contracts = [] }
    ∷ record {
      btx_id = 2 ∷ [];
      from = contract_of 5;
      to = contract_of 0;
      contracts = record { addr = contract_of 5; contract = contract_of 3 } ∷ [];
    }
    ∷ []

unpack_eth_block_txs_example :
    unpack_eth_block_txs fixed 1 (some (pack_eth_block_txs fixed two_txs))
    ≡ ok (some (map kept_tx two_txs))
unpack_eth_block_txs_example =
    unpack_eth_block_txs-pack_eth_block_txs fixed-laws 1 two_txs
      (record { id = refl; number = omega arith }, (record { id = refl; number = omega arith }, tt))

-- The block 5 has data, which are empty, and the block 6 has none.
abbrev one_block : EthEnv
one_block = record {
  env = env;
  get_data = λ c k. if bytes_eq k (pack_uint 5) then ok (some []) else ok none;
}

disconnect_missing_example :
    disconnect_block_range_ethereum_type one_block 5 7 ≡ err cannot_disconnect
unfolding get_block_txs_ethereum_type unpack_eth_block_txs bytes_eq pack_uint
disconnect_missing_example =
    disconnect_block_range_ethereum_type-missing one_block 5 7 1 (omega arith) (([], refl), tt) refl

not_zero : is_zero_address (contract_of 9) ≡ false
unfolding is_zero_address
not_zero = refl

uncount_address_example :
    uncount_address (some (contract_of 4)) (
      uncount_total false (
        count_total false
          (count_address (contract_of 9) (pos 0) (some (contract_of 4)) true two_contracts).0))
    ≡ two_contracts
uncount_address_example =
    uncount_address-count_address (contract_of 9) (some (contract_of 4)) false (pos 0) two_contracts
      not_zero (omega arith) (omega arith)
      (
        record { room = omega arith; used = omega arith },
        (record { room = omega arith; used = omega arith }, tt),
      )

-- A block with one transaction from 5 to 6, which moves a token of the contract 3 from 5 to 6.
abbrev eth_env : EthEnv
eth_env = record {
  env = record env {
    parser = record env.parser {
      ethereum_type_get_erc20_from_tx = λ tx. ok (
          record {
            contract = contract_of 3;
            from = contract_of 5;
            to = contract_of 6;
            tokens = pos 1;
          }
          ∷ []);
    };
  };
  get_data = λ c k. ok none;
}

abbrev eth_block : Block
eth_block = record block {
  txs =
      tx_of 1
        (record {
          coinbase = [];
          txid = [];
          vout = 0;
          script_sig_hex = [];
          sequence = 0;
          addresses = contract_of 5 ∷ [];
        }
          ∷ [])
        (record {
          value_sat = pos 1;
          json_value = [];
          n = 0;
          script_pub_key_hex = [];
          addresses = contract_of 6 ∷ [];
        }
          ∷ [])
      ∷ [];
}

abbrev eth_stats : ConnectBlockStats
eth_stats = record {
  tx_addresses_hit = 0;
  tx_addresses_miss = 0;
  balances_hit = 0;
  balances_miss = 0;
}

abbrev or_nothing : Result (List EthBlockTx × EthMaps) → List EthBlockTx × EthMaps
or_nothing (ok r) = r
or_nothing _ = ([], empty_eth_maps eth_stats)

abbrev or_unwritten : Result Written → Written
or_unwritten (ok w) = w
or_unwritten _ = record { batch = []; at_once = []; best_height = 0 }

abbrev processed : List EthBlockTx × EthMaps
processed =
    or_nothing (process_addresses_ethereum_type eth_env.env eth_block (empty_eth_maps eth_stats))

abbrev connected : Written
connected = or_unwritten (connect_block_ethereum_type eth_env eth_block eth_stats)

processed_lem :
    process_addresses_ethereum_type eth_env.env eth_block (empty_eth_maps eth_stats) ≡ ok processed
unfolding process_addresses_ethereum_type process_txs add_to_addresses_and_contracts_ethereum_type
    load_contracts lookup get_addr_desc_contracts unpack_addr_contracts insert bytes_eq
processed_lem = refl

connected_lem : connect_block_ethereum_type eth_env eth_block eth_stats ≡ ok connected
unfolding connect_block_ethereum_type write_height_from_block write_height pack_block_info
    process_addresses_ethereum_type process_txs add_to_addresses_and_contracts_ethereum_type
    load_contracts lookup get_addr_desc_contracts unpack_addr_contracts insert bytes_eq
    store_and_cleanup_block_txs_ethereum_type cleanup_eth_block_txs
connected_lem = refl

processed-Fits : AllValues FitsContracts processed.1.address_contracts
unfolding process_addresses_ethereum_type process_txs add_to_addresses_and_contracts_ethereum_type
    load_contracts lookup get_addr_desc_contracts unpack_addr_contracts insert bytes_eq count_total
    add_to_addresses_map append_index slice_at count_address is_zero_address count_contract
    find_contract_in_address_contracts count_at
processed-Fits =
    let one : FitsContracts (record {
      total_txs = 1;
      non_contract_txs = 1;
      contracts = record { contract = contract_of 3; txs = 1 } ∷ [];
    }) =
      record {
        total_txs = omega arith;
        non_contract_txs = omega arith;
        contracts = (record { contract = refl; txs = omega arith }, tt);
      } in
    (one, (one, tt))

after_connected : Column → Bytes → Result Bytes
after_connected c k = after_ops c k connected.batch (eth_env.env.get_cf c k)

connect_block_contracts_example :
    get_addr_desc_contracts (over eth_env.env after_connected) (contract_of 5)
    ≡ (elim (lookup (contract_of 5) processed.1.address_contracts) [
      | none ↦ get_addr_desc_contracts eth_env.env (contract_of 5)
      | some ac ↦ ok (kept_contracts (some ac))
    ])
unfolding after_connected
connect_block_contracts_example =
    connect_block-get_addr_desc_contracts eth_env fixed-laws eth_block eth_stats processed.0
      processed.1 connected after_connected (contract_of 5) processed_lem connected_lem
      processed-Fits (record { get = λ c k. refl })
