-- ===== src/Chain.antt =====
-- bchain/types.go: transactions, blocks and the interface of the coin's parser.
pub mod Amount
pub mod Parser
use skyr_block_explorer.Prelude.{ℕ, Bool, List}
use skyr_block_explorer.Prelude.Int.{ℤ}
use skyr_block_explorer.Prelude.Bytes.{Bytes}
use skyr_block_explorer.Prelude.Result.{Result}

pub data ChainType : Type 0 where
  bitcoin_type ethereum_type other_type : ChainType

pub record Outpoint : Type 0 where
  pub txid : Bytes
  pub vout : ℤ

pub record Vin : Type 0 where
  pub coinbase : Bytes
  pub txid : Bytes
  pub vout : ℕ
  pub script_sig_hex : Bytes
  pub sequence : ℕ
  pub addresses : List Bytes

pub record Vout : Type 0 where
  pub value_sat : ℤ
  pub json_value : Bytes
  pub n : ℕ
  pub script_pub_key_hex : Bytes
  pub addresses : List Bytes

pub record Tx : Type 0 where
  pub hex : Bytes
  pub txid : Bytes
  pub version : ℤ
  pub lock_time : ℕ
  pub vin : List Vin
  pub vout : List Vout
  pub confirmations : ℕ
  pub time : ℤ
  pub blocktime : ℤ
  pub v_shield_in : List Bytes
  pub v_shield_out : List Bytes
  pub shield_val_bal : ℤ

-- A block with the fields of its header.
pub record Block : Type 0 where
  pub hash : Bytes
  pub prev : Bytes
  pub next : Bytes
  pub height : ℕ
  pub confirmations : ℤ
  pub size : ℤ
  pub time : ℤ
  pub txs : List Tx

pub record Erc20Transfer : Type 0 where
  pub contract : Bytes
  pub from : Bytes
  pub to : Bytes
  pub tokens : ℤ

-- What the index asks of the parser of a coin.
pub record ChainParser : Type 0 where
  pub get_chain_type : ChainType
  pub keep_block_addresses : ℕ
  pub get_addr_desc_from_vout : Vout → Result Bytes
  pub get_addr_desc_from_address : Bytes → Result Bytes
  pub is_addr_desc_indexable : Bytes → Bool
  pub packed_txid_len : ℕ
  pub pack_txid : Bytes → Result Bytes
  pub unpack_txid : Bytes → Result Bytes
  pub get_addr_desc_for_unknown_input : Tx → ℕ → Bytes
  pub get_value_sat_for_unknown_input : Tx → ℕ → ℤ
  pub pack_block_hash : Bytes → Result Bytes
  pub unpack_block_hash : Bytes → Result Bytes
  pub ethereum_type_get_erc20_from_tx : Tx → Result (List Erc20Transfer)
