-- ===== src/Db/Types.antt =====
-- db/rocksdb.go: the records of the index.
use skyr_block_explorer.Prelude.{ℕ, Bool, List}
use skyr_block_explorer.Prelude.Int.{ℤ}
use skyr_block_explorer.Prelude.Bytes.{Bytes}
use skyr_block_explorer.Prelude.GoMap.{GoMap}

pub record TxInput : Type 0 where
  pub addr_desc : Bytes
  pub value_sat : ℤ

pub record TxOutput : Type 0 where
  pub addr_desc : Bytes
  pub spent : Bool
  pub value_sat : ℤ

pub record TxAddresses : Type 0 where
  pub height : ℕ
  pub inputs : List TxInput
  pub outputs : List TxOutput
  pub shield_ins : ℕ
  pub shield_outs : ℕ
  pub shield_val_bal : ℤ

pub record Utxo : Type 0 where
  pub btx_id : Bytes
  pub vout : ℤ
  pub height : ℕ
  pub value_sat : ℤ

pub record AddrBalance : Type 0 where
  pub txs : ℕ
  pub sent_sat : ℤ
  pub balance_sat : ℤ
  pub utxos : List Utxo
  pub utxos_map : GoMap ℕ

pub record TxIndexes : Type 0 where
  pub btx_id : Bytes
  pub indexes : List ℤ

-- `outpoint` of the db package, by the packed id of a transaction.
pub record BtxOutpoint : Type 0 where
  pub btx_id : Bytes
  pub index : ℤ

pub record BlockTxs : Type 0 where
  pub btx_id : Bytes
  pub inputs : List BtxOutpoint

pub record BlockInfo : Type 0 where
  pub hash : Bytes
  pub time : ℤ
  pub txs : ℕ
  pub size : ℕ
  pub height : ℕ
