-- ===== src/Db/Lookup.antt =====
-- db/rocksdb.go, GetBestBlock, GetBlockHash, GetBlockInfo, GetAddressBalance, GetTxAddresses and
-- AddrDescForOutpoint: what the index is asked for.
pub mod Heights
use skyr_block_explorer.Prelude.{ℕ, Bool, Option, none, some, [], get_elem?}
use skyr_block_explorer.Prelude.Int.{ℤ, pos, negsuc}
use skyr_block_explorer.Prelude.Bytes.{Bytes}
use skyr_block_explorer.Prelude.Result.{Result, ok, err, panic, run, ◌>>=◌}
use skyr_block_explorer.Chain.{ChainParser, Outpoint}
use skyr_block_explorer.Db.Keys.{pack_uint, unpack_uint}
use skyr_block_explorer.Db.Types.{TxAddresses, AddrBalance, BlockInfo}
use skyr_block_explorer.Db.BlockInfo.{unpack_block_info}
use skyr_block_explorer.Db.AddrBalance.{AddressBalanceDetail}
use skyr_block_explorer.Db.Connect.{Env, cf_height, get_addr_desc_balance, get_tx_addresses}

module _ (env : Env) where
  open env use {vlq, parser, get_cf}

  -- No hash is the empty string.
  unfoldable pub hash_of : Option BlockInfo → Bytes
  hash_of none = []
  hash_of (some info) = info.hash

  unfoldable pub get_block_hash : ℕ → Result Bytes
  unfolding hash_of
  get_block_hash height = do
    val ← get_cf cf_height (pack_uint height)
    info ← unpack_block_info vlq parser val
    ok (hash_of info)

  with_height : ℕ → Option BlockInfo → Option BlockInfo
  with_height height none = none
  with_height height (some info) = some (record info { height = height })

  unfoldable pub get_block_info : ℕ → Result (Option BlockInfo)
  unfolding with_height
  get_block_info height = do
    val ← get_cf cf_height (pack_uint height)
    info ← unpack_block_info vlq parser val
    ok (with_height height info)

  -- `last` is the entry of the height column with the greatest key, from the iterator. Without
  -- information about it the error of the reading is dropped.
  best_of : ℕ → Result (Option BlockInfo) → Result (ℕ × Bytes)
  best_of height (ok (some info)) = ok (height, info.hash)
  best_of height panic = panic
  best_of height _ = ok (0, [])

  unfoldable pub get_best_block : Option (Bytes × Bytes) → Result (ℕ × Bytes)
  unfolding best_of
  get_best_block none = ok (0, [])
  get_best_block (some (key, val)) = do
    best_height ← run (unpack_uint key)
    best_of best_height (unpack_block_info vlq parser val)

  unfoldable pub get_address_balance : Bytes → AddressBalanceDetail → Result (Option AddrBalance)
  get_address_balance address detail = do
    addr_desc ← parser.get_addr_desc_from_address address
    get_addr_desc_balance env addr_desc detail

  unfoldable pub get_tx_addresses_of_txid : Bytes → Result (Option TxAddresses)
  get_tx_addresses_of_txid txid = do btx_id ← parser.pack_txid txid; get_tx_addresses env btx_id

  -- A negative index is the complement of that of an input; nil is the empty descriptor.
  desc_at : ℤ → TxAddresses → Bytes
  desc_at (negsuc i) ta = elim (get_elem? ta.inputs i) [ none ↦ [] | some x ↦ x.addr_desc ]
  desc_at (pos i) ta = elim (get_elem? ta.outputs i) [ none ↦ [] | some o ↦ o.addr_desc ]

  desc_or_nil : ℤ → Result (Option TxAddresses) → Result Bytes
  desc_or_nil vout (ok (some ta)) = ok (desc_at vout ta)
  desc_or_nil vout panic = panic
  desc_or_nil vout _ = ok []

  unfoldable pub addr_desc_for_outpoint : Outpoint → Result Bytes
  unfolding desc_at desc_or_nil
  addr_desc_for_outpoint o = desc_or_nil o.vout (get_tx_addresses_of_txid o.txid)
