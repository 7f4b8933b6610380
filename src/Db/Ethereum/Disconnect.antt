-- ===== src/Db/Ethereum/Disconnect.antt =====
-- db/rocksdb_ethereumtype.go, disconnectBlockTxsEthereumType and DisconnectBlockRangeEthereumType: how
-- blocks are taken back.
pub mod Undone
pub mod Missing
use mathlib.Core.List.{reverse}
use skyr_block_explorer.Prelude.{
  ℕ, zero, suc, ◌+◌, ◌-◌, ◌%◌, ◌^◌, Bool, true, false, not, Option, none, some, List, [], ◌∷◌, ◌++◌,
  length, get_elem?, set, take, drop, ltb, ◌==◌, if◌then◌else◌,
}
use skyr_block_explorer.Prelude.Bytes.{Bytes, bytes_eq}
use skyr_block_explorer.Prelude.GoMap.{GoMap, lookup, insert}
use skyr_block_explorer.Prelude.Result.{Result, ok, err, panic, cannot_disconnect, ◌>>=◌}
use skyr_block_explorer.Db.Keys.{pack_uint, pack_address_key}
use skyr_block_explorer.Db.Connect.{
  Column, Env, cf_height, cf_addresses, cf_block_txs, cf_transactions,
}
use skyr_block_explorer.Db.Store.{Op, delete_cf}
use skyr_block_explorer.Db.Disconnect.{is_in}
use skyr_block_explorer.Db.Ethereum.{
  AddrContract, AddrContracts, store_address_contracts, get_addr_desc_contracts,
  find_contract_in_address_contracts,
}
use skyr_block_explorer.Db.Ethereum.Process.{EthBlockTx, EthBlockTxContract}
use skyr_block_explorer.Db.Ethereum.BlockTxs.{unpack_eth_block_txs}
use skyr_block_explorer.Db.Ethereum.Connect.{EthEnv}

-- The transactions of each address of the block, sets in the code.
abbrev pub Marked : Type 0
Marked = GoMap (List Bytes)

-- Whether the transaction was encountered at the address before.
unfoldable pub mark_tx : Bytes → Bytes → Marked → Marked × Bool
mark_tx txid s addresses = elim (lookup s addresses) [
  | none ↦ (insert s (txid ∷ []) addresses, false)
  | some mtx ↦
      if is_in txid mtx then (addresses, true) else (insert s (mtx ++ txid ∷ []) addresses, false)
]

-- `Txs--`, and a contract without transactions is dropped.
unfoldable pub uncount_at : ℕ → List AddrContract → List AddrContract
uncount_at i cs = elim (get_elem? cs i) [
  | none ↦ cs
  | some c ↦
      if ltb 0 c.txs
      then (if c.txs - 1 == 0
          then take i cs ++ drop (suc i) cs
          else set cs i (record c { txs = c.txs - 1 }))
      else cs
]

unfoldable pub uncount_contract : Bytes → List AddrContract → List AddrContract
uncount_contract contract cs = elim (find_contract_in_address_contracts contract cs) [
  | none ↦ cs
  | some i ↦ uncount_at i cs
]

unfoldable pub uncount_total : Bool → AddrContracts → AddrContracts
uncount_total ftx c =
    if ftx then c else record c { total_txs = (c.total_txs + (2 ^ 64 - 1)) % 2 ^ 64 }

unfoldable pub uncount_address : Option Bytes → AddrContracts → AddrContracts
uncount_address none c =
    if ltb 0 c.non_contract_txs then record c { non_contract_txs = c.non_contract_txs - 1 } else c
uncount_address (some contract) c = record c { contracts = uncount_contract contract c.contracts }

-- A nil descriptor is the empty one.
abbrev pub as_contract : Bytes → Option Bytes
as_contract [] = none
as_contract (b ∷ bs) = some (b ∷ bs)

-- The addresses of the block and the contracts of all blocks; `none` is a nil pointer.
abbrev pub EthUndo : Type 0
EthUndo = Marked × GoMap (Option AddrContracts)

-- The addresses that were marked, one deletion for each.
unfoldable pub delete_marked : ℕ → Marked → List Op
delete_marked height [] = []
delete_marked height ((a, _) ∷ m) =
    delete_cf cf_addresses (pack_address_key a height) ∷ delete_marked height m

module _ (e : EthEnv) where
  open e use {env, get_data}

  contracts_at : Bytes → GoMap (Option AddrContracts) → Result (Option AddrContracts)
  contracts_at s contracts = elim (lookup s contracts) [
    | some c ↦ ok c
    | none ↦ get_addr_desc_contracts env s
  ]

  unfoldable pub disconnect_address : Bytes → Bytes → Option Bytes → EthUndo → Result EthUndo
  unfolding contracts_at
  disconnect_address btx_id addr_desc contract (addresses, contracts) =
      elim (length addr_desc == 0) [
        | true ↦ ok (addresses, contracts)
        | false ↦ do
          let (addresses, ftx) = mark_tx btx_id addr_desc addresses
          c ← contracts_at addr_desc contracts
          elim c [
            | none ↦ ok (addresses, insert addr_desc none contracts)
            | some c ↦ ok (
              addresses,
              insert addr_desc (some (uncount_address contract (uncount_total ftx c))) contracts,
            )
          ]
      ]

  disconnect_contracts : Bytes → List EthBlockTxContract → EthUndo → Result EthUndo
  disconnect_contracts btx_id [] m = ok m
  disconnect_contracts btx_id (c ∷ cs) m = do
    m ← disconnect_address btx_id c.addr (as_contract c.contract) m
    disconnect_contracts btx_id cs m

  -- If the addresses are the same, the transaction was counted once.
  disconnect_tx : EthBlockTx → EthUndo → Result EthUndo
  disconnect_tx t m = do
    m ← disconnect_address t.btx_id t.from none m
    m ← elim (bytes_eq t.from t.to) [
      | true ↦ ok m
      | false ↦ disconnect_address t.btx_id t.to none m
    ]
    disconnect_contracts t.btx_id t.contracts m

  disconnect_txs : List EthBlockTx → EthUndo → Result (List Op × EthUndo)
  disconnect_txs [] m = ok ([], m)
  disconnect_txs (t ∷ ts) m = do
    m ← disconnect_tx t m
    (ops, m) ← disconnect_txs ts m
    ok (delete_cf cf_transactions t.btx_id ∷ ops, m)

  unfoldable pub disconnect_block_txs_ethereum_type :
      ℕ
      → List EthBlockTx
      → GoMap (Option AddrContracts)
      → Result (List Op × GoMap (Option AddrContracts))
  unfolding disconnect_contracts disconnect_tx disconnect_txs
  disconnect_block_txs_ethereum_type height block_txs contracts = do
    (ops, (addresses, contracts)) ← disconnect_txs block_txs ([], contracts)
    ok (ops ++ delete_marked height addresses, contracts)

  unfoldable pub get_block_txs_ethereum_type : ℕ → Result (Option (List EthBlockTx))
  get_block_txs_ethereum_type height = do
    val ← get_data cf_block_txs (pack_uint height)
    unpack_eth_block_txs env.vlq env.parser.packed_txid_len val

  -- The first loop, from the height `h` on: the blocks, or the error of a block without data.
  unfoldable pub load_eth_blocks : ℕ → ℕ → Result (List (ℕ × List EthBlockTx))
  load_eth_blocks zero h = ok []
  load_eth_blocks (suc n) h = do
    block_txs ← get_block_txs_ethereum_type h
    elim block_txs [
      | none ↦ err cannot_disconnect
      | some bt ↦ (do blocks ← load_eth_blocks n (h + 1); ok ((h, bt) ∷ blocks))
    ]

  -- The second loop, over the blocks from the highest on.
  undo_eth_blocks :
      List (ℕ × List EthBlockTx)
      → GoMap (Option AddrContracts)
      → Result (List Op × GoMap (Option AddrContracts))
  undo_eth_blocks [] contracts = ok ([], contracts)
  undo_eth_blocks ((h, bt) ∷ blocks) contracts = do
    (ops, contracts) ← disconnect_block_txs_ethereum_type h bt contracts
    (more, contracts) ← undo_eth_blocks blocks contracts
    ok (
      ops ++ delete_cf cf_block_txs (pack_uint h) ∷ delete_cf cf_height (pack_uint h) ∷ more,
      contracts,
    )

  -- `height >= lower` holds of every uint32 if `lower` is zero, and then the loop goes out of the range.
  ends_at : ℕ → List Op → Result (List Op)
  ends_at zero ops = panic
  ends_at (suc _) ops = ok ops

  -- The batch that is written, for `lower <= higher < 2 ^ 32 - 1`.
  unfoldable pub disconnect_block_range_ethereum_type : ℕ → ℕ → Result (List Op)
  unfolding undo_eth_blocks ends_at
  disconnect_block_range_ethereum_type lower higher = do
    blocks ← load_eth_blocks (higher + 1 - lower) lower
    (ops, contracts) ← undo_eth_blocks (reverse blocks) []
    ends_at lower (ops ++ store_address_contracts env.vlq contracts)
