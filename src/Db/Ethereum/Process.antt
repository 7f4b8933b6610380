-- ===== src/Db/Ethereum/Process.antt =====
-- db/rocksdb_ethereumtype.go, processAddressesEthereumType: what a block does to the addresses and
-- their contracts.
pub mod KeptKeys
use skyr_block_explorer.Prelude.{
  ℕ, ◌+◌, Bool, true, not, Option, none, some, List, [], ◌∷◌, if◌then◌else◌,
}
use skyr_block_explorer.Prelude.Int.{ℤ, pos, complement, to_int32}
use skyr_block_explorer.Prelude.Bytes.{Bytes, bytes_eq}
use skyr_block_explorer.Prelude.GoMap.{GoMap, lookup, insert}
use skyr_block_explorer.Prelude.Result.{Result, ok, or_skip, ◌>>=◌}
use skyr_block_explorer.Chain.{Erc20Transfer, Tx, Block}
use skyr_block_explorer.Db.TxIndexes.{AddressesMap, add_to_addresses_map}
use skyr_block_explorer.Db.Connect.{Env, ConnectBlockStats}
use skyr_block_explorer.Db.Ethereum.{
  AddrContracts, no_contracts, count_address, count_total, get_addr_desc_contracts,
}

pub record EthMaps : Type 0 where
  pub addresses : AddressesMap
  pub address_contracts : GoMap AddrContracts
  pub cbs : ConnectBlockStats

pub record EthBlockTxContract : Type 0 where
  pub addr : Bytes
  pub contract : Bytes

-- A nil descriptor is the empty one.
pub record EthBlockTx : Type 0 where
  pub btx_id : Bytes
  pub from : Bytes
  pub to : Bytes
  pub contracts : List EthBlockTxContract

abbrev only {ℓ} : {A : Type ℓ} → List A → Option A
only [] = none
only (x ∷ []) = some x
only (x ∷ y ∷ xs) = none

-- The one address of the one output, and of the one input.
to_address : Tx → Option Bytes
to_address tx = elim (only tx.vout) [ none ↦ none | some o ↦ only o.addresses ]

from_address : Tx → Option Bytes
from_address tx = elim (only tx.vin) [ none ↦ none | some i ↦ only i.addresses ]

module _ (env : Env) where
  open env use {parser}

  abbrev pub or_no_contracts : Option AddrContracts → AddrContracts
  or_no_contracts none = no_contracts
  or_no_contracts (some ac) = ac

  unfoldable pub load_contracts : EthMaps → Bytes → Result (AddrContracts × ConnectBlockStats)
  load_contracts m s = elim (lookup s m.address_contracts) [
    | some ac ↦ ok (ac, record m.cbs { balances_hit = m.cbs.balances_hit + 1 })
    | none ↦ do
      found ← get_addr_desc_contracts env s
      ok (or_no_contracts found, record m.cbs { balances_miss = m.cbs.balances_miss + 1 })
  ]

  unfoldable pub add_to_addresses_and_contracts_ethereum_type :
      Bytes → Bytes → ℤ → Option Bytes → Bool → EthMaps → Result EthMaps
  add_to_addresses_and_contracts_ethereum_type addr_desc btx_id index contract add_tx_count m = do
    (ac, cbs) ← load_contracts m addr_desc
    let (ac, index) = count_address addr_desc index contract add_tx_count ac
    let (addresses, counted) = add_to_addresses_map m.addresses addr_desc btx_id index
    ok (record {
      addresses = addresses;
      address_contracts = insert addr_desc (count_total counted ac) m.address_contracts;
      cbs = cbs;
    })

  -- The three descriptors of a transfer; the first error ends the reading.
  transfer_descs : Erc20Transfer → Result (Bytes × Bytes × Bytes)
  transfer_descs t = do
    contract ← parser.get_addr_desc_from_address t.contract
    from ← parser.get_addr_desc_from_address t.from
    to ← parser.get_addr_desc_from_address t.to
    ok (contract, from, to)

  -- The loop over the transfers, from the index `i` on.
  process_transfers :
      Bytes → ℕ → List Erc20Transfer → EthMaps → Result (List EthBlockTxContract × EthMaps)
  process_transfers btx_id i [] m = ok ([], m)
  process_transfers btx_id i (t ∷ ts) m = do
    descs ← or_skip (transfer_descs t)
    elim descs [
      | none ↦ process_transfers btx_id (i + 1) ts m
      | some (contract, from, to) ↦ do
        let eq = bytes_eq from to
        m ←
            add_to_addresses_and_contracts_ethereum_type to btx_id (to_int32 (pos i))
              (some contract) true m
        m ←
            add_to_addresses_and_contracts_ethereum_type from btx_id (complement (to_int32 (pos i)))
              (some contract) (not eq) m
        (cs, m) ← process_transfers btx_id (i + 1) ts m
        let cs = if eq then cs else record { addr = to; contract = contract } ∷ cs
        ok (record { addr = from; contract = contract } ∷ cs, m)
    ]

  abbrev or_no_transfers : Option (List Erc20Transfer) → List Erc20Transfer
  or_no_transfers none = []
  or_no_transfers (some ts) = ts

  -- Behind both addresses.
  process_erc20 : Bytes → Bytes → Bytes → Tx → EthMaps → Result (EthBlockTx × EthMaps)
  process_erc20 btx_id from to tx m = do
    erc20 ← or_skip (parser.ethereum_type_get_erc20_from_tx tx)
    (contracts, m) ← process_transfers btx_id 0 (or_no_transfers erc20) m
    ok (record { btx_id = btx_id; from = from; to = to; contracts = contracts }, m)

  -- Behind the address of the output. An input that has no descriptor ends the transaction.
  process_from : Bytes → Bytes → Tx → EthMaps → Result (EthBlockTx × EthMaps)
  process_from btx_id to tx m = elim (from_address tx) [
    | none ↦ process_erc20 btx_id [] to tx m
    | some a ↦ do
      from ← or_skip (parser.get_addr_desc_from_address a)
      elim from [
        | none ↦ ok (record { btx_id = btx_id; from = []; to = to; contracts = [] }, m)
        | some from ↦ do
          m ←
              add_to_addresses_and_contracts_ethereum_type from btx_id (complement (pos 0)) none
                (not (bytes_eq from to)) m
          process_erc20 btx_id from to tx m
      ]
  ]

  process_tx : Bytes → Tx → EthMaps → Result (EthBlockTx × EthMaps)
  process_tx btx_id tx m = elim (to_address tx) [
    | none ↦ process_from btx_id [] tx m
    | some a ↦ do
      to ← or_skip (parser.get_addr_desc_from_address a)
      elim to [
        | none ↦ ok (record { btx_id = btx_id; from = []; to = []; contracts = [] }, m)
        | some to ↦ do
          m ← add_to_addresses_and_contracts_ethereum_type to btx_id (pos 0) none true m
          process_from btx_id to tx m
      ]
  ]

  unfoldable pub process_txs : List Tx → EthMaps → Result (List EthBlockTx × EthMaps)
  unfolding to_address from_address transfer_descs process_transfers process_erc20 process_from
      process_tx
  process_txs [] m = ok ([], m)
  process_txs (tx ∷ txs) m = do
    btx_id ← parser.pack_txid tx.txid
    (block_tx, m) ← process_tx btx_id tx m
    (block_txs, m) ← process_txs txs m
    ok (block_tx ∷ block_txs, m)

  unfoldable pub process_addresses_ethereum_type :
      Block → EthMaps → Result (List EthBlockTx × EthMaps)
  process_addresses_ethereum_type block m = process_txs block.txs m
