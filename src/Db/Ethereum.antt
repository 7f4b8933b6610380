-- ===== src/Db/Ethereum.antt =====
-- db/rocksdb_ethereumtype.go: the contracts of an address, and what a block of a chain of the Ethereum
-- type does to them.
pub mod Process
pub mod BlockTxs
pub mod Connect
pub mod Disconnect
pub mod RoundTrip
use skyr_block_explorer.Prelude.{
  ℕ, zero, suc, ◌+◌, ◌%◌, ◌^◌, Bool, true, false, not, ◌&&◌, Option, none, some, List, [], ◌∷◌,
  ◌++◌, length, get_elem?, set, ltb, ◌==◌, if◌then◌else◌,
}
use skyr_block_explorer.Prelude.Int.{ℤ, pos, is_neg, complement, to_int32}
use skyr_block_explorer.Prelude.Bytes.{Bytes, bytes_eq, slice_from}
use skyr_block_explorer.Prelude.GoMap.{GoMap, lookup, insert}
use skyr_block_explorer.Prelude.Result.{
  Result, ok, err, panic, invalid_address_contracts, or_skip, run, ◌>>=◌,
}
use skyr_block_explorer.Chain.{ChainParser, Erc20Transfer, Vin, Vout, Tx, Block}
use skyr_block_explorer.Db.Vlq.{Vlq, pack_varuint, unpack_varuint}
use skyr_block_explorer.Db.Reader.{read_bytes, read_at}
use skyr_block_explorer.Db.TxIndexes.{AddressesMap, add_to_addresses_map}
use skyr_block_explorer.Db.Connect.{Column, Env, ConnectBlockStats, cf_address_balance}
use skyr_block_explorer.Db.Store.{Op, ops_of}

-- `eth.EthereumTypeAddressDescriptorLen`
abbrev pub ethereum_type_address_descriptor_len : ℕ
ethereum_type_address_descriptor_len = 20

-- `cfAddressContracts` is another name of `cfAddressBalance`.
abbrev pub cf_address_contracts : Column
cf_address_contracts = cf_address_balance

pub record AddrContract : Type 0 where
  pub contract : Bytes
  pub txs : ℕ

pub record AddrContracts : Type 0 where
  pub total_txs : ℕ
  pub non_contract_txs : ℕ
  pub contracts : List AddrContract

abbrev pub no_contracts : AddrContracts
no_contracts = record { total_txs = 0; non_contract_txs = 0; contracts = [] }

module _ (v : Vlq) where
  unfoldable pub pack_contracts : List AddrContract → Bytes
  pack_contracts [] = []
  pack_contracts (ac ∷ acs) = ac.contract ++ (pack_varuint v ac.txs ++ pack_contracts acs)

  unfoldable pub pack_addr_contracts : AddrContracts → Bytes
  pack_addr_contracts acs =
      pack_varuint v acs.total_txs
      ++ (pack_varuint v acs.non_contract_txs ++ pack_contracts acs.contracts)

  -- An address without contracts and other transactions is removed; `none` is a nil pointer.
  unfoldable pub contracts_value : Option AddrContracts → Option Bytes
  contracts_value none = none
  contracts_value (some acs) =
      if acs.non_contract_txs == 0 && length acs.contracts == 0
      then none
      else some (pack_addr_contracts acs)

  unfoldable pub store_address_contracts : GoMap (Option AddrContracts) → List Op
  store_address_contracts acm = ops_of cf_address_contracts contracts_value acm

  -- `for len(buf) > 0`; the fuel is more than the bytes that are left.
  unpack_contracts : ℕ → Bytes → Result (List AddrContract)
  unpack_contracts zero buf = panic
  unpack_contracts (suc fuel) buf = elim (ltb 0 (length buf)) [
    | false ↦ ok []
    | true ↦ elim (ltb (length buf) ethereum_type_address_descriptor_len) [
      | true ↦ err invalid_address_contracts
      | false ↦ do
        (contract, l) ← run (read_bytes ethereum_type_address_descriptor_len buf)
        (txs, l) ← run (read_at (unpack_varuint v) buf l)
        buf ← run (slice_from buf l)
        c ← unpack_contracts fuel buf
        ok (record { contract = contract; txs = txs } ∷ c)
    ]
  ]

  unfoldable pub unpack_addr_contracts : Bytes → Result (Option AddrContracts)
  unfolding unpack_contracts
  unpack_addr_contracts buf = elim (length buf == 0) [
    | true ↦ ok none
    | false ↦ do
      (tt, l) ← run (unpack_varuint v buf)
      buf ← run (slice_from buf l)
      (nct, l) ← run (unpack_varuint v buf)
      buf ← run (slice_from buf l)
      c ← unpack_contracts (suc (length buf)) buf
      ok (some (record { total_txs = tt; non_contract_txs = nct; contracts = c }))
  ]

-- The index of the contract, where it is found.
unfoldable pub find_contract_in_address_contracts : Bytes → List AddrContract → Option ℕ
find_contract_in_address_contracts contract [] = none
find_contract_in_address_contracts contract (c ∷ cs) =
    if bytes_eq contract c.contract
    then some 0
    else (elim (find_contract_in_address_contracts contract cs) [
      | none ↦ none
      | some i ↦ some (suc i)
    ])

unfoldable pub is_zero_address : Bytes → Bool
is_zero_address [] = true
is_zero_address (b ∷ bs) = b == 0 && is_zero_address bs

-- A counter is a uint, of 64 bits.
abbrev pub increment : ℕ → ℕ
increment n = (n + 1) % 2 ^ 64

unfoldable pub count_at : Bool → ℕ → List AddrContract → List AddrContract
count_at add_tx_count i cs =
    if add_tx_count
    then (elim (get_elem? cs i) [
      | none ↦ cs
      | some c ↦ set cs i (record c { txs = increment c.txs })
    ])
    else cs

-- The contracts with the contract among them and counted, and its index.
unfoldable pub count_contract : Bytes → Bool → List AddrContract → List AddrContract × ℕ
count_contract contract add_tx_count cs = elim (find_contract_in_address_contracts contract cs) [
  | some i ↦ (count_at add_tx_count i cs, i)
  | none ↦ (
    count_at add_tx_count (length cs) (cs ++ record { contract = contract; txs = 0 } ∷ []),
    length cs,
  )
]

-- Index 0 is for transfers of the coin, the indexes of contracts begin with 1; a `from` is negative.
unfoldable pub contract_index : ℤ → ℕ → ℤ
contract_index index i =
    if is_neg index then complement (to_int32 (pos (i + 1))) else to_int32 (pos (i + 1))

-- What the counters of an address and the index become; `contract` is nil for a transfer of the coin,
-- and the zero address keeps no contracts.
unfoldable pub count_address : Bytes → ℤ → Option Bytes → Bool → AddrContracts → AddrContracts × ℤ
count_address addr_desc index none add_tx_count ac = (
  if add_tx_count then record ac { non_contract_txs = increment ac.non_contract_txs } else ac,
  index,
)
count_address addr_desc index (some contract) add_tx_count ac = elim (is_zero_address addr_desc) [
  | true ↦ (ac, index)
  | false ↦
      let (cs, i) = count_contract contract add_tx_count ac.contracts in
      (record ac { contracts = cs }, contract_index index i)
]

-- `if !counted { ac.TotalTxs++ }`
unfoldable pub count_total : Bool → AddrContracts → AddrContracts
count_total counted ac = if counted then ac else record ac { total_txs = increment ac.total_txs }

module _ (env : Env) where
  open env use {vlq, get_cf}

  unfoldable pub get_addr_desc_contracts : Bytes → Result (Option AddrContracts)
  get_addr_desc_contracts addr_desc = do
    buf ← get_cf cf_address_contracts addr_desc
    unpack_addr_contracts vlq buf
