-- ===== src/Db/Connect.antt =====
-- db/rocksdb.go, processAddressesBitcoinType: what a block does to the addresses, the transactions
-- and the balances that are loaded.
pub mod Process
pub mod Loaded
pub mod Invariant
use skyr_block_explorer.Prelude.{
  ℕ, zero, suc, ◌+◌, ◌%◌, ◌^◌, ◌≡◌, Bool, true, false, ◌&&◌, ◌||◌, Option, none, some, List, [],
  ◌∷◌, ◌++◌, length, get_elem?, set, take, drop, replicate, ltb, leb, ◌==◌, if◌then◌else◌,
}
use skyr_block_explorer.Prelude.Int.{ℤ, pos, ◌+ℤ◌, ◌-ℤ◌, is_neg, complement, to_int32}
use skyr_block_explorer.Prelude.Bytes.{Bytes}
use skyr_block_explorer.Prelude.GoMap.{GoMap, lookup, insert}
use skyr_block_explorer.Prelude.Result.{Result, Error, ok, err, panic, txid_missing, run, ◌>>=◌}
use skyr_block_explorer.Chain.{ChainParser, Vin, Vout, Tx, Block}
use skyr_block_explorer.Db.Vlq.{Vlq}
use skyr_block_explorer.Db.Types.{TxInput, TxOutput, TxAddresses, Utxo, AddrBalance}
use skyr_block_explorer.Db.TxAddresses.{unpack_tx_addresses}
use skyr_block_explorer.Db.AddrBalance.{
  AddressBalanceDetail, utxo_indexed, empty_balance, unpack_addr_balance,
}
use skyr_block_explorer.Db.Utxos.{has_utxo, add_utxo, mark_utxo_as_spent}
use skyr_block_explorer.Db.TxIndexes.{AddressesMap, add_to_addresses_map}

-- The columns that are read here.
pub data Column : Type 0 where
  cf_height cf_addresses cf_block_txs cf_transactions cf_address_balance cf_tx_addresses : Column

-- What is not in the repository: the codec of numbers, the script builder of txscript for the owner
-- of a cold stake, and `GetCF` of the data base, which gives no bytes for a key that is not there.
pub record Env : Type 0 where
  pub vlq : Vlq
  pub parser : ChainParser
  pub pay_to_pubkey_hash : Bytes → Result Bytes
  pub get_cf : Column → Bytes → Result Bytes
  -- Whether the data of a key are not nil; those of a key that is there may be empty.
  pub has_cf : Column → Bytes → Bool

pub record ConnectBlockStats : Type 0 where
  pub tx_addresses_hit : ℕ
  pub tx_addresses_miss : ℕ
  pub balances_hit : ℕ
  pub balances_miss : ℕ

-- The maps of a block. `tx_addresses_map` holds pointers, into `heap`; a pointer to a balance is held
-- by one key only, so `balances` holds the balances themselves.
pub record Maps : Type 0 where
  pub addresses : AddressesMap
  pub heap : List TxAddresses
  pub tx_addresses_map : GoMap ℕ
  pub balances : GoMap AddrBalance
  pub cbs : ConnectBlockStats

abbrev pub max_addr_desc_len : ℕ
max_addr_desc_len = 1024

abbrev pub op_checkcoldstakeverify : ℕ
op_checkcoldstakeverify = 0xd1

is_pay_to_cold_stake : Bytes → Bool
is_pay_to_cold_stake script = elim (get_elem? script 4) [
  | none ↦ false
  | some op ↦ ltb 50 (length script) && op == op_checkcoldstakeverify
]

abbrev pub empty_output : TxOutput
empty_output = record { addr_desc = []; spent = false; value_sat = pos 0 }

abbrev pub empty_input : TxInput
empty_input = record { addr_desc = []; value_sat = pos 0 }

-- `balance.Txs++` on a uint32, if the transaction was not counted.
unfoldable pub count_tx : Bool → AddrBalance → AddrBalance
count_tx true balance = balance
count_tx false balance = record balance { txs = (balance.txs + 1) % 2 ^ 32 }

-- `if balance == nil { balance = &AddrBalance{} }`
unfoldable pub or_empty : Option AddrBalance → AddrBalance
or_empty none = empty_balance
or_empty (some b) = b

-- What an output does to the balance of a descriptor.
abbrev pub credited : Utxo → Bool → AddrBalance → AddrBalance
credited u counted balance =
    let more = record balance { balance_sat = balance.balance_sat +ℤ u.value_sat } in
    count_tx counted (add_utxo more u)

-- What an input that spends the output `vout` of `btx_id` does to the balance.
abbrev pub debited : Bytes → ℤ → ℤ → Bool → AddrBalance → AddrBalance
debited btx_id vout value_sat counted balance =
    let less = count_tx counted balance in
    let marked =
      mark_utxo_as_spent (record less { balance_sat = less.balance_sat -ℤ value_sat }) btx_id
        vout in
    let reset =
      if is_neg marked.balance_sat then record marked { balance_sat = pos 0 } else marked in
    record reset { sent_sat = reset.sent_sat +ℤ value_sat }

module _ (env : Env) where
  open env use {vlq, parser, pay_to_pubkey_hash, get_cf}

  -- 3 is the minimum length of a balance; `none` is no balance.
  unfoldable pub get_addr_desc_balance : Bytes → AddressBalanceDetail → Result (Option AddrBalance)
  get_addr_desc_balance addr_desc detail = do
    buf ← get_cf cf_address_balance addr_desc
    elim (ltb (length buf) 3) [
      | true ↦ ok none
      | false ↦ do
        ab ← run (unpack_addr_balance vlq parser.packed_txid_len buf detail)
        ok (some ab)
    ]

  unfoldable pub get_tx_addresses : Bytes → Result (Option TxAddresses)
  get_tx_addresses btx_id = do
    buf ← get_cf cf_tx_addresses btx_id
    elim (ltb (length buf) 3) [
      | true ↦ ok none
      | false ↦ do ta ← run (unpack_tx_addresses vlq buf); ok (some ta)
    ]

  -- The 20 bytes of the owner; the script has more than 50 bytes.
  get_owner_from_p2cs : Bytes → Result Bytes
  get_owner_from_p2cs script = pay_to_pubkey_hash (take 20 (drop 28 script))

  -- The descriptor, and the owner's if it is a cold stake.
  unfoldable pub with_owner : Bytes → List Bytes
  unfolding is_pay_to_cold_stake get_owner_from_p2cs
  with_owner addr_desc = elim (is_pay_to_cold_stake addr_desc) [
    | false ↦ addr_desc ∷ []
    | true ↦ elim (get_owner_from_p2cs addr_desc) [
      | ok owner_desc ↦ addr_desc ∷ owner_desc ∷ []
      | _ ↦ addr_desc ∷ []
    ]
  ]

  -- `balances[s]`, read from the data base and put into the map if it is not there.
  unfoldable pub load_balance : Maps → Bytes → Result (AddrBalance × Maps)
  load_balance m s = elim (lookup s m.balances) [
    | some balance ↦
        ok (balance, record m { cbs = record m.cbs { balances_hit = m.cbs.balances_hit + 1 } })
    | none ↦ do
      found ← get_addr_desc_balance s utxo_indexed
      let balance = or_empty found
      ok (
        balance,
        record m {
          balances = insert s balance m.balances;
          cbs = record m.cbs { balances_miss = m.cbs.balances_miss + 1 };
        },
      )
  ]

  -- What an output does at one descriptor.
  unfoldable pub credit : Utxo → Maps → Bytes → Result Maps
  credit u m s = elim (parser.is_addr_desc_indexable s) [
    | false ↦ ok m
    | true ↦ do
      (balance, m) ← load_balance m s
      elim (has_utxo balance u.btx_id u.vout) [
        | true ↦ ok m
        | false ↦
            let (addresses, counted) = add_to_addresses_map m.addresses s u.btx_id u.vout in
            ok (record m {
              addresses = addresses;
              balances = insert s (credited u counted balance) m.balances;
            })
      ]
  ]

  -- What an input does at one descriptor: the output `vout` of `btx_id` is spent as the input `i` of
  -- `spending_txid`.
  unfoldable pub debit : Bytes → ℕ → Bytes → ℤ → ℤ → Maps → Bytes → Result Maps
  debit spending_txid i btx_id vout value_sat m s = elim (parser.is_addr_desc_indexable s) [
    | false ↦ ok m
    | true ↦ do
      (balance, m) ← load_balance m s
      let (addresses, counted) =
          add_to_addresses_map m.addresses s spending_txid (complement (to_int32 (pos i)))
      ok (record m {
        addresses = addresses;
        balances = insert s (debited btx_id vout value_sat counted balance) m.balances;
      })
  ]

  unfoldable pub for_each : (Maps → Bytes → Result Maps) → Maps → List Bytes → Result Maps
  for_each f m [] = ok m
  for_each f m (s ∷ ss) = do m ← f m s; for_each f m ss
