-- ===== src/Db/Bulk/Pending.antt =====
-- db/bulkconnect.go: which columns the parts of a batch touch, and what they leave together.
use skyr_block_explorer.Prelude.{ℕ, ◌≡◌, refl, ap, ◌∙◌, false, some, List, [], ◌∷◌, ◌++◌}
use skyr_block_explorer.Prelude.Bytes.{Bytes}
use skyr_block_explorer.Prelude.GoMap.{GoMap}
use skyr_block_explorer.Prelude.Result.{Result, Ensures, Ensures-bind, Ensures-after}
use skyr_block_explorer.Db.Types.{TxAddresses, AddrBalance, BlockInfo}
use skyr_block_explorer.Db.TxIndexes.{AddressesMap}
use skyr_block_explorer.Db.BlockInfo.{pack_block_info}
use skyr_block_explorer.Db.Connect.{
  Column, cf_height, cf_addresses, cf_address_balance, cf_tx_addresses,
}
use skyr_block_explorer.Db.Store.{
  Op, op_insert, not_nil, store_balances, store_addresses, write_height, balance_value,
  put_or_delete, ops_of,
}
use skyr_block_explorer.Db.Store.Batch.{
  same_column, after_op, after_ops, after_ops-append, after_ops-others,
}
use skyr_block_explorer.Db.Ethereum.{AddrContracts, contracts_value, store_address_contracts}
use skyr_block_explorer.Db.Ethereum.Connect.{EthEnv, not_nil_contracts}
use skyr_block_explorer.Db.Bulk.{
  BulkAddresses, tx_addresses_ops, tx_addresses_at, balances_ops, contracts_ops,
  store_bulk_addresses,
}

-- Operations that do not touch a column.
abbrev pub Leaves : Column → List Op → Type 0
Leaves c ops = (k : Bytes) (r : Result Bytes) → after_ops c k ops r ≡ r

pub Leaves-append : (c : Column) (a b : List Op) → Leaves c a → Leaves c b → Leaves c (a ++ b)
Leaves-append c a b ha hb k r = after_ops-append c k a b r ∙ rw (ha k r) (hb k r)

module _ (e : EthEnv) where
  open e use {env}
  open env use {vlq, parser}

  pub tx_addresses_ops-Leaves :
      (c : Column) (heap : List TxAddresses) (m : GoMap ℕ)
      → same_column cf_tx_addresses c ≡ false
      → Leaves c (tx_addresses_ops e heap m)
  unfolding tx_addresses_ops
  tx_addresses_ops-Leaves c heap m n k r =
      after_ops-others (tx_addresses_at e heap) c cf_tx_addresses k m r n

  pub balances_ops-Leaves :
      (c : Column) (m : GoMap AddrBalance)
      → same_column cf_address_balance c ≡ false
      → Leaves c (balances_ops e m)
  unfolding balances_ops store_balances
  balances_ops-Leaves c m n k r =
      after_ops-others (balance_value vlq) c cf_address_balance k (not_nil m) r n

  pub store_addresses-Leaves :
      (c : Column) (height : ℕ) (m : AddressesMap)
      → same_column cf_addresses c ≡ false
      → Leaves c (store_addresses vlq height m)
  unfolding store_addresses after_ops after_op
  store_addresses-Leaves c height [] n k r = refl
  store_addresses-Leaves c height ((j, txi) ∷ m) n k r =
      rw (after_ops, n) (store_addresses-Leaves c height m n k r)

  pub write_height-Leaves :
      (c : Column) (height : ℕ) (bi : BlockInfo)
      → same_column cf_height c ≡ false
      → Ensures (λ r. Leaves c (r.0 ∷ [])) (write_height env height bi op_insert)
  unfolding write_height after_ops after_op
  write_height-Leaves c height bi n =
      Ensures-after (λ (r : Op × ℕ). Leaves c (r.0 ∷ [])) (pack_block_info vlq parser bi) _
        (λ val k r. rw n refl)

  pub store_bulk_addresses-Leaves :
      (c : Column) (bas : List BulkAddresses) (best : ℕ)
      → same_column cf_addresses c ≡ false
      → same_column cf_height c ≡ false
      → Ensures (λ r. Leaves c r.0) (store_bulk_addresses e bas best)
  unfolding store_bulk_addresses
  store_bulk_addresses-Leaves c [] best na nh = λ k r. unfold after_ops in refl
  store_bulk_addresses-Leaves c (ba ∷ bas) best na nh =
      let P = λ (r : List Op × ℕ). Leaves c r.0 in
      Ensures-bind (λ (r : Op × ℕ). Leaves c (r.0 ∷ [])) P
        (write_height env ba.bi.height ba.bi op_insert) _
        (write_height-Leaves c ba.bi.height ba.bi nh)
        λ h hh.
          Ensures-bind P P (store_bulk_addresses e bas h.1) _
            (store_bulk_addresses-Leaves c bas h.1 na nh)
            λ o ho.
              Leaves-append c (store_addresses vlq ba.bi.height ba.addresses) (h.0 ∷ o.0)
                (store_addresses-Leaves c ba.bi.height ba.addresses na)
                (Leaves-append c (h.0 ∷ []) o.0 hh ho)

  pub contracts_ops-Leaves :
      (c : Column) (m : GoMap AddrContracts)
      → same_column cf_address_balance c ≡ false
      → Leaves c (contracts_ops e m)
  unfolding contracts_ops store_address_contracts
  contracts_ops-Leaves c m n k r =
      after_ops-others (contracts_value vlq) c cf_address_balance k (not_nil_contracts m) r n

  pub balances_ops-append :
      (m n : GoMap AddrBalance) → balances_ops e (m ++ n) ≡ balances_ops e m ++ balances_ops e n
  unfolding balances_ops store_balances not_nil ops_of
  balances_ops-append [] n = refl
  balances_ops-append ((j, x) ∷ m) n =
      ap (λ l. put_or_delete cf_address_balance j (balance_value vlq (some x)) ∷ l)
        (balances_ops-append m n)

  pub contracts_ops-append :
      (m n : GoMap AddrContracts)
      → contracts_ops e (m ++ n) ≡ contracts_ops e m ++ contracts_ops e n
  unfolding contracts_ops store_address_contracts not_nil_contracts ops_of
  contracts_ops-append [] n = refl
  contracts_ops-append ((j, x) ∷ m) n =
      ap (λ l. put_or_delete cf_address_balance j (contracts_value vlq (some x)) ∷ l)
        (contracts_ops-append m n)
