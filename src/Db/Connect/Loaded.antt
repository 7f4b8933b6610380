-- ===== src/Db/Connect/Loaded.antt =====
-- db/rocksdb.go, GetAddrDescBalance and getTxAddresses: on what they give.
use skyr_block_explorer.Prelude.{Option, none, some, length, ltb, Bool-cases, inl, inr}
use skyr_block_explorer.Prelude.Bytes.{Bytes}
use skyr_block_explorer.Prelude.Result.{run, Ensures, Ensures-bind, Ensures-after, Ensures-run}
use skyr_block_explorer.Db.AddrBalance.{utxo_indexed, unpack_addr_balance}
use skyr_block_explorer.Db.AddrBalance.Order.{IsInOrder, unpack_addr_balance-IsInOrder}
use skyr_block_explorer.Db.TxAddresses.{unpack_tx_addresses}
use skyr_block_explorer.Db.TxAddresses.Amounts.{HasAmounts, unpack_tx_addresses-HasAmounts}
use skyr_block_explorer.Db.Connect.{
  Env, cf_address_balance, cf_tx_addresses, get_addr_desc_balance, get_tx_addresses,
}

-- What the data base gives for an update.
abbrev pub OfOption : {A : Type 0} → (A → Type 0) → Option A → Type 0
OfOption P none = Unit
OfOption P (some a) = P a

module _ (env : Env) where
  pub get_addr_desc_balance-IsInOrder :
      (s : Bytes) → Ensures (OfOption IsInOrder) (get_addr_desc_balance env s utxo_indexed)
  unfolding get_addr_desc_balance
  get_addr_desc_balance-IsInOrder s =
      Ensures-after (OfOption IsInOrder) (env.get_cf cf_address_balance s) _ λ buf.
        elim (Bool-cases (ltb (length buf) 3)) [
          | inl e ↦ rw e tt
          | inr e ↦
              let o = unpack_addr_balance env.vlq env.parser.packed_txid_len buf utxo_indexed in
              rw e (
                Ensures-bind IsInOrder (OfOption IsInOrder) (run o) _
                  (Ensures-run IsInOrder o
                    (unpack_addr_balance-IsInOrder env.vlq env.parser.packed_txid_len buf))
                  (λ a k. k))
        ]

  pub get_tx_addresses-HasAmounts :
      (id : Bytes) → Ensures (OfOption HasAmounts) (get_tx_addresses env id)
  unfolding get_tx_addresses
  get_tx_addresses-HasAmounts id =
      Ensures-after (OfOption HasAmounts) (env.get_cf cf_tx_addresses id) _ λ buf.
        elim (Bool-cases (ltb (length buf) 3)) [
          | inl e ↦ rw e tt
          | inr e ↦
              let o = unpack_tx_addresses env.vlq buf in
              rw e (
                Ensures-bind HasAmounts (OfOption HasAmounts) (run o) _
                  (Ensures-run HasAmounts o (unpack_tx_addresses-HasAmounts env.vlq buf))
                  (λ a k. k))
        ]
