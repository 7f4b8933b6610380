-- ===== src/Db/Ethereum/Connect/Connected.antt =====
-- db/rocksdb.go and db/rocksdb_ethereumtype.go: the contracts behind the connecting of a block.
use mathlib.Core.Path.{subst}
use skyr_block_explorer.Prelude.{
  ℕ, ◌≡◌, refl, ◌∙◌, ap, arith, false, none, some, List, [], ◌∷◌, Option-cases, inl, inr,
}
use skyr_block_explorer.Prelude.Bytes.{Bytes}
use skyr_block_explorer.Prelude.GoMap.{GoMap, lookup, Distinct}
use skyr_block_explorer.Prelude.Each.{AllValues}
use skyr_block_explorer.Prelude.Result.{
  Result, ok, Ensures, Ensures-bind, Ensures-after, Ensures-refl,
}
use skyr_block_explorer.Chain.{Block}
use skyr_block_explorer.Db.Vlq.{VlqLaws}
use skyr_block_explorer.Db.Connect.{Column, ConnectBlockStats, cf_height, cf_address_balance}
use skyr_block_explorer.Db.Connect.Loaded.{OfOption}
use skyr_block_explorer.Db.Store.{
  Op, Written, op_insert, write_height_from_block, store_tx_addresses, ops_of,
}
use skyr_block_explorer.Db.Store.Batch.{same_column, after_op, after_ops, Writes}
use skyr_block_explorer.Db.Store.Balances.{over}
use skyr_block_explorer.Db.Store.Connected.{after_batch}
use skyr_block_explorer.Db.Store.Parts.{LeavesColumn, height_op-Leaves}
use skyr_block_explorer.Db.Ethereum.{
  AddrContracts, store_address_contracts, get_addr_desc_contracts,
}
use skyr_block_explorer.Db.Ethereum.RoundTrip.{FitsContracts}
use skyr_block_explorer.Db.Ethereum.Process.{EthMaps, EthBlockTx, process_addresses_ethereum_type}
use skyr_block_explorer.Db.Ethereum.Process.KeptKeys.{process_addresses_ethereum_type-KeysDistinct}
use skyr_block_explorer.Db.Ethereum.Connect.{
  EthEnv, empty_eth_maps, not_nil_contracts, cleanup_eth_block_txs,
  store_and_cleanup_block_txs_ethereum_type, connect_block_ethereum_type,
}
use skyr_block_explorer.Db.Ethereum.Connect.Stored.{kept_contracts, read_contracts}

lookup-not_nil :
    (m : GoMap AddrContracts) (k : Bytes)
    → lookup k (not_nil_contracts m)
      ≡ (elim (lookup k m) [ none ↦ none | some ac ↦ some (some ac) ])
unfolding lookup not_nil_contracts
lookup-not_nil [] k = refl
lookup-not_nil ((j, ac) ∷ m) k = ground (arith, lookup-not_nil m k)

not_nil-Distinct : (m : GoMap AddrContracts) → Distinct m → Distinct (not_nil_contracts m)
unfolding not_nil_contracts
not_nil-Distinct [] h = tt
not_nil-Distinct ((j, ac) ∷ m) h = (lookup-not_nil m j ∙ rw h.0 refl, not_nil-Distinct m h.1)

not_nil-AllValues :
    (m : GoMap AddrContracts)
    → AllValues FitsContracts m
    → AllValues (OfOption FitsContracts) (not_nil_contracts m)
unfolding not_nil_contracts
not_nil-AllValues [] h = tt
not_nil-AllValues ((j, ac) ∷ m) h = (h.0, not_nil-AllValues m h.1)

module _ (e : EthEnv) where
  open e use {env}

  block_txs-LeavesColumn :
      (block : Block) (ts : List EthBlockTx)
      → Ensures
          (λ (r : Op × List Op). LeavesColumn cf_address_balance r.0)
          (store_and_cleanup_block_txs_ethereum_type e block ts)
  unfolding store_and_cleanup_block_txs_ethereum_type
  block_txs-LeavesColumn block ts =
      Ensures-after (λ (r : Op × List Op). LeavesColumn cf_address_balance r.0)
        (cleanup_eth_block_txs e block) _ (λ at_once s r. unfold after_op in refl)

  -- What the batch does to the contracts: just the storing of those of the block.
  abbrev StoresContracts : Block → ConnectBlockStats → Written → Type 0
  StoresContracts block cbs w =
      (r : List EthBlockTx × EthMaps) × (process_addresses_ethereum_type env block
          (empty_eth_maps cbs)
        ≡ ok r)
      × ((s : Bytes) (q : Result Bytes)
          → after_ops cf_address_balance s w.batch q
            ≡ after_ops cf_address_balance s
                (store_address_contracts env.vlq (not_nil_contracts r.1.address_contracts)) q)

  connect_block-StoresContracts :
      (block : Block) (cbs : ConnectBlockStats)
      → Ensures (StoresContracts block cbs) (connect_block_ethereum_type e block cbs)
  unfolding connect_block_ethereum_type
  connect_block-StoresContracts block cbs =
      let P = StoresContracts block cbs in
      let processed = process_addresses_ethereum_type env block (empty_eth_maps cbs) in
      Ensures-bind
        (λ (r : Op × ℕ). (c : Column) → same_column cf_height c ≡ false → LeavesColumn c r.0) P
        (write_height_from_block env block op_insert) _ (height_op-Leaves env block)
        λ h hh.
          Ensures-bind (λ r. processed ≡ ok r) P processed _ (Ensures-refl processed)
            λ r er.
              Ensures-bind (λ (b : Op × List Op). LeavesColumn cf_address_balance b.0) P
                (store_and_cleanup_block_txs_ethereum_type e block r.0) _
                (block_txs-LeavesColumn block r.0)
                λ b hb. (
                  r,
                  er,
                  λ s q.
                      unfold store_tx_addresses ops_of in
                      after_batch env.vlq h.0 b.0 []
                        (store_address_contracts env.vlq (not_nil_contracts r.1.address_contracts))
                        block.height r.1.addresses s q (hh cf_address_balance refl) hb,
                )

  -- For a codec with its laws, a block of the Ethereum type processed to the maps m and connected
  -- to what is written, with contracts in m that fit: behind the writing of the batch, the
  -- contracts that are read at an address with an entry in m are that entry, or none if it has
  -- neither contracts nor other transactions, and at any other address they are what was read
  -- before.
  pub connect_block-get_addr_desc_contracts :
      (laws : VlqLaws env.vlq) (block : Block) (cbs : ConnectBlockStats) (ts : List EthBlockTx)
      (m : EthMaps) (w : Written) (after : Column → Bytes → Result Bytes) (s : Bytes)
      → process_addresses_ethereum_type env block (empty_eth_maps cbs) ≡ ok (ts, m)
      → connect_block_ethereum_type e block cbs ≡ ok w
      → AllValues FitsContracts m.address_contracts
      → Writes w.batch env.get_cf after
      → get_addr_desc_contracts (over env after) s ≡ (elim (lookup s m.address_contracts) [
        | none ↦ get_addr_desc_contracts env s
        | some ac ↦ ok (kept_contracts (some ac))
      ])
  connect_block-get_addr_desc_contracts laws block cbs ts m w after s ep ew fits wr =
      let (r, er, stores) =
        subst (Ensures (StoresContracts block cbs)) ew (connect_block-StoresContracts block cbs) in
      let same : r ≡ (ts, m) = cc (ep, er) in
      let distinct : Distinct m.address_contracts =
        subst (Ensures (λ (r : List EthBlockTx × EthMaps). Distinct r.1.address_contracts)) ep
          (process_addresses_ethereum_type-KeysDistinct env block (empty_eth_maps cbs) tt) in
      let stored : after cf_address_balance s
          ≡ after_ops cf_address_balance s
              (store_address_contracts env.vlq (not_nil_contracts m.address_contracts))
              (env.get_cf cf_address_balance s) =
        wr.get cf_address_balance s
        ∙ stores s (env.get_cf cf_address_balance s)
        ∙ ap
            (λ (x : List EthBlockTx × EthMaps).
              after_ops cf_address_balance s
                (store_address_contracts env.vlq (not_nil_contracts x.1.address_contracts))
                (env.get_cf cf_address_balance s))
            same in
      read_contracts env laws (not_nil_contracts m.address_contracts) after s
        (not_nil-Distinct m.address_contracts distinct) (not_nil-AllValues m.address_contracts fits)
        stored
      ∙ found m
    where
      found :
          (m : EthMaps)
          → (elim (lookup s (not_nil_contracts m.address_contracts)) [
            | none ↦ get_addr_desc_contracts env s
            | some o ↦ ok (kept_contracts o)
          ])
            ≡ (elim (lookup s m.address_contracts) [
              | none ↦ get_addr_desc_contracts env s
              | some ac ↦ ok (kept_contracts (some ac))
            ])
      found m = elim (Option-cases (lookup s m.address_contracts)) [
        | inl n ↦ rw (lookup-not_nil m.address_contracts s, n) refl
        | inr (ac, n) ↦ rw (lookup-not_nil m.address_contracts s, n) refl
      ]
