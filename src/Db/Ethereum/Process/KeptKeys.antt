-- ===== src/Db/Ethereum/Process/KeptKeys.antt =====
-- db/rocksdb_ethereumtype.go, processAddressesEthereumType: the keys of the contracts are distinct.
use skyr_block_explorer.Prelude.{
  ℕ, ◌+◌, Bool, true, not, Option, none, some, List, [], ◌∷◌, Option-cases, inl, inr,
}
use skyr_block_explorer.Prelude.Int.{ℤ, pos, complement, to_int32}
use skyr_block_explorer.Prelude.Bytes.{Bytes, bytes_eq}
use skyr_block_explorer.Prelude.GoMap.{Distinct, Distinct-insert}
use skyr_block_explorer.Prelude.Result.{
  or_skip, Ensures, Ensures-bind, Ensures-after, Ensures-or_skip,
}
use skyr_block_explorer.Chain.{Tx, Block, Erc20Transfer}
use skyr_block_explorer.Db.Connect.{Env}
use skyr_block_explorer.Db.Ethereum.Process.{
  EthMaps, EthBlockTx, load_contracts, add_to_addresses_and_contracts_ethereum_type,
  process_transfers, process_erc20, process_from, process_tx, process_txs,
  process_addresses_ethereum_type, to_address, from_address, transfer_descs, or_no_transfers,
}

-- The keys of the contracts of a block are distinct.
abbrev pub KeysDistinct : EthMaps → Type 0
KeysDistinct m = Distinct m.address_contracts

abbrev Then : {A : Type 0} → A × EthMaps → Type 0
Then r = KeysDistinct r.1

module _ (env : Env) where
  add-Distinct :
      (a id : Bytes) (i : ℤ) (c : Option Bytes) (t : Bool) (m : EthMaps)
      → KeysDistinct m
      → Ensures KeysDistinct (add_to_addresses_and_contracts_ethereum_type env a id i c t m)
  unfolding add_to_addresses_and_contracts_ethereum_type
  add-Distinct a id i c t m h =
      Ensures-after KeysDistinct (load_contracts env m a) _
        λ r. Distinct-insert m.address_contracts a _ h

  transfers-Distinct :
      (id : Bytes) (i : ℕ) (ts : List Erc20Transfer) (m : EthMaps)
      → KeysDistinct m
      → Ensures Then (process_transfers env id i ts m)
  unfolding process_transfers
  transfers-Distinct id i [] m h = h
  transfers-Distinct id i (t ∷ ts) m h =
      Ensures-or_skip Then (transfer_descs env t) _ (transfers-Distinct id (i + 1) ts m h)
        λ (contract, from, to).
          Ensures-bind KeysDistinct Then
            (add_to_addresses_and_contracts_ethereum_type env to id (to_int32 (pos i))
              (some contract) true m)
            _ (add-Distinct to id (to_int32 (pos i)) (some contract) true m h)
            λ m1 h1.
              Ensures-bind KeysDistinct Then
                (add_to_addresses_and_contracts_ethereum_type env from id
                  (complement (to_int32 (pos i))) (some contract) (not (bytes_eq from to)) m1)
                _
                (add-Distinct from id (complement (to_int32 (pos i))) (some contract)
                  (not (bytes_eq from to)) m1 h1)
                λ m2 h2.
                  Ensures-bind Then Then (process_transfers env id (i + 1) ts m2) _
                    (transfers-Distinct id (i + 1) ts m2 h2) (λ r hr. hr)

  erc20-Distinct :
      (id from to : Bytes) (tx : Tx) (m : EthMaps)
      → KeysDistinct m
      → Ensures Then (process_erc20 env id from to tx m)
  unfolding process_erc20
  erc20-Distinct id from to tx m h =
      Ensures-after Then (or_skip (env.parser.ethereum_type_get_erc20_from_tx tx)) _ λ ts.
        Ensures-bind Then Then (process_transfers env id 0 (or_no_transfers env ts) m) _
          (transfers-Distinct id 0 (or_no_transfers env ts) m h) (λ r hr. hr)

  from-Distinct :
      (id to : Bytes) (tx : Tx) (m : EthMaps)
      → KeysDistinct m
      → Ensures Then (process_from env id to tx m)
  unfolding process_from
  from-Distinct id to tx m h = elim (Option-cases (from_address tx)) [
    | inl n ↦ rw (n, process_from) (erc20-Distinct id [] to tx m h)
    | inr (a, e) ↦
        rw (e, process_from)
          (Ensures-or_skip Then (env.parser.get_addr_desc_from_address a) _ h λ from.
            Ensures-bind KeysDistinct Then
              (add_to_addresses_and_contracts_ethereum_type env from id (complement (pos 0)) none
                (not (bytes_eq from to)) m)
              _ (add-Distinct from id (complement (pos 0)) none (not (bytes_eq from to)) m h)
              (λ m1 h1. erc20-Distinct id from to tx m1 h1))
  ]

  tx-Distinct :
      (id : Bytes) (tx : Tx) (m : EthMaps) → KeysDistinct m → Ensures Then (process_tx env id tx m)
  unfolding process_tx
  tx-Distinct id tx m h = elim (Option-cases (to_address tx)) [
    | inl n ↦ rw (n, process_tx) (from-Distinct id [] tx m h)
    | inr (a, e) ↦
        rw (e, process_tx)
          (Ensures-or_skip Then (env.parser.get_addr_desc_from_address a) _ h λ to.
            Ensures-bind KeysDistinct Then
              (add_to_addresses_and_contracts_ethereum_type env to id (pos 0) none true m) _
              (add-Distinct to id (pos 0) none true m h) (λ m1 h1. from-Distinct id to tx m1 h1))
  ]

  txs-Distinct :
      (txs : List Tx) (m : EthMaps) → KeysDistinct m → Ensures Then (process_txs env txs m)
  unfolding process_txs
  txs-Distinct [] m h = h
  txs-Distinct (tx ∷ txs) m h = Ensures-after Then (env.parser.pack_txid tx.txid) _ λ id.
      Ensures-bind Then Then (process_tx env id tx m) _ (tx-Distinct id tx m h) λ r hr.
        Ensures-bind Then Then (process_txs env txs r.1) _ (txs-Distinct txs r.1 hr) (λ q hq. hq)

  -- The contracts of a block.
  pub process_addresses_ethereum_type-KeysDistinct :
      (block : Block) (m : EthMaps)
      → KeysDistinct m
      → Ensures
          (λ (r : List EthBlockTx × EthMaps). KeysDistinct r.1)
          (process_addresses_ethereum_type env block m)
  unfolding process_addresses_ethereum_type
  process_addresses_ethereum_type-KeysDistinct block m h = txs-Distinct block.txs m h
