-- ===== src/Db/Ethereum/Connect/Stored.antt =====
-- db/rocksdb_ethereumtype.go, storeAddressContracts and GetAddrDescContracts: on what is read behind a
-- write.
use skyr_block_explorer.Prelude.{
  ◌≡◌, refl, ◌∙◌, ◌&&◌, Option, none, some, length, ◌==◌, if◌then◌else◌, Bool-cases, Option-cases,
  inl, inr,
}
use skyr_block_explorer.Prelude.Bytes.{Bytes}
use skyr_block_explorer.Prelude.GoMap.{GoMap, lookup, Distinct}
use skyr_block_explorer.Prelude.Each.{AllValues, AllValues-lookup}
use skyr_block_explorer.Prelude.Result.{Result, ok}
use skyr_block_explorer.Db.Vlq.{VlqLaws}
use skyr_block_explorer.Db.Connect.Loaded.{OfOption}
use skyr_block_explorer.Db.Connect.{Column, Env}
use skyr_block_explorer.Db.Store.Batch.{after_ops, Writes, left_by, after_ops-ops_of}
use skyr_block_explorer.Db.Store.Balances.{over}
use skyr_block_explorer.Db.Ethereum.{
  AddrContracts, cf_address_contracts, unpack_addr_contracts, contracts_value,
  store_address_contracts, get_addr_desc_contracts,
}
use skyr_block_explorer.Db.Ethereum.RoundTrip.{
  FitsContracts, unpack_addr_contracts-pack_addr_contracts,
}

-- What is read of the contracts that were stored.
unfoldable pub kept_contracts : Option AddrContracts → Option AddrContracts
kept_contracts none = none
kept_contracts (some acs) =
    if acs.non_contract_txs == 0 && length acs.contracts == 0 then none else some acs

module _ (env : Env) (laws : VlqLaws env.vlq) where
  open env use {vlq, get_cf}

  -- What is read where the bytes are those of an entry.
  read_left :
      (after : Column → Bytes → Result Bytes) (s : Bytes) (o : Option AddrContracts)
      → OfOption FitsContracts o
      → after cf_address_contracts s ≡ left_by (contracts_value vlq o)
      → get_addr_desc_contracts (over env after) s ≡ ok (kept_contracts o)
  unfolding contracts_value kept_contracts get_addr_desc_contracts
  read_left after s none h e = rw e (unfold unpack_addr_contracts in refl)
  read_left after s (some acs) h e =
      elim (Bool-cases (acs.non_contract_txs == 0 && length acs.contracts == 0)) [
        | inl z ↦ rw (e, z) (unfold unpack_addr_contracts in refl)
        | inr z ↦ rw (e, z) (unpack_addr_contracts-pack_addr_contracts laws acs h)
      ]

  -- The same for one key, whatever else is written.
  pub read_contracts :
      (acm : GoMap (Option AddrContracts)) (after : Column → Bytes → Result Bytes) (s : Bytes)
      → Distinct acm
      → AllValues (OfOption FitsContracts) acm
      → after cf_address_contracts s
        ≡ after_ops cf_address_contracts s
            (store_address_contracts vlq acm)
            (get_cf cf_address_contracts s)
      → get_addr_desc_contracts (over env after) s ≡ (elim (lookup s acm) [
        | none ↦ get_addr_desc_contracts env s
        | some o ↦ ok (kept_contracts o)
      ])
  read_contracts acm after s d fits w =
      let left : after cf_address_contracts s ≡ (elim (lookup s acm) [
        | none ↦ get_cf cf_address_contracts s
        | some o ↦ left_by (contracts_value vlq o)
      ]) =
        w
        ∙ (unfold store_address_contracts in
            after_ops-ops_of (contracts_value vlq) cf_address_contracts s acm
              (get_cf cf_address_contracts s) d) in
      elim (Option-cases (lookup s acm)) [
        | inl n ↦
            let same : after cf_address_contracts s ≡ get_cf cf_address_contracts s =
              left ∙ rw n refl in
            rw n (unfold get_addr_desc_contracts in rw same refl)
        | inr (o, e) ↦ rw e (
            read_left after s o (AllValues-lookup (OfOption FitsContracts) acm s fits e)
              (left ∙ rw e refl))
      ]

  -- For a codec with its laws, if the keys of a map of contracts are distinct and its values fit,
  -- then behind the writing of the operations of the map the contracts that are read at a key of
  -- the map are none if the map has nil there or neither contracts nor other transactions, and
  -- otherwise the ones in the map; at any other key they are what was read before.
  pub get_addr_desc_contracts-store_address_contracts :
      (acm : GoMap (Option AddrContracts)) (after : Column → Bytes → Result Bytes) (s : Bytes)
      → Distinct acm
      → AllValues (OfOption FitsContracts) acm
      → Writes (store_address_contracts vlq acm) get_cf after
      → get_addr_desc_contracts (over env after) s ≡ (elim (lookup s acm) [
        | none ↦ get_addr_desc_contracts env s
        | some o ↦ ok (kept_contracts o)
      ])
  get_addr_desc_contracts-store_address_contracts acm after s d fits w =
      read_contracts acm after s d fits (w.get cf_address_contracts s)
