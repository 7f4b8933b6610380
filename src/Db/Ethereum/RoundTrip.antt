-- ===== src/Db/Ethereum/RoundTrip.antt =====
-- db/rocksdb_ethereumtype.go, the contracts of an address: on reading them back.
use skyr_block_explorer.Prelude.{
  ℕ, zero, suc, ◌+◌, ◌^◌, ◌≤◌, ◌<◌, ◌≡◌, refl, true, false, some, List, [], ◌∷◌, ◌++◌, length,
  length-append, All, arith, ltb, ◌==◌,
}
use skyr_block_explorer.Prelude.Bytes.{slice_from-append}
use skyr_block_explorer.Prelude.Result.{ok}
use skyr_block_explorer.Db.Vlq.{Vlq, VlqLaws, pack_varuint, unpack_varuint}
use skyr_block_explorer.Db.Reader.{read_bytes}
use skyr_block_explorer.Db.Reader.Laws.{At-next, slice_from-At, Reads-read_bytes, read_at-lem}
use skyr_block_explorer.Db.Reader.Fields.{Reads-varuint, At-first}
use skyr_block_explorer.Db.Ethereum.{
  ethereum_type_address_descriptor_len, AddrContract, AddrContracts, pack_contracts,
  pack_addr_contracts, unpack_contracts, unpack_addr_contracts,
}

pub record FitsContract (c : AddrContract) : Type 0 where
  pub contract : length c.contract ≡ ethereum_type_address_descriptor_len
  pub txs : c.txs < 2 ^ 64

pub record FitsContracts (acs : AddrContracts) : Type 0 where
  pub total_txs : acs.total_txs < 2 ^ 64
  pub non_contract_txs : acs.non_contract_txs < 2 ^ 64
  pub contracts : All FitsContract acs.contracts

module _ {v : Vlq} (laws : VlqLaws v) where
  unpack_contracts-pack_contracts :
      (cs : List AddrContract) (fuel : ℕ)
      → All FitsContract cs
      → length (pack_contracts v cs) < fuel
      → unpack_contracts v fuel (pack_contracts v cs) ≡ ok cs
  unfolding unpack_contracts pack_contracts
  unpack_contracts-pack_contracts cs zero h lt = elim lt [ ]
  unpack_contracts-pack_contracts [] (suc fuel) h lt = refl
  unpack_contracts-pack_contracts (c ∷ cs) (suc fuel) h lt =
      let a = c.contract in
      let b = pack_varuint v c.txs in
      let r = pack_contracts v cs in
      let id : read_bytes ethereum_type_address_descriptor_len (a ++ (b ++ r))
          ≡ some (a, length a) =
        rw (← h.0.contract) (Reads-read_bytes a (b ++ r)) in
      let number =
        read_at-lem (unpack_varuint v) (a ++ (b ++ r)) (length a) b r c.txs (At-first a (b ++ r))
          (Reads-varuint laws c.txs h.0.txs) in
      let left =
        slice_from-At (a ++ (b ++ r)) (length a + length b) r
          (At-next (a ++ (b ++ r)) (length a) b r (At-first a (b ++ r))) in
      let size : length (a ++ (b ++ r)) ≡ 20 + (length b + length r) =
        omega (arith, length-append a (b ++ r), length-append b r, h.0.contract) in
      let more : ltb 0 (length (a ++ (b ++ r))) ≡ true = ground (arith, size) in
      let enough : ltb (length (a ++ (b ++ r))) ethereum_type_address_descriptor_len ≡ false =
        ground (arith, size) in
      let whole : length (a ++ (b ++ r)) < suc fuel = lt in
      let shorter : length r < fuel = omega (arith, whole, size) in
      rw (more, enough, unpack_contracts)
        (rw id
          (rw number (rw left (rw (unpack_contracts-pack_contracts cs fuel h.1 shorter) refl))))

  -- For a codec with its laws, the contracts of an address, whose counters fit 64 bits and whose
  -- contracts have the length of an address, are read back from what was packed.
  pub unpack_addr_contracts-pack_addr_contracts :
      (acs : AddrContracts)
      → FitsContracts acs
      → unpack_addr_contracts v (pack_addr_contracts v acs) ≡ ok (some acs)
  unfolding unpack_addr_contracts pack_addr_contracts
  unpack_addr_contracts-pack_addr_contracts acs h =
      let a = pack_varuint v acs.total_txs in
      let b = pack_varuint v acs.non_contract_txs in
      let r = pack_contracts v acs.contracts in
      let some_bytes : 1 ≤ length a = unfold pack_varuint in laws.put_uint-pos acs.total_txs in
      let not_empty : (length (a ++ (b ++ r)) == 0) ≡ false =
        ground (arith, length-append a (b ++ r)) in
      rw (not_empty, unpack_addr_contracts)
        (rw (Reads-varuint laws acs.total_txs h.total_txs (b ++ r)) (
          rw (slice_from-append a (b ++ r)) (
            rw (Reads-varuint laws acs.non_contract_txs h.non_contract_txs r) (
              rw (slice_from-append b r) (
                rw
                  (unpack_contracts-pack_contracts acs.contracts (suc (length r)) h.contracts
                    (omega arith))
                  refl)))))
