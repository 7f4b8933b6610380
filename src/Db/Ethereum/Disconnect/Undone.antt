-- ===== src/Db/Ethereum/Disconnect/Undone.antt =====
-- db/rocksdb_ethereumtype.go: disconnecting an address takes back what connecting it counted.
use skyr_block_explorer.Prelude.{
  ℕ, ◌+◌, ◌-◌, ◌%◌, ◌^◌, ◌≤◌, ◌<◌, ◌≡◌, refl, ap, ◌∙◌, Bool, true, false, Option, none, some, List,
  [], ◌∷◌, All, arith, ltb, ◌==◌, if◌then◌else◌, Bool-cases, inl, inr,
}
use skyr_block_explorer.Prelude.Int.{ℤ}
use skyr_block_explorer.Prelude.Bytes.{Bytes, bytes_eq, bytes_eq_refl}
use skyr_block_explorer.Db.Ethereum.{
  AddrContract, AddrContracts, find_contract_in_address_contracts, count_at, count_contract,
  count_address, count_total, increment, is_zero_address,
}
use skyr_block_explorer.Db.Ethereum.Disconnect.{
  uncount_at, uncount_contract, uncount_total, uncount_address,
}

-- A counter that can go up by one.
abbrev pub HasRoom : ℕ → Type 0
HasRoom n = n + 1 < 2 ^ 64

pub record IsCounted (c : AddrContract) : Type 0 where
  pub room : HasRoom c.txs
  pub used : 1 ≤ c.txs

-- The same by recursion on the contracts.
abbrev counted : Bytes → List AddrContract → List AddrContract
counted contract [] = record { contract = contract; txs = increment 0 } ∷ []
counted contract (c ∷ cs) =
    if bytes_eq contract c.contract
    then record c { txs = increment c.txs } ∷ cs
    else c ∷ counted contract cs

abbrev uncounted_head : AddrContract → List AddrContract → List AddrContract
uncounted_head c cs =
    if ltb 0 c.txs
    then (if c.txs - 1 == 0 then cs else record c { txs = c.txs - 1 } ∷ cs)
    else c ∷ cs

abbrev uncounted : Bytes → List AddrContract → List AddrContract
uncounted contract [] = []
uncounted contract (c ∷ cs) =
    if bytes_eq contract c.contract then uncounted_head c cs else c ∷ uncounted contract cs

count_contract-counted :
    (contract : Bytes) (cs : List AddrContract)
    → (count_contract contract true cs).0 ≡ counted contract cs
unfolding count_contract find_contract_in_address_contracts count_at
count_contract-counted contract [] = refl
count_contract-counted contract (c ∷ cs) = ground (arith, count_contract-counted contract cs)

uncount_contract-uncounted :
    (contract : Bytes) (cs : List AddrContract)
    → uncount_contract contract cs ≡ uncounted contract cs
unfolding uncount_contract find_contract_in_address_contracts uncount_at
uncount_contract-uncounted contract [] = refl
uncount_contract-uncounted contract (c ∷ cs) =
    ground (arith, uncount_contract-uncounted contract cs)

uncounted_head-increment :
    (c : AddrContract) (cs : List AddrContract)
    → IsCounted c
    → uncounted_head (record c { txs = increment c.txs }) cs ≡ c ∷ cs
uncounted_head-increment c cs h =
    let up : increment c.txs ≡ c.txs + 1 = omega (arith, h.room) in
    let more : ltb 0 (c.txs + 1) ≡ true = ground arith in
    let not_last : (c.txs + 1 - 1 == 0) ≡ false = ground (arith, h.used) in
    let down : c.txs + 1 - 1 ≡ c.txs = omega arith in rw (up, more, not_last, down) refl

uncounted-counted :
    (contract : Bytes) (cs : List AddrContract)
    → All IsCounted cs
    → uncounted contract (counted contract cs) ≡ cs
uncounted-counted contract [] h = rw (bytes_eq_refl contract) (ground arith)
uncounted-counted contract (c ∷ cs) h = elim (Bool-cases (bytes_eq contract c.contract)) [
  | inl y ↦ rw (y, y) (uncounted_head-increment c cs h.0)
  | inr n ↦ rw (n, n) (ap (λ r. c ∷ r) (uncounted-counted contract cs h.1))
]

uncount_total-count_total :
    (ftx : Bool) (ac : AddrContracts)
    → HasRoom ac.total_txs
    → uncount_total ftx (count_total ftx ac) ≡ ac
unfolding uncount_total count_total
uncount_total-count_total true ac h = refl
uncount_total-count_total false ac h =
    let back : (increment ac.total_txs + (2 ^ 64 - 1)) % 2 ^ 64 ≡ ac.total_txs = omega (arith, h) in
    rw back refl

-- At an address that is not the zero address, if the counters can go up by one and every contract
-- has a transaction, then what disconnecting an address does to the counters takes back what
-- connecting it did, for a transfer of the coin and for a contract, whether the transaction was
-- seen at the address before or not.
pub uncount_address-count_address :
    (addr_desc : Bytes) (contract : Option Bytes) (ftx : Bool) (index : ℤ) (ac : AddrContracts)
    → is_zero_address addr_desc ≡ false
    → HasRoom ac.total_txs
    → HasRoom ac.non_contract_txs
    → All IsCounted ac.contracts
    → uncount_address contract
        (uncount_total ftx (count_total ftx (count_address addr_desc index contract true ac).0))
      ≡ ac
unfolding uncount_address count_address
uncount_address-count_address addr_desc (some contract) ftx index ac z t n h =
    let cs = (count_contract contract true ac.contracts).0 in
    let back : uncount_contract contract cs ≡ ac.contracts =
      uncount_contract-uncounted contract cs
      ∙ ap (uncounted contract) (count_contract-counted contract ac.contracts)
      ∙ uncounted-counted contract ac.contracts h in
    rw (z, count_address)
      (rw (uncount_total-count_total ftx (record ac { contracts = cs }) t) (rw back refl))
uncount_address-count_address addr_desc none ftx index ac z t n h =
    let up : increment ac.non_contract_txs ≡ ac.non_contract_txs + 1 = omega (arith, n) in
    let more : ltb 0 (ac.non_contract_txs + 1) ≡ true = ground arith in
    let down : ac.non_contract_txs + 1 - 1 ≡ ac.non_contract_txs = omega arith in
    rw
      (uncount_total-count_total ftx
        (record ac { non_contract_txs = increment ac.non_contract_txs }) t)
      (rw (up, more, down) refl)
