-- ===== src/Db/Ethereum/BlockTxs/RoundTrip.antt =====
-- db/rocksdb_ethereumtype.go, the blockTxs column: on reading it back.
use mathlib.Core.Path.{subst}
use skyr_block_explorer.Prelude.{
  ℕ, zero, suc, ◌+◌, ◌-◌, ◌^◌, ◌<◌, ◌≡◌, refl, ap, true, false, some, List, [], ◌∷◌, ◌++◌, map,
  length, length-append, append_assoc, All, arith, ltb, ◌==◌, ◌&&◌, Bool, if◌then◌else◌, Bool-cases,
  inl, inr,
}
use skyr_block_explorer.Prelude.Bytes.{Bytes}
use skyr_block_explorer.Prelude.Result.{ok}
use skyr_block_explorer.Db.Vlq.{Vlq, VlqLaws, pack_varuint, unpack_varuint}
use skyr_block_explorer.Db.Reader.{read_bytes, read_at}
use skyr_block_explorer.Db.Reader.Laws.{At, At-start, At-next, Reads-read_bytes, read_at-lem}
use skyr_block_explorer.Db.Reader.Fields.{Reads-varuint}
use skyr_block_explorer.Db.BlockTxs.RoundTrip.{At-rewrite, length-At}
use skyr_block_explorer.Db.Ethereum.{ethereum_type_address_descriptor_len, is_zero_address}
use skyr_block_explorer.Db.Ethereum.Process.{EthBlockTxContract, EthBlockTx}
use skyr_block_explorer.Db.Ethereum.BlockTxs.{
  address_bytes, pack_tx_contracts, pack_eth_block_txs, nil_if_zero, get_address,
  unpack_tx_contracts, unpack_eth_block_txs_from, unpack_eth_block_txs,
}

-- Whether a byte is not 0.
abbrev any_byte : Bytes → Bool
any_byte [] = false
any_byte (b ∷ bs) = if b == 0 then any_byte bs else true

-- What is kept of a descriptor: one with the length of an address that is not the zero address.
abbrev pub kept_address : Bytes → Bytes
kept_address a = if (length a == 20) && any_byte a then a else []

abbrev pub kept_contract : EthBlockTxContract → EthBlockTxContract
kept_contract c = record { addr = kept_address c.addr; contract = kept_address c.contract }

abbrev pub kept_tx : EthBlockTx → EthBlockTx
kept_tx t = record {
  btx_id = t.btx_id;
  from = kept_address t.from;
  to = kept_address t.to;
  contracts = map kept_contract t.contracts;
}

pub record FitsEthBlockTx (pl : ℕ) (t : EthBlockTx) : Type 0 where
  pub id : length t.btx_id ≡ pl
  pub number : length t.contracts < 2 ^ 64

length-address_bytes : (a : Bytes) → length (address_bytes a) ≡ 20
unfolding address_bytes
length-address_bytes a = elim (Bool-cases (length a == ethereum_type_address_descriptor_len)) [
  | inl y ↦ rw y (ground (arith, y))
  | inr n ↦ rw n refl
]

any_byte-is_zero_address : (a : Bytes) → is_zero_address a ≡ (if any_byte a then false else true)
unfolding is_zero_address
any_byte-is_zero_address [] = refl
any_byte-is_zero_address (b ∷ bs) = ground (arith, any_byte-is_zero_address bs)

-- What is read of the bytes of a descriptor.
nil_if_zero-address_bytes : (a : Bytes) → nil_if_zero (address_bytes a) ≡ kept_address a
unfolding nil_if_zero address_bytes
nil_if_zero-address_bytes a = elim (Bool-cases (length a == 20)) [
  | inl y ↦ rw y (
      rw (any_byte-is_zero_address a)
        (elim (Bool-cases (any_byte a)) [ inl x ↦ rw x refl | inr n ↦ rw n refl ]))
  | inr n ↦ rw n (unfold is_zero_address in refl)
]

get_address-address_bytes :
    (buf : Bytes) (i : ℕ) (a rest : Bytes)
    → At buf i (address_bytes a ++ rest)
    → get_address buf i ≡ ok (kept_address a, i + 20)
unfolding get_address
get_address-address_bytes buf i a rest at =
    let b = address_bytes a in
    let inside : ltb (length buf - i) ethereum_type_address_descriptor_len ≡ false =
      ground
        (arith, length-At buf i (b ++ rest) at, length-append b rest, length-address_bytes a) in
    let found : read_at (read_bytes 20) buf i ≡ some (b, i + 20) =
      rw (← length-address_bytes a)
        (read_at-lem (read_bytes (length b)) buf i b rest b at (Reads-read_bytes b)) in
    rw (inside, get_address) (rw found (ap (λ x. ok (x, i + 20)) (nil_if_zero-address_bytes a)))

At-address :
    (buf : Bytes) (i : ℕ) (a rest : Bytes)
    → At buf i (address_bytes a ++ rest)
    → At buf (i + 20) rest
At-address buf i a rest at = rw (← length-address_bytes a) (At-next buf i (address_bytes a) rest at)

module _ {v : Vlq} (laws : VlqLaws v) where
  unpack_tx_contracts-pack_tx_contracts :
      (cs : List EthBlockTxContract) (buf : Bytes) (i : ℕ) (rest : Bytes)
      → At buf i (pack_tx_contracts v cs ++ rest)
      → unpack_tx_contracts v (length cs) buf i
        ≡ ok (map kept_contract cs, i + length (pack_tx_contracts v cs))
  unfolding unpack_tx_contracts pack_tx_contracts
  unpack_tx_contracts-pack_tx_contracts [] buf i rest at = ap (λ n. ok ([], n)) (omega arith)
  unpack_tx_contracts-pack_tx_contracts (c ∷ cs) buf i rest at =
      let a = address_bytes c.addr in
      let b = address_bytes c.contract in
      let r = pack_tx_contracts v cs in
      let at1 : At buf i (a ++ (b ++ (r ++ rest))) = At-rewrite buf i (simp append_assoc) at in
      let at2 = At-address buf i c.addr (b ++ (r ++ rest)) at1 in
      let at3 = At-address buf (i + 20) c.contract (r ++ rest) at2 in
      let size : i + 20 + 20 + length r ≡ i + length (a ++ (b ++ r)) = omega (
        arith,
        length-append a (b ++ r),
        length-append b r,
        length-address_bytes c.addr,
        length-address_bytes c.contract,
      ) in
      rw (get_address-address_bytes buf i c.addr (b ++ (r ++ rest)) at1) (
        rw (get_address-address_bytes buf (i + 20) c.contract (r ++ rest) at2) (
          rw (unpack_tx_contracts-pack_tx_contracts cs buf (i + 20 + 20) rest at3)
            (ap (λ n. ok (kept_contract c ∷ map kept_contract cs, n)) size)))

  unpack_last :
      (fuel pl : ℕ) (buf : Bytes) (i : ℕ)
      → At buf i []
      → unpack_eth_block_txs_from v (suc fuel) pl buf i ≡ ok []
  unfolding unpack_eth_block_txs_from
  unpack_last fuel pl buf i at =
      let e : ltb i (length buf) ≡ false = ground (arith, length-At buf i [] at) in
      rw (e, unpack_eth_block_txs_from) refl

  -- The bytes of one transaction, before those of the others.
  abbrev one_tx : EthBlockTx → Bytes → Bytes
  one_tx t rest =
      t.btx_id
      ++ (address_bytes t.from
          ++ (address_bytes t.to
              ++ (pack_varuint v (length t.contracts)
                  ++ (pack_tx_contracts v t.contracts ++ rest))))

  abbrev size_of : EthBlockTx → ℕ
  size_of t =
      40 + (length (pack_varuint v (length t.contracts)) + length (pack_tx_contracts v t.contracts))

  length-one_tx :
      (t : EthBlockTx) (rest : Bytes)
      → length (one_tx t rest) ≡ length t.btx_id + (size_of t + length rest)
  length-one_tx t rest =
      let c = pack_varuint v (length t.contracts) in
      let d = pack_tx_contracts v t.contracts in
      omega (
        arith,
        length-append t.btx_id (address_bytes t.from ++ (address_bytes t.to ++ (c ++ (d ++ rest)))),
        length-append (address_bytes t.from) (address_bytes t.to ++ (c ++ (d ++ rest))),
        length-append (address_bytes t.to) (c ++ (d ++ rest)),
        length-append c (d ++ rest),
        length-append d rest,
        length-address_bytes t.from,
        length-address_bytes t.to,
      )

  -- One round of the loop, and where the next one begins.
  unpack_next :
      (fuel pl : ℕ) (buf : Bytes) (i : ℕ) (t : EthBlockTx) (ts : List EthBlockTx) (rest : Bytes)
      → FitsEthBlockTx pl t
      → At buf i (one_tx t rest)
      → (At buf (i + pl + size_of t) rest
          → unpack_eth_block_txs_from v fuel pl buf (i + pl + size_of t) ≡ ok ts)
      → unpack_eth_block_txs_from v (suc fuel) pl buf i ≡ ok (kept_tx t ∷ ts)
  unfolding unpack_eth_block_txs_from
  unpack_next fuel pl buf i t ts rest h at k =
      let b = address_bytes t.to in
      let c = pack_varuint v (length t.contracts) in
      let d = pack_tx_contracts v t.contracts in
      let whole = length-At buf i (one_tx t rest) at in
      let inside : ltb i (length buf) ≡ true = ground (arith, whole, length-one_tx t rest) in
      let long : ltb (length buf - i) pl ≡ false =
        ground (arith, whole, length-one_tx t rest, h.id) in
      let r1 = address_bytes t.from ++ (b ++ (c ++ (d ++ rest))) in
      let id : read_at (read_bytes pl) buf i ≡ some (t.btx_id, i + pl) = rw (← h.id) (
        read_at-lem (read_bytes (length t.btx_id)) buf i t.btx_id r1 t.btx_id at
          (Reads-read_bytes t.btx_id)) in
      let at1 : At buf (i + pl) r1 = rw (← h.id) (At-next buf i t.btx_id r1 at) in
      let at2 = At-address buf (i + pl) t.from (b ++ (c ++ (d ++ rest))) at1 in
      let at3 = At-address buf (i + pl + 20) t.to (c ++ (d ++ rest)) at2 in
      let at4 = At-next buf (i + pl + 20 + 20) c (d ++ rest) at3 in
      let at5 = At-next buf (i + pl + 20 + 20 + length c) d rest at4 in
      let size : i + pl + 20 + 20 + length c + length d ≡ i + pl + size_of t = omega arith in
      rw (inside, long, unpack_eth_block_txs_from)
        (rw id (
          rw (get_address-address_bytes buf (i + pl) t.from (b ++ (c ++ (d ++ rest))) at1) (
            rw (get_address-address_bytes buf (i + pl + 20) t.to (c ++ (d ++ rest)) at2) (
              rw
                (read_at-lem (unpack_varuint v) buf (i + pl + 20 + 20) c (d ++ rest)
                  (length t.contracts) at3 (Reads-varuint laws (length t.contracts) h.number))
                (rw
                  (unpack_tx_contracts-pack_tx_contracts t.contracts buf
                    (i + pl + 20 + 20 + length c) rest at4)
                  (rw size (rw (k (subst (λ n. At buf n rest) size at5)) refl)))))))

  unpack_from-pack_eth_block_txs :
      (ts : List EthBlockTx) (fuel pl : ℕ) (buf : Bytes) (i : ℕ)
      → All (FitsEthBlockTx pl) ts
      → At buf i (pack_eth_block_txs v ts)
      → length (pack_eth_block_txs v ts) < fuel
      → unpack_eth_block_txs_from v fuel pl buf i ≡ ok (map kept_tx ts)
  unfolding pack_eth_block_txs
  unpack_from-pack_eth_block_txs ts zero pl buf i h at lt = elim lt [ ]
  unpack_from-pack_eth_block_txs [] (suc fuel) pl buf i h at lt = unpack_last fuel pl buf i at
  unpack_from-pack_eth_block_txs (t ∷ ts) (suc fuel) pl buf i h at lt =
      let shorter : length (pack_eth_block_txs v ts) < fuel =
        omega (arith, lt, length-one_tx t (pack_eth_block_txs v ts)) in
      unpack_next fuel pl buf i t (map kept_tx ts) (pack_eth_block_txs v ts) h.0 at
        (λ at1. unpack_from-pack_eth_block_txs ts fuel pl buf (i + pl + size_of t) h.1 at1 shorter)

  -- For a codec with its laws, the transactions of a block of the Ethereum type, whose ids have the
  -- packed length and whose numbers of contracts fit 64 bits, are read back from what was packed,
  -- with every descriptor that has not the length of an address, or has no byte but 0, as nil.
  pub unpack_eth_block_txs-pack_eth_block_txs :
      (pl : ℕ) (ts : List EthBlockTx)
      → All (FitsEthBlockTx pl) ts
      → unpack_eth_block_txs v pl (some (pack_eth_block_txs v ts)) ≡ ok (some (map kept_tx ts))
  unfolding unpack_eth_block_txs
  unpack_eth_block_txs-pack_eth_block_txs pl ts h =
      let b = pack_eth_block_txs v ts in
      rw (unpack_from-pack_eth_block_txs ts (suc (length b)) pl b 0 h (At-start b) (omega arith))
        refl
