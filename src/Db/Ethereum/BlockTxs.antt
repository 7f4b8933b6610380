-- ===== src/Db/Ethereum/BlockTxs.antt =====
-- db/rocksdb_ethereumtype.go: the blockTxs column, what storeAndCleanupBlockTxsEthereumType packs and
-- getBlockTxsEthereumType reads.
pub mod RoundTrip
use skyr_block_explorer.Prelude.{
  ℕ, zero, suc, ◌-◌, Bool, true, false, Option, none, some, List, [], ◌∷◌, ◌++◌, length, replicate,
  ltb, ◌==◌, if◌then◌else◌,
}
use skyr_block_explorer.Prelude.Bytes.{Bytes}
use skyr_block_explorer.Prelude.Result.{Result, ok, err, panic, inconsistent_block_txs, run, ◌>>=◌}
use skyr_block_explorer.Db.Vlq.{Vlq, pack_varuint, unpack_varuint}
use skyr_block_explorer.Db.Reader.{read_bytes, read_at}
use skyr_block_explorer.Db.Ethereum.{ethereum_type_address_descriptor_len, is_zero_address}
use skyr_block_explorer.Db.Ethereum.Process.{EthBlockTxContract, EthBlockTx}

-- `appendAddress`: what has not the length of an address is stored as the zero address.
unfoldable pub address_bytes : Bytes → Bytes
address_bytes a =
    if length a == ethereum_type_address_descriptor_len
    then a
    else replicate ethereum_type_address_descriptor_len 0

-- The zero address is read as nil.
unfoldable pub nil_if_zero : Bytes → Bytes
nil_if_zero a = if is_zero_address a then [] else a

unfoldable pub get_address : Bytes → ℕ → Result (Bytes × ℕ)
get_address buf i = elim (ltb (length buf - i) ethereum_type_address_descriptor_len) [
  | true ↦ err inconsistent_block_txs
  | false ↦ do
    (a, i) ← run (read_at (read_bytes ethereum_type_address_descriptor_len) buf i)
    ok (nil_if_zero a, i)
]

module _ (v : Vlq) where
  unfoldable pub pack_tx_contracts : List EthBlockTxContract → Bytes
  pack_tx_contracts [] = []
  pack_tx_contracts (c ∷ cs) =
      address_bytes c.addr ++ (address_bytes c.contract ++ pack_tx_contracts cs)

  unfoldable pub pack_eth_block_txs : List EthBlockTx → Bytes
  pack_eth_block_txs [] = []
  pack_eth_block_txs (t ∷ ts) =
      t.btx_id
      ++ (address_bytes t.from
          ++ (address_bytes t.to
              ++ (pack_varuint v (length t.contracts)
                  ++ (pack_tx_contracts t.contracts ++ pack_eth_block_txs ts))))

  -- `for j := range contracts`
  unpack_tx_contracts : ℕ → Bytes → ℕ → Result (List EthBlockTxContract × ℕ)
  unpack_tx_contracts zero buf i = ok ([], i)
  unpack_tx_contracts (suc n) buf i = do
    (addr, i) ← get_address buf i
    (contract, i) ← get_address buf i
    (cs, i) ← unpack_tx_contracts n buf i
    ok (record { addr = addr; contract = contract } ∷ cs, i)

  -- `for i := 0; i < len(buf);`; the fuel is more than the bytes that are left.
  unpack_eth_block_txs_from : ℕ → ℕ → Bytes → ℕ → Result (List EthBlockTx)
  unpack_eth_block_txs_from zero pl buf i = panic
  unpack_eth_block_txs_from (suc fuel) pl buf i = elim (ltb i (length buf)) [
    | false ↦ ok []
    | true ↦ elim (ltb (length buf - i) pl) [
      | true ↦ err inconsistent_block_txs
      | false ↦ do
        (txid, i) ← run (read_at (read_bytes pl) buf i)
        (from, i) ← get_address buf i
        (to, i) ← get_address buf i
        (cc, i) ← run (read_at (unpack_varuint v) buf i)
        (contracts, i) ← unpack_tx_contracts cc buf i
        bt ← unpack_eth_block_txs_from fuel pl buf i
        ok (record { btx_id = txid; from = from; to = to; contracts = contracts } ∷ bt)
    ]
  ]

  -- nil data are a block that is not there.
  unfoldable pub unpack_eth_block_txs : ℕ → Option Bytes → Result (Option (List EthBlockTx))
  unfolding unpack_tx_contracts unpack_eth_block_txs_from
  unpack_eth_block_txs pl none = ok none
  unpack_eth_block_txs pl (some buf) = do
    bt ← unpack_eth_block_txs_from (suc (length buf)) pl buf 0
    ok (some bt)
