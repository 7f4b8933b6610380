-- ===== src/Db/Ethereum/Disconnect/Missing.antt =====
-- db/rocksdb_ethereumtype.go, DisconnectBlockRangeEthereumType: on a block without data.
use skyr_block_explorer.Prelude.{
  ℕ, zero, suc, ◌+◌, ◌-◌, ◌≤◌, ◌≡◌, refl, ap, ◌∙◌, none, some, List, arith,
}
use skyr_block_explorer.Prelude.Result.{ok, err, cannot_disconnect}
use skyr_block_explorer.Db.Ethereum.Process.{EthBlockTx}
use skyr_block_explorer.Db.Ethereum.Connect.{EthEnv}
use skyr_block_explorer.Db.Ethereum.Disconnect.{
  get_block_txs_ethereum_type, load_eth_blocks, disconnect_block_range_ethereum_type,
}

-- The data of `n` blocks from a height on.
abbrev pub HasData : EthEnv → ℕ → ℕ → Type 0
HasData e zero h = Unit
HasData e (suc n) h =
    ((bt : List EthBlockTx) × (get_block_txs_ethereum_type e h ≡ ok (some bt)))
    × HasData e n (h + 1)

load_eth_blocks-missing :
    (e : EthEnv) (n m h : ℕ)
    → HasData e n h
    → get_block_txs_ethereum_type e (h + n) ≡ ok none
    → load_eth_blocks e (n + suc m) h ≡ err cannot_disconnect
unfolding load_eth_blocks
load_eth_blocks-missing e zero m h d k =
    let here : get_block_txs_ethereum_type e h ≡ ok none =
      ap (get_block_txs_ethereum_type e) (let same : h ≡ h + 0 = omega arith in same) ∙ k in
    ap (λ x. load_eth_blocks e x h) (let same : 0 + suc m ≡ suc m = omega arith in same)
    ∙ rw here refl
load_eth_blocks-missing e (suc n) m h ((bt, f), d) k =
    let there : get_block_txs_ethereum_type e (h + 1 + n) ≡ ok none =
      ap (get_block_txs_ethereum_type e) (let same : h + 1 + n ≡ h + suc n = omega arith in same)
      ∙ k in
    ap (λ x. load_eth_blocks e x h)
      (let same : suc n + suc m ≡ suc (n + suc m) = omega arith in same)
    ∙ rw f (rw (load_eth_blocks-missing e n m (h + 1) d there) refl)

-- If there are data of the first blocks of a range and none of the next block, which is in the
-- range, then disconnecting the range gives the error that the blocks cannot be disconnected.
pub disconnect_block_range_ethereum_type-missing :
    (e : EthEnv) (lower higher n : ℕ)
    → lower + n ≤ higher
    → HasData e n lower
    → get_block_txs_ethereum_type e (lower + n) ≡ ok none
    → disconnect_block_range_ethereum_type e lower higher ≡ err cannot_disconnect
unfolding disconnect_block_range_ethereum_type
disconnect_block_range_ethereum_type-missing e lower higher n h d k =
    let size : higher + 1 - lower ≡ n + suc (higher - (lower + n)) = omega arith in
    rw size (rw (load_eth_blocks-missing e n (higher - (lower + n)) lower d k) refl)
