-- ===== src/Db/Bulk/Closing.antt =====
-- db/bulkconnect.go, Close, and the parts of a map that are stored before it.
use skyr_block_explorer.Prelude.{
  ℕ, ◌+◌, ◌≡◌, refl, sym, ap, ◌∙◌, Bool, false, ◌&&◌, List, [], ◌∷◌, ◌++◌, length, ltb, Bool-cases,
  inl, inr,
}
use skyr_block_explorer.Prelude.Bytes.{Bytes}
use skyr_block_explorer.Prelude.GoMap.{GoMap, Distinct}
use skyr_block_explorer.Prelude.Result.{Result, ok, err, panic, ◌>>=◌}
use skyr_block_explorer.Chain.{Block, bitcoin_type}
use skyr_block_explorer.Db.Types.{TxAddresses, AddrBalance}
use skyr_block_explorer.Db.Connect.{
  Column, Maps, cf_tx_addresses, cf_address_balance, cf_addresses, cf_height, cf_block_txs,
  cf_transactions,
}
use skyr_block_explorer.Db.Store.{Op, ops_of, store_balances, not_nil}
use skyr_block_explorer.Db.Store.Batch.{same_column, after_ops, after_ops-append}
use skyr_block_explorer.Db.Ethereum.Connect.{EthEnv}
use skyr_block_explorer.Db.Bulk.{
  BulkConnect, Connected, written, block_addresses, choose_tx_addresses, choose,
  partial_store_balances, tx_addresses_ops, tx_addresses_at, balances_ops, store_bulk_addresses,
  cut_tx_addresses, cut_balances, store_all, emptied, db_open, close, max_bulk_tx_addresses,
  max_bulk_balances, partial_store_addresses,
}
use skyr_block_explorer.Db.Bulk.Kept.{choose_tx_addresses-kept, choose-split}
use skyr_block_explorer.Db.Bulk.Pending.{tx_addresses_ops-Leaves, balances_ops-append}

-- The state in which nothing of the block was stored yet.
abbrev pub uncut : BulkConnect → Block → Maps → BulkConnect
uncut b block m = record b {
  bulk_addresses = b.bulk_addresses ++ (block_addresses block m.addresses ∷ []);
  bulk_addresses_count = b.bulk_addresses_count + length m.addresses;
  heap = m.heap;
  tx_addresses_map = m.tx_addresses_map;
  balances = m.balances;
  cbs = m.cbs;
}

-- The maps with which the processing of a block in bulk begins.
abbrev pub bulk_maps : BulkConnect → Maps
bulk_maps b = record {
  addresses = [];
  heap = b.heap;
  tx_addresses_map = b.tx_addresses_map;
  balances = b.balances;
  cbs = b.cbs;
}

ok-written : (a z : Connected) → ok a ≡ ok z → written z ≡ written a
ok-written a z q = let same : a ≡ z = cc in ap (λ (x : Connected). written x) (sym same)

module _ (e : EthEnv) where
  open e use {env}
  open env use {parser}

  cut_tx_addresses-here :
      (k : Bytes) (sa : Bool) (heap : List TxAddresses) (m : GoMap ℕ) (r : Result Bytes)
      → Distinct m
      → after_ops cf_tx_addresses k
          (tx_addresses_ops e heap (cut_tx_addresses sa heap m).1)
          (after_ops cf_tx_addresses k (tx_addresses_ops e heap (cut_tx_addresses sa heap m).0) r)
        ≡ after_ops cf_tx_addresses k (tx_addresses_ops e heap m) r
  unfolding cut_tx_addresses tx_addresses_ops ops_of after_ops
  cut_tx_addresses-here k sa heap m r d =
      elim (Bool-cases (sa && ltb max_bulk_tx_addresses (length m + partial_store_addresses))) [
        | inl y ↦
            rw y (choose_tx_addresses-kept cf_tx_addresses (tx_addresses_at e heap) heap m k r d)
        | inr n ↦ rw n refl
      ]

  pub cut_tx_addresses-kept :
      (c : Column) (k : Bytes) (sa : Bool) (heap : List TxAddresses) (m : GoMap ℕ)
      → Distinct m
      → (r : Result Bytes)
      → after_ops c k
          (tx_addresses_ops e heap (cut_tx_addresses sa heap m).1)
          (after_ops c k (tx_addresses_ops e heap (cut_tx_addresses sa heap m).0) r)
        ≡ after_ops c k (tx_addresses_ops e heap m) r
  cut_tx_addresses-kept c k sa heap m d r = by_column c
    where
      apart :
          (c : Column)
          → same_column cf_tx_addresses c ≡ false
          → after_ops c k
              (tx_addresses_ops e heap (cut_tx_addresses sa heap m).1)
              (after_ops c k (tx_addresses_ops e heap (cut_tx_addresses sa heap m).0) r)
            ≡ after_ops c k (tx_addresses_ops e heap m) r
      apart c n =
          let (now, later) = cut_tx_addresses sa heap m in
          tx_addresses_ops-Leaves e c heap later n k (after_ops c k (tx_addresses_ops e heap now) r)
          ∙ tx_addresses_ops-Leaves e c heap now n k r
          ∙ sym (tx_addresses_ops-Leaves e c heap m n k r)

      by_column :
          (c : Column)
          → after_ops c k
              (tx_addresses_ops e heap (cut_tx_addresses sa heap m).1)
              (after_ops c k (tx_addresses_ops e heap (cut_tx_addresses sa heap m).0) r)
            ≡ after_ops c k (tx_addresses_ops e heap m) r
      by_column cf_tx_addresses = cut_tx_addresses-here k sa heap m r d
      by_column cf_height = apart cf_height refl
      by_column cf_addresses = apart cf_addresses refl
      by_column cf_block_txs = apart cf_block_txs refl
      by_column cf_transactions = apart cf_transactions refl
      by_column cf_address_balance = apart cf_address_balance refl

  pub cut_balances-kept :
      (c : Column) (k : Bytes) (sa : Bool) (m : GoMap AddrBalance)
      → (r : Result Bytes)
      → after_ops c k
          (balances_ops e (cut_balances sa m).1)
          (after_ops c k (balances_ops e (cut_balances sa m).0) r)
        ≡ after_ops c k (balances_ops e m) r
  unfolding cut_balances balances_ops store_balances not_nil ops_of after_ops
  cut_balances-kept c k sa m r =
      elim (Bool-cases (sa && ltb max_bulk_balances (length m + partial_store_balances))) [
        | inl y ↦ rw y (
            let (now, later) = choose partial_store_balances false m in
            sym (after_ops-append c k (balances_ops e now) (balances_ops e later) r)
            ∙ ap (λ l. after_ops c k l r) (sym (balances_ops-append e now later))
            ∙ ap (λ l. after_ops c k (balances_ops e l) r) (choose-split partial_store_balances m))
        | inr n ↦ rw n refl
      ]

  -- What Close writes.
  pub close-written :
      (b : BulkConnect) (z : Connected)
      → close e b ≡ ok z
      → (x : List Op × ℕ) × (store_bulk_addresses e b.bulk_addresses b.best_height ≡ ok x)
        × (written z ≡ store_all e b ++ ([] ++ x.0))
  unfolding close
  close-written b z q = go (store_bulk_addresses e b.bulk_addresses b.best_height) refl q
    where
      go :
          (r : Result (List Op × ℕ))
          → store_bulk_addresses e b.bulk_addresses b.best_height ≡ r
          → (do
            (ops, best) ← r
            ok (record {
              bulk = record (emptied e b) {
                bulk_addresses = [];
                bulk_addresses_count = 0;
                db_state = db_open;
                best_height = best;
              };
              beside = store_all e b;
              at_once = [];
              batch = ops;
            }))
            ≡ ok z
          → (x : List Op × ℕ) × (store_bulk_addresses e b.bulk_addresses b.best_height ≡ ok x)
            × (written z ≡ store_all e b ++ ([] ++ x.0))
      go (ok x) p l = (x, p, ok-written _ z l)
      go (err y) p l = cc
      go panic p l = cc

  -- On a chain of the Bitcoin type Close stores both maps.
  pub store_all-bitcoin :
      (b : BulkConnect)
      → parser.get_chain_type ≡ bitcoin_type
      → store_all e b ≡ tx_addresses_ops e b.heap b.tx_addresses_map ++ balances_ops e b.balances
  unfolding store_all choose_tx_addresses choose
  store_all-bitcoin b t = rw t refl
