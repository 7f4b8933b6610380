-- ===== src/Db/Bulk/Written.antt =====
-- db/bulkconnect.go, connectBlockBitcoinType and Close: what is written before the end makes no
-- difference to what the data base holds then.
use mathlib.Core.Path.{subst}
use skyr_block_explorer.Prelude.{
  ℕ, ◌≡◌, refl, sym, ap, ◌∙◌, Bool, false, ◌||◌, List, ◌++◌, length, ltb,
}
use skyr_block_explorer.Prelude.Bytes.{Bytes}
use skyr_block_explorer.Prelude.GoMap.{Distinct}
use skyr_block_explorer.Prelude.Result.{Result, ok, Ensures, Ensures-bind}
use skyr_block_explorer.Chain.{Block, bitcoin_type}
use skyr_block_explorer.Db.Connect.{Column, Maps, cf_addresses, cf_height, cf_block_txs}
use skyr_block_explorer.Db.Connect.Process.{process_addresses_bitcoin_type}
use skyr_block_explorer.Db.Store.{Op, store_and_cleanup_block_txs}
use skyr_block_explorer.Db.Store.Batch.{same_column, after_ops, after_ops-append}
use skyr_block_explorer.Db.Ethereum.Connect.{EthEnv}
use skyr_block_explorer.Db.Bulk.{
  BulkConnect, Connected, written, tx_addresses_ops, balances_ops, flush_addresses,
  cut_tx_addresses, cut_balances, if_stored, store_processed, connect_block_bitcoin_type, store_all,
  close, max_bulk_tx_addresses, max_bulk_balances,
}
use skyr_block_explorer.Db.Bulk.Pending.{
  Leaves, tx_addresses_ops-Leaves, balances_ops-Leaves, store_bulk_addresses-Leaves,
}
use skyr_block_explorer.Db.Bulk.Parted.{parted-whole}
use skyr_block_explorer.Db.Bulk.Flushed.{Flushed, flush_addresses-Flushed, block_txs-Leaves}
use skyr_block_explorer.Db.Bulk.Closing.{
  uncut, bulk_maps, cut_tx_addresses-kept, cut_balances-kept, close-written, store_all-bitcoin,
}

module _ (e : EthEnv) where
  open e use {env}
  open env use {parser}

  -- With the parts that a block gives.
  parts_kept :
      (b b' : BulkConnect) (block : Block) (m : Maps) (sa : Bool) (ops bt at : List Op)
      (z y : Connected)
      → parser.get_chain_type ≡ bitcoin_type
      → Distinct m.tx_addresses_map
      → Flushed e
          (record (uncut b block m) {
            tx_addresses_map = (cut_tx_addresses sa m.heap m.tx_addresses_map).1;
            balances = (cut_balances sa m.balances).1;
          })
          b'
          ops
      → ((c : Column) → same_column cf_block_txs c ≡ false → Leaves c at × Leaves c bt)
      → ((c : Column)
          → same_column cf_addresses c ≡ false
          → same_column cf_height c ≡ false
          → Leaves c ops)
      → close e b' ≡ ok z
      → close e (uncut b block m) ≡ ok y
      → (c : Column) (k : Bytes) (r : Result Bytes)
      → after_ops c k
          (((tx_addresses_ops e m.heap (cut_tx_addresses sa m.heap m.tx_addresses_map).0
                ++ balances_ops e (cut_balances sa m.balances).0)
              ++ (at ++ (ops ++ bt)))
            ++ written z)
          r
        ≡ after_ops c k (at ++ (bt ++ written y)) r
  parts_kept b b' block m sa ops bt at z y t d f lx lo qz qy c k r =
      let u = uncut b block m in
      let (x2, p2, w2) = close-written e b' z qz in
      let (x, p, w) = close-written e u y qy in
      let (t1, t2) = cut_tx_addresses sa m.heap m.tx_addresses_map in
      let (b1, b2) = cut_balances sa m.balances in
      let now = store_all-bitcoin e b' t in
      let whole = store_all-bitcoin e u t in
      let later : store_all e b' ≡ tx_addresses_ops e m.heap t2 ++ balances_ops e b2 =
        now ∙ rw (f.heap, f.tx_addresses_map, f.balances) refl in
      let joined : ops ++ x2.0 ≡ x.0 = f.addresses x x2 p p2 in
      rw (w2, w, later, whole)
        (parted-whole c k (tx_addresses_ops e m.heap t1) (tx_addresses_ops e m.heap t2)
          (tx_addresses_ops e m.heap m.tx_addresses_map) (balances_ops e b1) (balances_ops e b2)
          (balances_ops e m.balances) ops x2.0 x.0 at bt
          (cut_tx_addresses-kept e c k sa m.heap m.tx_addresses_map d)
          (cut_balances-kept e c k sa m.balances)
          (λ q. sym (after_ops-append c k ops x2.0 q) ∙ ap (λ l. after_ops c k l q) joined)
          (λ n. (
            tx_addresses_ops-Leaves e c m.heap t1 n,
            tx_addresses_ops-Leaves e c m.heap t2 n,
            tx_addresses_ops-Leaves e c m.heap m.tx_addresses_map n,
          ))
          (λ n. (
            balances_ops-Leaves e c b1 n,
            balances_ops-Leaves e c b2 n,
            balances_ops-Leaves e c m.balances n,
          ))
          (λ n h. (
            lo c n h,
            subst (Ensures (λ (v : List Op × ℕ). Leaves c v.0)) p2
                (store_bulk_addresses-Leaves e c b'.bulk_addresses b'.best_height n h),
            subst (Ensures (λ (v : List Op × ℕ). Leaves c v.0)) p
                (store_bulk_addresses-Leaves e c u.bulk_addresses b.best_height n h),
          ))
          (lx c) r)

  -- What is true of a block once it is stored.
  abbrev Parts : BulkConnect → Block → Maps → List Op → List Op → Connected → Type 0
  Parts b block m bt at c =
      (z y : Connected)
      → close e c.bulk ≡ ok z
      → close e (uncut b block m) ≡ ok y
      → (col : Column) (k : Bytes) (r : Result Bytes)
      → after_ops col k (written c ++ written z) r ≡ after_ops col k (at ++ (bt ++ written y)) r

  store_processed-Parts :
      (b : BulkConnect) (block : Block) (flag : Bool) (m : Maps) (bt at : List Op)
      → parser.get_chain_type ≡ bitcoin_type
      → Distinct m.tx_addresses_map
      → if_stored flag (store_and_cleanup_block_txs env block) ≡ ok (bt, at)
      → Ensures (Parts b block m bt at) (store_processed e b block flag m)
  unfolding store_processed
  store_processed-Parts b block flag m bt at t d q =
      let P = Parts b block m bt at in
      let sa =
        ltb max_bulk_tx_addresses (length m.tx_addresses_map)
        || ltb max_bulk_balances (length m.balances) in
      let cut = record (uncut b block m) {
        tx_addresses_map = (cut_tx_addresses sa m.heap m.tx_addresses_map).1;
        balances = (cut_balances sa m.balances).1;
      } in
      let txs : (c : Column) → same_column cf_block_txs c ≡ false → Leaves c at × Leaves c bt =
        λ c n.
          let l =
            subst (Ensures (λ (v : List Op × List Op). Leaves c v.0 × Leaves c v.1)) q
              (block_txs-Leaves c n env flag block) in
          (l.1, l.0) in
      Ensures-bind (λ (v : BulkConnect × List Op). Flushed e cut v.0 v.1) P
        (flush_addresses e sa cut) _ (flush_addresses-Flushed e sa cut)
        λ f hf.
          rw q (λ z y qz qy. parts_kept b f.0 block m sa f.1 bt at z y t d hf txs hf.leaves qz qy)

  -- In any state of a bulk connection of the Bitcoin type: if a block is processed to maps with
  -- distinct keys of the transactions, connected and the connection closed, then what was written,
  -- with the transactions, balances and addresses that full caches made it store before, leaves at
  -- every key of every column what the data of the block for disconnection and the closing of the
  -- connection with nothing stored before leave.
  pub connect_block_bitcoin_type-close :
      (b : BulkConnect) (block : Block) (flag : Bool) (m : Maps) (c z y : Connected)
      (bt at : List Op)
      → parser.get_chain_type ≡ bitcoin_type
      → process_addresses_bitcoin_type env block (bulk_maps b) ≡ ok m
      → Distinct m.tx_addresses_map
      → if_stored flag (store_and_cleanup_block_txs env block) ≡ ok (bt, at)
      → connect_block_bitcoin_type e b block flag ≡ ok c
      → close e c.bulk ≡ ok z
      → close e (uncut b block m) ≡ ok y
      → (col : Column) (k : Bytes) (r : Result Bytes)
      → after_ops col k (written c ++ written z) r ≡ after_ops col k (at ++ (bt ++ written y)) r
  unfolding connect_block_bitcoin_type
  connect_block_bitcoin_type-close b block flag m c z y bt at t qm d qt qc =
      let stored : store_processed e b block flag m ≡ ok c = rw qm at qc in
      subst (Ensures (Parts b block m bt at)) stored
        (store_processed-Parts b block flag m bt at t d qt) z y
