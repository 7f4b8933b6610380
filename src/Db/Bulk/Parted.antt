-- ===== src/Db/Bulk/Parted.antt =====
-- db/bulkconnect.go: operations on different columns, in the order of a block that is connected in bulk.
use skyr_block_explorer.Prelude.{◌≡◌, refl, false, List, [], ◌++◌}
use skyr_block_explorer.Prelude.Bytes.{Bytes}
use skyr_block_explorer.Prelude.Result.{Result}
use skyr_block_explorer.Db.Connect.{
  Column, cf_height, cf_addresses, cf_block_txs, cf_transactions, cf_address_balance,
  cf_tx_addresses,
}
use skyr_block_explorer.Db.Store.{Op}
use skyr_block_explorer.Db.Store.Batch.{same_column, after_ops, after_ops-append}
use skyr_block_explorer.Db.Bulk.Pending.{Leaves}

-- Three lists of operations, each of which leaves a column.
abbrev pub Leave : Column → List Op → List Op → List Op → Type 0
Leave c a1 a2 a = Leaves c a1 × Leaves c a2 × Leaves c a

-- Four groups of operations, each on its own columns: what they leave in the order of a block that is
-- connected in bulk, with the rest of the groups after it, and in the order of whole groups.
module _ (c : Column) (k : Bytes) (t1 t2 t b1 b2 b a1 a2 a at bt : List Op)
    (ht : (r : Result Bytes) → after_ops c k t2 (after_ops c k t1 r) ≡ after_ops c k t r)
    (hb : (r : Result Bytes) → after_ops c k b2 (after_ops c k b1 r) ≡ after_ops c k b r)
    (ha : (r : Result Bytes) → after_ops c k a2 (after_ops c k a1 r) ≡ after_ops c k a r) where
  abbrev pub parted : Result Bytes → Result Bytes
  parted r = after_ops c k (((t1 ++ b1) ++ (at ++ (a1 ++ bt))) ++ ((t2 ++ b2) ++ ([] ++ a2))) r

  abbrev pub whole : Result Bytes → Result Bytes
  whole r = after_ops c k (at ++ (bt ++ ((t ++ b) ++ ([] ++ a)))) r

  parted-txs :
      (r : Result Bytes)
      → Leaves c b1
      → Leaves c b2
      → Leaves c b
      → Leaves c a1
      → Leaves c a2
      → Leaves c a
      → Leaves c at
      → Leaves c bt
      → parted r ≡ whole r
  unfolding after_ops
  parted-txs r hb1 hb2 hb ha1 ha2 ha hat hbt =
      simp (after_ops-append, hb1, hb2, hb, ha1, ha2, ha, hat, hbt) (ht r)

  parted-balances :
      (r : Result Bytes)
      → Leaves c t1
      → Leaves c t2
      → Leaves c t
      → Leaves c a1
      → Leaves c a2
      → Leaves c a
      → Leaves c at
      → Leaves c bt
      → parted r ≡ whole r
  unfolding after_ops
  parted-balances r ht1 ht2 ht ha1 ha2 ha hat hbt =
      simp (after_ops-append, ht1, ht2, ht, ha1, ha2, ha, hat, hbt) (hb r)

  parted-addresses :
      (r : Result Bytes)
      → Leaves c t1
      → Leaves c t2
      → Leaves c t
      → Leaves c b1
      → Leaves c b2
      → Leaves c b
      → Leaves c at
      → Leaves c bt
      → parted r ≡ whole r
  unfolding after_ops
  parted-addresses r ht1 ht2 ht hb1 hb2 hb hat hbt =
      simp (after_ops-append, ht1, ht2, ht, hb1, hb2, hb, hat, hbt) (ha r)

  parted-others :
      (r : Result Bytes)
      → Leaves c t1
      → Leaves c t2
      → Leaves c t
      → Leaves c b1
      → Leaves c b2
      → Leaves c b
      → Leaves c a1
      → Leaves c a2
      → Leaves c a
      → parted r ≡ whole r
  unfolding after_ops
  parted-others r ht1 ht2 ht hb1 hb2 hb ha1 ha2 ha =
      simp (after_ops-append, ht1, ht2, ht, hb1, hb2, hb, ha1, ha2, ha) refl

-- What is stored in parts, each group on its columns, is what is stored whole.
pub parted-whole :
    (c : Column) (k : Bytes) (t1 t2 t b1 b2 b a1 a2 a at bt : List Op)
    → ((r : Result Bytes) → after_ops c k t2 (after_ops c k t1 r) ≡ after_ops c k t r)
    → ((r : Result Bytes) → after_ops c k b2 (after_ops c k b1 r) ≡ after_ops c k b r)
    → ((r : Result Bytes) → after_ops c k a2 (after_ops c k a1 r) ≡ after_ops c k a r)
    → (same_column cf_tx_addresses c ≡ false → Leave c t1 t2 t)
    → (same_column cf_address_balance c ≡ false → Leave c b1 b2 b)
    → (same_column cf_addresses c ≡ false → same_column cf_height c ≡ false → Leave c a1 a2 a)
    → (same_column cf_block_txs c ≡ false → Leaves c at × Leaves c bt)
    → (r : Result Bytes)
    → after_ops c k (((t1 ++ b1) ++ (at ++ (a1 ++ bt))) ++ ((t2 ++ b2) ++ ([] ++ a2))) r
      ≡ after_ops c k (at ++ (bt ++ ((t ++ b) ++ ([] ++ a)))) r
parted-whole cf_height k t1 t2 t b1 b2 b a1 a2 a at bt ht hb ha tl bl al xl r =
    let (l1, l2, l3) = tl refl in
    let (m1, m2, m3) = bl refl in
    let (x1, x2) = xl refl in
    parted-addresses cf_height k t1 t2 t b1 b2 b a1 a2 a at bt ht hb ha r l1 l2 l3 m1 m2 m3 x1 x2
parted-whole cf_addresses k t1 t2 t b1 b2 b a1 a2 a at bt ht hb ha tl bl al xl r =
    let (l1, l2, l3) = tl refl in
    let (m1, m2, m3) = bl refl in
    let (x1, x2) = xl refl in
    parted-addresses cf_addresses k t1 t2 t b1 b2 b a1 a2 a at bt ht hb ha r l1 l2 l3 m1 m2 m3 x1 x2
parted-whole cf_block_txs k t1 t2 t b1 b2 b a1 a2 a at bt ht hb ha tl bl al xl r =
    let (l1, l2, l3) = tl refl in
    let (m1, m2, m3) = bl refl in
    let (n1, n2, n3) = al refl refl in
    parted-others cf_block_txs k t1 t2 t b1 b2 b a1 a2 a at bt ht hb ha r l1 l2 l3 m1 m2 m3 n1 n2 n3
parted-whole cf_transactions k t1 t2 t b1 b2 b a1 a2 a at bt ht hb ha tl bl al xl r =
    let (l1, l2, l3) = tl refl in
    let (m1, m2, m3) = bl refl in
    let (n1, n2, n3) = al refl refl in
    parted-others cf_transactions k t1 t2 t b1 b2 b a1 a2 a at bt ht hb ha r l1 l2 l3 m1 m2 m3 n1 n2
      n3
parted-whole cf_address_balance k t1 t2 t b1 b2 b a1 a2 a at bt ht hb ha tl bl al xl r =
    let (l1, l2, l3) = tl refl in
    let (n1, n2, n3) = al refl refl in
    let (x1, x2) = xl refl in
    parted-balances cf_address_balance k t1 t2 t b1 b2 b a1 a2 a at bt ht hb ha r l1 l2 l3 n1 n2 n3
      x1 x2
parted-whole cf_tx_addresses k t1 t2 t b1 b2 b a1 a2 a at bt ht hb ha tl bl al xl r =
    let (m1, m2, m3) = bl refl in
    let (n1, n2, n3) = al refl refl in
    let (x1, x2) = xl refl in
    parted-txs cf_tx_addresses k t1 t2 t b1 b2 b a1 a2 a at bt ht hb ha r m1 m2 m3 n1 n2 n3 x1 x2
