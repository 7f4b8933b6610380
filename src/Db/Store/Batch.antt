-- ===== src/Db/Store/Batch.antt =====
-- What the data base holds after a batch is written: the batch is gone through in its order.
use skyr_block_explorer.Prelude.{
  ℕ, ◌≡◌, refl, sym, ap, ◌∙◌, Bool, true, false, ◌&&◌, Option, none, some, List, [], ◌∷◌, ◌++◌,
  arith, ◌==◌, if◌then◌else◌, Bool-cases, inl, inr,
}
use skyr_block_explorer.Prelude.Bytes.{Bytes, bytes_eq, bytes_eq_iff}
use skyr_block_explorer.Prelude.GoMap.{GoMap, lookup, Distinct}
use skyr_block_explorer.Prelude.Result.{Result, ok}
use skyr_block_explorer.Db.Connect.{
  Column, cf_height, cf_addresses, cf_block_txs, cf_transactions, cf_address_balance,
  cf_tx_addresses,
}
use skyr_block_explorer.Db.Store.{Op, put_cf, delete_cf, put_or_delete, ops_of}

abbrev column_number : Column → ℕ
column_number cf_height = 1
column_number cf_addresses = 2
column_number cf_block_txs = 3
column_number cf_transactions = 4
column_number cf_address_balance = 5
column_number cf_tx_addresses = 6

abbrev pub same_column : Column → Column → Bool
same_column c d = column_number c == column_number d

same_column_refl : (c : Column) → same_column c c ≡ true
same_column_refl c = ground arith

-- What a key of a column gives behind one operation, and behind a batch.
unfoldable pub after_op : Column → Bytes → Op → Result Bytes → Result Bytes
after_op c k (put_cf d j val) r = if same_column d c && bytes_eq j k then ok val else r
after_op c k (delete_cf d j) r = if same_column d c && bytes_eq j k then ok [] else r

unfoldable pub after_ops : Column → Bytes → List Op → Result Bytes → Result Bytes
after_ops c k [] r = r
after_ops c k (op ∷ ops) r = after_ops c k ops (after_op c k op r)

-- `d.db.Write(d.wo, wb)`, as RocksDB documents it.
pub record Writes (ops : List Op) (before after : Column → Bytes → Result Bytes) : Type 0 where
  pub get : (c : Column) (k : Bytes) → after c k ≡ after_ops c k ops (before c k)

pub after_ops-append :
    (c : Column) (k : Bytes) (a b : List Op) (r : Result Bytes)
    → after_ops c k (a ++ b) r ≡ after_ops c k b (after_ops c k a r)
unfolding after_ops
after_ops-append c k [] b r = refl
after_ops-append c k (op ∷ a) b r = after_ops-append c k a b (after_op c k op r)

-- The bytes that are left at a key by its operation.
abbrev pub left_by : Option Bytes → Result Bytes
left_by none = ok []
left_by (some val) = ok val

after_put_or_delete :
    (c d : Column) (k j : Bytes) (o : Option Bytes) (r : Result Bytes)
    → after_op c k (put_or_delete d j o) r
      ≡ (if same_column d c && bytes_eq j k then left_by o else r)
unfolding after_op put_or_delete
after_put_or_delete c d k j none r = refl
after_put_or_delete c d k j (some val) r = refl

module _ {V : Type 0} (f : V → Option Bytes) where
  after_ops-step :
      (c d : Column) (k j : Bytes) (x : V) (m : GoMap V) (r : Result Bytes)
      → after_ops c k (ops_of d f ((j, x) ∷ m)) r
        ≡ after_ops c k
            (ops_of d f m)
            (if same_column d c && bytes_eq j k then left_by (f x) else r)
  unfolding after_ops ops_of
  after_ops-step c d k j x m r =
      ap (after_ops c k (ops_of d f m)) (after_put_or_delete c d k j (f x) r)

  -- A map that is stored leaves at each of its keys the value of the key, and nothing else changes.
  pub after_ops-ops_of :
      (c : Column) (k : Bytes) (m : GoMap V) (r : Result Bytes)
      → Distinct m
      → after_ops c k (ops_of c f m) r ≡ (elim (lookup k m) [ none ↦ r | some x ↦ left_by (f x) ])
  after_ops-ops_of c k [] r h = unfold after_ops ops_of lookup in refl
  after_ops-ops_of c k ((j, x) ∷ m) r h = elim (Bool-cases (bytes_eq j k)) [
    | inl s ↦
        let e : j ≡ k = (bytes_eq_iff j k).0 s in
        let n : lookup k m ≡ none = ap (λ q. lookup q m) (sym e) ∙ h.0 in
        let found : lookup k ((j, x) ∷ m) ≡ some x = unfold lookup in rw s refl in
        after_ops-step c c k j x m r
        ∙ rw (same_column_refl c, s)
            (after_ops-ops_of c k m (left_by (f x)) h.1 ∙ rw (n, found) refl)
    | inr s ↦
        let other : lookup k ((j, x) ∷ m) ≡ lookup k m = unfold lookup in rw s refl in
        after_ops-step c c k j x m r
        ∙ rw (same_column_refl c, s) (after_ops-ops_of c k m r h.1 ∙ rw other refl)
  ]

  pub after_ops-others :
      (c d : Column) (k : Bytes) (m : GoMap V) (r : Result Bytes)
      → same_column d c ≡ false
      → after_ops c k (ops_of d f m) r ≡ r
  after_ops-others c d k [] r h = unfold after_ops ops_of in refl
  after_ops-others c d k ((j, x) ∷ m) r h =
      after_ops-step c d k j x m r ∙ rw h (after_ops-others c d k m r h)
