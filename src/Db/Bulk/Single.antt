-- ===== src/Db/Bulk/Single.antt =====
-- db/bulkconnect.go and db/rocksdb.go: one block connected in bulk, and by ConnectBlock.
use mathlib.Core.Path.{subst}
use skyr_block_explorer.Prelude.{
  ℕ, ◌≡◌, refl, sym, ap, ◌∙◌, true, false, some, List, [], ◌∷◌, ◌++◌, All, get_elem?, Option-cases,
  inl, inr,
}
use skyr_block_explorer.Prelude.Bytes.{Bytes}
use skyr_block_explorer.Prelude.GoMap.{GoMap}
use skyr_block_explorer.Prelude.Result.{
  Result, ok, Ensures, Ensures-bind, Ensures-refl, Returns, Returns-ok,
}
use skyr_block_explorer.Chain.{Block, bitcoin_type}
use skyr_block_explorer.Db.Types.{TxAddresses}
use skyr_block_explorer.Db.TxAddresses.{pack_tx_addresses}
use skyr_block_explorer.Db.Connect.{
  Column, Maps, ConnectBlockStats, cf_tx_addresses, cf_address_balance, cf_addresses, cf_height,
  cf_block_txs, cf_transactions,
}
use skyr_block_explorer.Db.Connect.Process.{process_addresses_bitcoin_type}
use skyr_block_explorer.Db.Connect.Invariant.{IsSound}
use skyr_block_explorer.Db.Connect.Process.Sound.{
  PaysAmounts, process_addresses_bitcoin_type-IsSound,
}
use skyr_block_explorer.Db.Store.Connected.{empty_maps-IsSound}
use skyr_block_explorer.Db.Store.{
  Op, Written, op_insert, empty_maps, follow, not_nil, store_addresses, store_tx_addresses,
  tx_addresses_value, store_balances, put_or_delete, ops_of, write_height_from_block, write_height,
  store_and_cleanup_block_txs,
}
use skyr_block_explorer.Db.Store
use skyr_block_explorer.Db.Store.Batch.{same_column, after_ops, after_ops-append}
use skyr_block_explorer.Db.Ethereum.Connect.{EthEnv}
use skyr_block_explorer.Db.Bulk.{
  Connected, written, init_bulk_connect, block_addresses, tx_addresses_ops, tx_addresses_at,
  balances_ops, store_bulk_addresses, if_stored, connect_block_bitcoin_type, close,
}
use skyr_block_explorer.Db.Bulk.Pending.{
  Leaves, tx_addresses_ops-Leaves, balances_ops-Leaves, store_addresses-Leaves, write_height-Leaves,
}
use skyr_block_explorer.Db.Bulk.Flushed.{block_txs-Leaves}
use skyr_block_explorer.Db.Bulk.Closing.{uncut, store_all-bitcoin}
use skyr_block_explorer.Db.Bulk.Written.{connect_block_bitcoin_type-close}

-- The two orders of a batch.
module _ (c : Column) (k : Bytes) (r : Result Bytes) (at : List Op) (o h : Op)
    (t b a : List Op) where
  -- On a column that one of the groups touches, the others leave it.
  abbrev SameOrder : Type 0
  SameOrder =
      after_ops c k (at ++ ((o ∷ []) ++ ((t ++ b) ++ (a ++ ((h ∷ []) ++ []))))) r
      ≡ after_ops c k (at ++ ((h ∷ []) ++ (t ++ (b ++ ((o ∷ []) ++ a))))) r

  order_txs :
      Leaves c at → Leaves c (o ∷ []) → Leaves c (h ∷ []) → Leaves c b → Leaves c a → SameOrder
  order_txs hat ho hh hb ha =
      simp (after_ops-append, hat, ho, hh, hb, ha) (unfold after_ops in refl)

  order_balances :
      Leaves c at → Leaves c (o ∷ []) → Leaves c (h ∷ []) → Leaves c t → Leaves c a → SameOrder
  order_balances hat ho hh hb ha =
      simp (after_ops-append, hat, ho, hh, hb, ha) (unfold after_ops in refl)

  order_heights : Leaves c at → Leaves c (o ∷ []) → Leaves c t → Leaves c b → Leaves c a → SameOrder
  order_heights hat ho hh hb ha =
      simp (after_ops-append, hat, ho, hh, hb, ha) (unfold after_ops in refl)

  order_addresses :
      Leaves c at → Leaves c (o ∷ []) → Leaves c (h ∷ []) → Leaves c t → Leaves c b → SameOrder
  order_addresses hat ho hh hb ha =
      simp (after_ops-append, hat, ho, hh, hb, ha) (unfold after_ops in refl)

  order_block_txs : Leaves c (h ∷ []) → Leaves c t → Leaves c b → Leaves c a → SameOrder
  order_block_txs ho hh hb ha = simp (after_ops-append, ho, hh, hb, ha) (unfold after_ops in refl)

same_order :
    (c : Column) (k : Bytes) (r : Result Bytes) (at : List Op) (o h : Op) (t b a : List Op)
    → (same_column cf_tx_addresses c ≡ false → Leaves c t)
    → (same_column cf_address_balance c ≡ false → Leaves c b)
    → (same_column cf_addresses c ≡ false → Leaves c a)
    → (same_column cf_height c ≡ false → Leaves c (h ∷ []))
    → (same_column cf_block_txs c ≡ false → Leaves c at × Leaves c (o ∷ []))
    → SameOrder c k r at o h t b a
same_order cf_height k r at o h t b a tl bl al hl xl =
    order_heights cf_height k r at o h t b a (xl refl).0 (xl refl).1 (tl refl) (bl refl) (al refl)
same_order cf_addresses k r at o h t b a tl bl al hl xl =
    order_addresses cf_addresses k r at o h t b a (xl refl).0 (xl refl).1 (hl refl) (tl refl)
      (bl refl)
same_order cf_block_txs k r at o h t b a tl bl al hl xl =
    order_block_txs cf_block_txs k r at o h t b a (hl refl) (tl refl) (bl refl) (al refl)
same_order cf_transactions k r at o h t b a tl bl al hl xl =
    order_block_txs cf_transactions k r at o h t b a (hl refl) (tl refl) (bl refl) (al refl)
same_order cf_address_balance k r at o h t b a tl bl al hl xl =
    order_balances cf_address_balance k r at o h t b a (xl refl).0 (xl refl).1 (hl refl) (tl refl)
      (al refl)
same_order cf_tx_addresses k r at o h t b a tl bl al hl xl =
    order_txs cf_tx_addresses k r at o h t b a (xl refl).0 (xl refl).1 (hl refl) (bl refl) (al refl)

module _ (e : EthEnv) where
  open e use {env}
  open env use {vlq, parser}

  at_found :
      (heap : List TxAddresses) (ref : ℕ) (ta : TxAddresses)
      → get_elem? heap ref ≡ some ta
      → tx_addresses_at e heap ref ≡ some (pack_tx_addresses vlq ta)
  unfolding tx_addresses_at
  at_found heap ref ta s = rw (tx_addresses_at, s) refl

  -- The pointers followed first, or when they are packed.
  followed :
      (heap : List TxAddresses) (m : GoMap ℕ)
      → Ensures (λ tas. store_tx_addresses vlq tas ≡ tx_addresses_ops e heap m) (follow heap m)
  unfolding follow store_tx_addresses tx_addresses_ops ops_of tx_addresses_value tx_addresses_at
  followed heap [] = refl
  followed heap ((k, ref) ∷ m) = elim (Option-cases (get_elem? heap ref)) [
    | inl n ↦ rw n tt
    | inr (ta, s) ↦ rw s (
        Ensures-bind (λ tas. store_tx_addresses vlq tas ≡ tx_addresses_ops e heap m)
          (λ tas. store_tx_addresses vlq tas ≡ tx_addresses_ops e heap ((k, ref) ∷ m))
          (follow heap m) _ (followed heap m)
          (λ tas q.
            ap (λ l. put_or_delete cf_tx_addresses k (some (pack_tx_addresses vlq ta)) ∷ l) q
            ∙ ap (λ o. put_or_delete cf_tx_addresses k o ∷ tx_addresses_ops e heap m)
                (sym (at_found heap ref ta s))))
  ]

  -- The parts of the batch of ConnectBlock.
  record Shape (block : Block) (cbs : ConnectBlockStats) (w : Written) : Type 0 where
    height_op : Op × ℕ
    maps : Maps
    block_txs : Op × List Op
    height_eq : write_height_from_block env block op_insert ≡ ok height_op
    maps_eq : process_addresses_bitcoin_type env block (empty_maps cbs) ≡ ok maps
    block_txs_eq : store_and_cleanup_block_txs env block ≡ ok block_txs
    at_once_eq : w.at_once ≡ block_txs.1
    batch_eq :
        w.batch
        ≡ (height_op.0 ∷ [])
          ++ (tx_addresses_ops e maps.heap maps.tx_addresses_map
              ++ (balances_ops e maps.balances
                  ++ ((block_txs.0 ∷ []) ++ store_addresses vlq block.height maps.addresses)))

  connect_block-Shape :
      (block : Block) (cbs : ConnectBlockStats)
      → Ensures (Shape block cbs) (Store.connect_block env block cbs)
  unfolding Store.connect_block balances_ops
  connect_block-Shape block cbs =
      let P = Shape block cbs in
      Ensures-bind (λ h. write_height_from_block env block op_insert ≡ ok h) P
        (write_height_from_block env block op_insert) _
        (Ensures-refl (write_height_from_block env block op_insert))
        λ h qh.
          Ensures-bind (λ m. process_addresses_bitcoin_type env block (empty_maps cbs) ≡ ok m) P
            (process_addresses_bitcoin_type env block (empty_maps cbs)) _
            (Ensures-refl (process_addresses_bitcoin_type env block (empty_maps cbs)))
            λ m qm.
              Ensures-bind
                (λ tas. store_tx_addresses vlq tas ≡ tx_addresses_ops e m.heap m.tx_addresses_map) P
                (follow m.heap m.tx_addresses_map) _ (followed m.heap m.tx_addresses_map)
                λ tas qt.
                  Ensures-bind (λ b. store_and_cleanup_block_txs env block ≡ ok b) P
                    (store_and_cleanup_block_txs env block) _
                    (Ensures-refl (store_and_cleanup_block_txs env block))
                    λ b qb. record {
                      height_op = h;
                      maps = m;
                      block_txs = b;
                      height_eq = qh;
                      maps_eq = qm;
                      block_txs_eq = qb;
                      at_once_eq = refl;
                      batch_eq = rw qt refl;
                    }

  -- What Close would write of the block alone.
  uncut-close :
      (block : Block) (cbs : ConnectBlockStats) (best : ℕ) (m : Maps) (h : Op × ℕ)
      → parser.get_chain_type ≡ bitcoin_type
      → write_height_from_block env block op_insert ≡ ok h
      → Returns
          (λ y.
            written y
            ≡ (tx_addresses_ops e m.heap m.tx_addresses_map ++ balances_ops e m.balances)
              ++ (store_addresses vlq block.height m.addresses ++ ((h.0 ∷ []) ++ [])))
          (close e (uncut (init_bulk_connect cbs best) block m))
  unfolding close init_bulk_connect store_bulk_addresses write_height_from_block block_addresses
  uncut-close block cbs best m h t q =
      rw q (rw (store_all-bitcoin e (uncut (init_bulk_connect cbs best) block m) t) refl)

  height_op-Leaves :
      (block : Block) (c : Column) (h : Op × ℕ)
      → write_height_from_block env block op_insert ≡ ok h
      → same_column cf_height c ≡ false
      → Leaves c (h.0 ∷ [])
  unfolding write_height_from_block
  height_op-Leaves block c h q n =
      subst (Ensures (λ (v : Op × ℕ). Leaves c (v.0 ∷ []))) q
        (write_height-Leaves e c block.height _ n)

  -- If a block of the Bitcoin type, whose outputs have no negative amounts, is connected by
  -- ConnectBlock, and connected as the first block of a bulk connection with its data for
  -- disconnection, which is then closed, then what the two have written, the deletions at once
  -- included, leaves the same at every key of every column.
  pub connect_block_bitcoin_type-single :
      (block : Block) (cbs : ConnectBlockStats) (best : ℕ) (m : Maps) (w : Written)
      (c z : Connected)
      → parser.get_chain_type ≡ bitcoin_type
      → process_addresses_bitcoin_type env block (empty_maps cbs) ≡ ok m
      → All PaysAmounts block.txs
      → Store.connect_block env block cbs ≡ ok w
      → connect_block_bitcoin_type e (init_bulk_connect cbs best) block true ≡ ok c
      → close e c.bulk ≡ ok z
      → (col : Column) (k : Bytes) (r : Result Bytes)
      → after_ops col k (written c ++ written z) r ≡ after_ops col k (w.at_once ++ w.batch) r
  unfolding init_bulk_connect
  connect_block_bitcoin_type-single block cbs best m w c z t qm pays qw qc qz col k r =
      let sound : IsSound m = subst (Ensures IsSound) qm (
        process_addresses_bitcoin_type-IsSound env block (empty_maps cbs) pays
          (empty_maps-IsSound cbs)) in
      let s = subst (Ensures (Shape block cbs)) qw (connect_block-Shape block cbs) in
      let same : s.maps ≡ m = cc (s.maps_eq, qm) in
      let (y, qy, wy) =
        Returns-ok _ (close e (uncut (init_bulk_connect cbs best) block m))
          (uncut-close block cbs best m s.height_op t s.height_eq) in
      let qt : if_stored true (store_and_cleanup_block_txs env block)
          ≡ ok (s.block_txs.0 ∷ [], s.block_txs.1) =
        unfold if_stored in rw s.block_txs_eq refl in
      connect_block_bitcoin_type-close e (init_bulk_connect cbs best) block true m c z y
        (s.block_txs.0 ∷ []) s.block_txs.1 t qm sound.keys qt qc qz qy col k r
      ∙ rw (wy, s.at_once_eq, s.batch_eq, same)
          (same_order col k r s.block_txs.1 s.block_txs.0 s.height_op.0
            (tx_addresses_ops e m.heap m.tx_addresses_map) (balances_ops e m.balances)
            (store_addresses vlq block.height m.addresses)
            (tx_addresses_ops-Leaves e col m.heap m.tx_addresses_map)
            (balances_ops-Leaves e col m.balances)
            (store_addresses-Leaves e col block.height m.addresses)
            (λ n. height_op-Leaves block col s.height_op s.height_eq n)
            (λ n.
              let l =
                subst (Ensures (λ (v : List Op × List Op). Leaves col v.0 × Leaves col v.1)) qt
                  (block_txs-Leaves col n env true block) in
              (l.1, l.0)))
