-- ===== src/Db/Store/Parts.antt =====
-- db/rocksdb.go, ConnectBlock: the parts of its batch, and which columns they touch.
use skyr_block_explorer.Prelude.{ℕ, ◌≡◌, refl, ap, ◌∙◌, false, List, [], ◌∷◌, ◌++◌}
use skyr_block_explorer.Prelude.Bytes.{Bytes}
use skyr_block_explorer.Prelude.GoMap.{GoMap}
use skyr_block_explorer.Prelude.Result.{
  Result, ok, Ensures, Ensures-bind, Ensures-after, Ensures-refl,
}
use skyr_block_explorer.Chain.{Block}
use skyr_block_explorer.Db.Vlq.{Vlq}
use skyr_block_explorer.Db.Types.{TxAddresses}
use skyr_block_explorer.Db.TxIndexes.{AddressesMap}
use skyr_block_explorer.Db.BlockInfo.{pack_block_info}
use skyr_block_explorer.Db.BlockTxs.{block_txs_of}
use skyr_block_explorer.Db.Connect.{
  Column, Env, ConnectBlockStats, Maps, cf_height, cf_addresses, cf_block_txs,
}
use skyr_block_explorer.Db.Connect.Process.{process_addresses_bitcoin_type}
use skyr_block_explorer.Db.Store.{
  Op, Written, put_cf, op_insert, empty_maps, follow, not_nil, store_addresses, store_tx_addresses,
  store_balances, write_height_from_block, write_height, cleanup_block_txs,
  store_and_cleanup_block_txs, connect_block,
}
use skyr_block_explorer.Db.Store.Batch.{same_column, after_op, after_ops, after_ops-append}

-- An operation that does not touch a column.
abbrev pub LeavesColumn : Column → Op → Type 0
LeavesColumn c op = (k : Bytes) (r : Result Bytes) → after_op c k op r ≡ r

put_cf-LeavesColumn :
    (c d : Column) (j val : Bytes) → same_column d c ≡ false → LeavesColumn c (put_cf d j val)
unfolding after_op
put_cf-LeavesColumn c d j val n k r = rw n refl

pub after_store_addresses_others :
    (v : Vlq) (c : Column) (height : ℕ) (m : AddressesMap) (k : Bytes) (r : Result Bytes)
    → same_column cf_addresses c ≡ false
    → after_ops c k (store_addresses v height m) r ≡ r
unfolding after_ops store_addresses
after_store_addresses_others v c height [] k r n = refl
after_store_addresses_others v c height ((j, txi) ∷ m) k r n =
    ap (after_ops c k (store_addresses v height m)) (put_cf-LeavesColumn c cf_addresses _ _ n k r)
    ∙ after_store_addresses_others v c height m k r n

-- A batch of the shape that ConnectBlock builds, by its parts.
pub after_shape :
    (c : Column) (k : Bytes) (op1 op2 : Op) (a b d : List Op) (r : Result Bytes)
    → LeavesColumn c op1
    → LeavesColumn c op2
    → after_ops c k (op1 ∷ (a ++ (b ++ (op2 ∷ d)))) r
      ≡ after_ops c k d (after_ops c k b (after_ops c k a r))
after_shape c k op1 op2 a b d r h1 h2 =
    let tail = b ++ (op2 ∷ d) in
    let first : after_ops c k (op1 ∷ (a ++ tail)) r ≡ after_ops c k (a ++ tail) r =
      unfold after_ops in ap (after_ops c k (a ++ tail)) (h1 k r) in
    let ra = after_ops c k a r in
    let rb = after_ops c k b ra in
    let second : after_ops c k (op2 ∷ d) rb ≡ after_ops c k d rb =
      unfold after_ops in ap (after_ops c k d) (h2 k rb) in
    first ∙ after_ops-append c k a tail r ∙ after_ops-append c k b (op2 ∷ d) ra ∙ second

module _ (env : Env) where
  open env use {vlq, parser}

  pub record Parts (block : Block) (cbs : ConnectBlockStats) (w : Written) : Type 0 where
    pub maps : Maps
    pub tas : GoMap TxAddresses
    pub height_op : Op
    pub block_op : Op
    pub maps_eq : process_addresses_bitcoin_type env block (empty_maps cbs) ≡ ok maps
    pub tas_eq : follow maps.heap maps.tx_addresses_map ≡ ok tas
    pub height_leaves : (c : Column) → same_column cf_height c ≡ false → LeavesColumn c height_op
    pub block_leaves : (c : Column) → same_column cf_block_txs c ≡ false → LeavesColumn c block_op
    pub batch_eq :
        w.batch
        ≡ height_op
          ∷ (store_tx_addresses vlq tas
              ++ (store_balances vlq (not_nil maps.balances)
                  ++ (block_op ∷ store_addresses vlq block.height maps.addresses)))

  pub height_op-Leaves :
      (block : Block)
      → Ensures
          (λ r. (c : Column) → same_column cf_height c ≡ false → LeavesColumn c r.0)
          (write_height_from_block env block op_insert)
  unfolding write_height_from_block write_height
  height_op-Leaves block =
      Ensures-after
        (λ (r : Op × ℕ). (c : Column) → same_column cf_height c ≡ false → LeavesColumn c r.0)
        (pack_block_info vlq parser _) _ (λ val c n. put_cf-LeavesColumn c cf_height _ val n)

  block_leaves :
      (block : Block)
      → Ensures
          (λ r. (c : Column) → same_column cf_block_txs c ≡ false → LeavesColumn c r.0)
          (store_and_cleanup_block_txs env block)
  unfolding store_and_cleanup_block_txs
  block_leaves block =
      let P = λ (r : Op × List Op).
        (c : Column) → same_column cf_block_txs c ≡ false → LeavesColumn c r.0 in
      Ensures-after P (block_txs_of parser block.txs) _ λ bts.
        Ensures-after P (cleanup_block_txs env block) _
          (λ at_once c n. put_cf-LeavesColumn c cf_block_txs _ _ n)

  pub connect_block-Parts :
      (block : Block) (cbs : ConnectBlockStats)
      → Ensures (Parts block cbs) (connect_block env block cbs)
  unfolding connect_block
  connect_block-Parts block cbs =
      let P = Parts block cbs in
      Ensures-bind
        (λ (r : Op × ℕ). (c : Column) → same_column cf_height c ≡ false → LeavesColumn c r.0) P
        (write_height_from_block env block op_insert) _ (height_op-Leaves block)
        λ h hh.
          Ensures-bind (λ m. process_addresses_bitcoin_type env block (empty_maps cbs) ≡ ok m) P
            (process_addresses_bitcoin_type env block (empty_maps cbs)) _
            (Ensures-refl (process_addresses_bitcoin_type env block (empty_maps cbs)))
            λ m e.
              Ensures-bind (λ tas. follow m.heap m.tx_addresses_map ≡ ok tas) P
                (follow m.heap m.tx_addresses_map) _
                (Ensures-refl (follow m.heap m.tx_addresses_map))
                λ tas f.
                  Ensures-bind
                    (λ (r : Op × List Op).
                      (c : Column) → same_column cf_block_txs c ≡ false → LeavesColumn c r.0)
                    P (store_and_cleanup_block_txs env block) _ (block_leaves block)
                    λ b hb. record {
                      maps = m;
                      tas = tas;
                      height_op = h.0;
                      block_op = b.0;
                      maps_eq = e;
                      tas_eq = f;
                      height_leaves = hh;
                      block_leaves = hb;
                      batch_eq = refl;
                    }
