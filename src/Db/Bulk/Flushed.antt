-- ===== src/Db/Bulk/Flushed.antt =====
-- db/bulkconnect.go: the addresses of the blocks, stored now or later, and the data for disconnection.
use mathlib.Core.Path.{subst}
use skyr_block_explorer.Prelude.{
  ℕ, zero, suc, ◌-◌, ◌%◌, ◌^◌, ◌≡◌, refl, sym, ap, ◌∙◌, Bool, true, false, ◌||◌, List, [], ◌∷◌,
  ◌++◌, append-nil, ltb, Option, none, some,
}
use skyr_block_explorer.Prelude.Bytes.{Bytes}
use skyr_block_explorer.Prelude.Result.{
  Result, ok, err, panic, ◌>>=◌, Ensures, Ensures-bind, Ensures-after,
}
use skyr_block_explorer.Chain.{Block}
use skyr_block_explorer.Db.Keys.{pack_uint}
use skyr_block_explorer.Db.BlockTxs.{block_txs_of}
use skyr_block_explorer.Db.Connect.{Column, Env, cf_block_txs, cf_addresses, cf_height}
use skyr_block_explorer.Db.Store.{
  Op, put_cf, delete_cf, cleanup_from, cleanup_block_txs, store_and_cleanup_block_txs,
}
use skyr_block_explorer.Db.Store.Batch.{same_column, after_op, after_ops}
use skyr_block_explorer.Db.Ethereum.Process.{EthBlockTx}
use skyr_block_explorer.Db.Ethereum.Connect.{
  EthEnv, cleanup_eth_from, cleanup_eth_block_txs, store_and_cleanup_block_txs_ethereum_type,
}
use skyr_block_explorer.Db.Bulk.{
  BulkConnect, max_bulk_addresses, store_bulk_addresses, flush_addresses, if_stored,
}
use skyr_block_explorer.Db.Bulk.Pending.{Leaves, Leaves-append, store_bulk_addresses-Leaves}

nothing-Leaves : (c : Column) → Leaves c []
unfolding after_ops
nothing-Leaves c k r = refl

module _ (e : EthEnv) where
  open e use {env}

  -- What is stored of the addresses, now and at the end.
  pub record Flushed (b b' : BulkConnect) (ops : List Op) : Type 0 where
    pub heap : b'.heap ≡ b.heap
    pub tx_addresses_map : b'.tx_addresses_map ≡ b.tx_addresses_map
    pub balances : b'.balances ≡ b.balances
    pub address_contracts : b'.address_contracts ≡ b.address_contracts
    pub addresses :
        (now later : List Op × ℕ)
        → store_bulk_addresses e b.bulk_addresses b.best_height ≡ ok now
        → store_bulk_addresses e b'.bulk_addresses b'.best_height ≡ ok later
        → ops ++ later.0 ≡ now.0
    pub leaves :
        (c : Column)
        → same_column cf_addresses c ≡ false
        → same_column cf_height c ≡ false
        → Leaves c ops

  emptied_addresses :
      (b : BulkConnect) (r : Result (List Op × ℕ))
      → store_bulk_addresses e b.bulk_addresses b.best_height ≡ r
      → Ensures
          (λ (x : BulkConnect × List Op). Flushed b x.0 x.1)
          (do
            (ops, best) ← r
            ok (
              record b { bulk_addresses = []; bulk_addresses_count = 0; best_height = best },
              ops,
            ))
  unfolding store_bulk_addresses
  emptied_addresses b (ok (ops, best)) q = record {
    heap = refl;
    tx_addresses_map = refl;
    balances = refl;
    address_contracts = refl;
    addresses = λ now later p l.
        let none_left : ok ([], best) ≡ ok later = l in
        let e1 : (ops, best) ≡ now = cc (q, p) in
        let e2 : ([], best) ≡ later = cc in
        ap (λ (x : List Op × ℕ). ops ++ x.0) (sym e2)
        ∙ append-nil ops
        ∙ ap (λ (x : List Op × ℕ). x.0) e1;
    leaves = λ c n h.
        subst (Ensures (λ (x : List Op × ℕ). Leaves c x.0)) q
          (store_bulk_addresses-Leaves e c b.bulk_addresses b.best_height n h);
  }
  emptied_addresses b (err x) q = tt
  emptied_addresses b panic q = tt

  pub flush_addresses-Flushed :
      (sa : Bool) (b : BulkConnect)
      → Ensures (λ (r : BulkConnect × List Op). Flushed b r.0 r.1) (flush_addresses e sa b)
  unfolding flush_addresses
  flush_addresses-Flushed sa b = go (sa || ltb max_bulk_addresses b.bulk_addresses_count)
    where
      go :
          (t : Bool)
          → Ensures
              (λ (r : BulkConnect × List Op). Flushed b r.0 r.1)
              (elim t [
                | false ↦ ok (b, [])
                | true ↦ do
                  (ops, best) ← store_bulk_addresses e b.bulk_addresses b.best_height
                  ok (
                    record b { bulk_addresses = []; bulk_addresses_count = 0; best_height = best },
                    ops,
                  )
              ])
      go true = emptied_addresses b (store_bulk_addresses e b.bulk_addresses b.best_height) refl
      go false = record {
        heap = refl;
        tx_addresses_map = refl;
        balances = refl;
        address_contracts = refl;
        addresses = λ now later p q.
            let same : now ≡ later = cc (p, q) in ap (λ (x : List Op × ℕ). x.0) (sym same);
        leaves = λ c n h. nothing-Leaves c;
      }

-- A put or a deletion of another column.
deletion-Leaves :
    (c : Column) (k : Bytes)
    → same_column cf_block_txs c ≡ false
    → Leaves c (delete_cf cf_block_txs k ∷ [])
unfolding after_ops after_op
deletion-Leaves c k n j r = rw n refl

put-Leaves :
    (c : Column) (k val : Bytes)
    → same_column cf_block_txs c ≡ false
    → Leaves c (put_cf cf_block_txs k val ∷ [])
unfolding after_ops after_op
put-Leaves c k val n j r = rw n refl

module _ (c : Column) (n : same_column cf_block_txs c ≡ false) where
  deleted :
      (k : Bytes) (r : Result (List Op))
      → Ensures (Leaves c) r
      → Ensures (Leaves c) (do rest ← r; ok (delete_cf cf_block_txs k ∷ rest))
  deleted k r h =
      Ensures-bind (Leaves c) (Leaves c) r (λ rest. ok (delete_cf cf_block_txs k ∷ rest)) h
        λ rest l. Leaves-append c (delete_cf cf_block_txs k ∷ []) rest (deletion-Leaves c k n) l

  chosen :
      (b : Bool) (x y : Result (List Op))
      → Ensures (Leaves c) x
      → Ensures (Leaves c) y
      → Ensures (Leaves c) (elim b [ true ↦ x | false ↦ y ])
  chosen true x y hx hy = hx
  chosen false x y hx hy = hy

  cleanup_from-Leaves : (env : Env) (h : ℕ) → Ensures (Leaves c) (cleanup_from env h)
  unfolding cleanup_from
  cleanup_from-Leaves env zero = nothing-Leaves c
  cleanup_from-Leaves env (suc h) =
      let later = deleted (pack_uint (suc h)) (cleanup_from env h) (cleanup_from-Leaves env h) in
      Ensures-after (Leaves c) (env.get_cf cf_block_txs (pack_uint (suc h))) _ λ val.
        Ensures-bind (Leaves c) (Leaves c) _ (λ rest. ok rest)
          (chosen (env.has_cf cf_block_txs (pack_uint (suc h))) _ (ok []) later (nothing-Leaves c))
          (λ rest l. l)

  cleanup_eth_from-Leaves : (e : EthEnv) (h : ℕ) → Ensures (Leaves c) (cleanup_eth_from e h)
  unfolding cleanup_eth_from
  cleanup_eth_from-Leaves e zero = nothing-Leaves c
  cleanup_eth_from-Leaves e (suc h) =
      let later =
        deleted (pack_uint (suc h)) (cleanup_eth_from e h) (cleanup_eth_from-Leaves e h) in
      Ensures-after (Leaves c) (e.get_data cf_block_txs (pack_uint (suc h))) _ (found later)
    where
      found :
          Ensures
            (Leaves c)
            (do rest ← cleanup_eth_from e h; ok (delete_cf cf_block_txs (pack_uint (suc h)) ∷ rest))
          → (val : Option Bytes)
          → Ensures (Leaves c) (elim val [
            | none ↦ ok []
            | some _ ↦ (do
              rest ← cleanup_eth_from e h
              ok (delete_cf cf_block_txs (pack_uint (suc h)) ∷ rest))
          ])
      found later none = nothing-Leaves c
      found later (some x) = later

  -- What is kept for the disconnection leaves the other columns.
  abbrev Both : List Op × List Op → Type 0
  Both r = Leaves c r.0 × Leaves c r.1

  stored_one :
      (flag : Bool) (r : Result (Op × List Op))
      → Ensures (λ (x : Op × List Op). Leaves c (x.0 ∷ []) × Leaves c x.1) r
      → Ensures Both (if_stored flag r)
  unfolding if_stored
  stored_one false r h = (nothing-Leaves c, nothing-Leaves c)
  stored_one true r h =
      Ensures-bind (λ (x : Op × List Op). Leaves c (x.0 ∷ []) × Leaves c x.1) Both r _ h (λ x l. l)

  pub block_txs-Leaves :
      (env : Env) (flag : Bool) (block : Block)
      → Ensures Both (if_stored flag (store_and_cleanup_block_txs env block))
  unfolding store_and_cleanup_block_txs cleanup_block_txs
  block_txs-Leaves env flag block = stored_one flag (store_and_cleanup_block_txs env block) (
      Ensures-after _ (block_txs_of env.parser block.txs) _ λ bts.
        Ensures-bind (Leaves c) _ (cleanup_block_txs env block) _
          (chosen (ltb (env.parser.keep_block_addresses % 2 ^ 32) block.height) _ _
            (cleanup_from-Leaves env (block.height - env.parser.keep_block_addresses % 2 ^ 32))
            (nothing-Leaves c))
          λ at_once l. (put-Leaves c (pack_uint block.height) _ n, l))

  pub eth_block_txs-Leaves :
      (e : EthEnv) (flag : Bool) (block : Block) (block_txs : List EthBlockTx)
      → Ensures Both (if_stored flag (store_and_cleanup_block_txs_ethereum_type e block block_txs))
  unfolding store_and_cleanup_block_txs_ethereum_type cleanup_eth_block_txs
  eth_block_txs-Leaves e flag block block_txs =
      stored_one flag (store_and_cleanup_block_txs_ethereum_type e block block_txs) (
        Ensures-bind (Leaves c) _ (cleanup_eth_block_txs e block) _
          (chosen (ltb (e.env.parser.keep_block_addresses % 2 ^ 32) block.height) _ _
            (cleanup_eth_from-Leaves e (block.height - e.env.parser.keep_block_addresses % 2 ^ 32))
            (nothing-Leaves c))
          λ at_once l. (put-Leaves c (pack_uint block.height) _ n, l))
