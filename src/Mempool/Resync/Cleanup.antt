-- ===== src/Mempool/Resync/Cleanup.antt =====
-- bchain/mempool_bitcoin_type.go, Resync: the removal at its end, and the resync as a whole.
use skyr_block_explorer.Prelude.{
  ℕ, ◌≤◌, ◌≡◌, refl, sym, ap, ◌∙◌, true, false, Option, none, some, List, [], ◌∷◌, arith,
  if◌then◌else◌, Bool-cases, Option-cases, inl, inr,
}
use skyr_block_explorer.Prelude.Bytes.{Bytes, bytes_eq, bytes_eq_iff, bytes_eq_refl}
use skyr_block_explorer.Prelude.GoMap.{GoMap, lookup, Distinct}
use skyr_block_explorer.Prelude.Result.{Returns, Returns-bind, Returns-weaken}
use skyr_block_explorer.Mempool.{AddrIndex, TxEntry, Mempool, remove_entry_from_mempool}
use skyr_block_explorer.Mempool.Index.{IsConsistent}
use skyr_block_explorer.Mempool.Index.Removal.{remove_entry_from_mempool-IsConsistent}
use skyr_block_explorer.Mempool.Resync.{Sync, start, Reach, is_listed, remove_missing, IsFinished}
use skyr_block_explorer.Mempool.Resync.Counts.{count, Reach-flying, start-flying}
use skyr_block_explorer.Mempool.Resync.Progress.{
  expected, after_sync, Inv, Reach-Inv, start-Inv, finished-done,
}

-- What is left of an entry when the entries `es` have been gone through.
abbrev kept : List Bytes → GoMap TxEntry → Mempool → Bytes → Option TxEntry
kept txs es m q =
    if is_listed q txs
    then lookup q m.tx_entries
    else elim (lookup q es) [ none ↦ lookup q m.tx_entries | some e ↦ none ]

AreOf : GoMap TxEntry → Mempool → Type 0
AreOf es m = (q : Bytes) (e : TxEntry) → lookup q es ≡ some e → lookup q m.tx_entries ≡ some e

AreOf-tail :
    (txid : Bytes) (entry : TxEntry) (es : GoMap TxEntry) (m : Mempool)
    → Distinct ((txid, entry) ∷ es)
    → AreOf ((txid, entry) ∷ es) m
    → (q : Bytes) (e : TxEntry) → lookup q es ≡ some e
    → (bytes_eq txid q ≡ false) × (lookup q m.tx_entries ≡ some e)
unfolding AreOf lookup
AreOf-tail txid entry es m d h q e k = elim (Bool-cases (bytes_eq txid q)) [
  | inl y ↦
      let same : txid ≡ q = (bytes_eq_iff txid q).0 y in
      let gone : lookup q es ≡ none = ap (λ t. lookup t es) (sym same) ∙ d.0 in
      absurd (cc (gone, k))
  | inr n ↦ (n, h q e (rw n k))
]

kept-listed :
    (txs : List Bytes) (txid : Bytes) (entry : TxEntry) (es : GoMap TxEntry) (m : Mempool)
    → is_listed txid txs ≡ true
    → (q : Bytes) → kept txs es m q ≡ kept txs ((txid, entry) ∷ es) m q
unfolding lookup
kept-listed txs txid entry es m h q = elim (Bool-cases (bytes_eq txid q)) [
  | inl y ↦
      let here : is_listed q txs ≡ true =
        ap (λ t. is_listed t txs) (sym ((bytes_eq_iff txid q).0 y)) ∙ h in
      rw here refl
  | inr n ↦ rw n refl
]

kept-removed :
    (txs : List Bytes) (txid : Bytes) (entry : TxEntry) (es : GoMap TxEntry) (m m1 : Mempool)
    → is_listed txid txs ≡ false
    → lookup txid es ≡ none
    → ((q : Bytes)
        → lookup q m1.tx_entries ≡ (if bytes_eq txid q then none else lookup q m.tx_entries))
    → (q : Bytes) → kept txs es m1 q ≡ kept txs ((txid, entry) ∷ es) m q
unfolding lookup
kept-removed txs txid entry es m m1 h d r q = elim (Bool-cases (bytes_eq txid q)) [
  | inl y ↦
      let same : txid ≡ q = (bytes_eq_iff txid q).0 y in
      let here : is_listed q txs ≡ false = ap (λ t. is_listed t txs) (sym same) ∙ h in
      let nil : lookup q es ≡ none = ap (λ t. lookup t es) (sym same) ∙ d in
      let gone : lookup q m1.tx_entries ≡ none = r q ∙ rw y refl in rw (here, y, nil, gone) refl
  | inr n ↦
      let left : lookup q m1.tx_entries ≡ lookup q m.tx_entries = r q ∙ rw n refl in
      elim (Option-cases (lookup q es)) [
        | inl k ↦ rw (n, k, left) refl
        | inr (e, k) ↦ rw (n, k, left) refl
      ]
]

remove_missing-kept :
    (txs : List Bytes) (es : GoMap TxEntry) (m : Mempool)
    → IsConsistent m
    → Distinct es
    → AreOf es m
    → Returns
        (λ m'. IsConsistent m' × ((q : Bytes) → lookup q m'.tx_entries ≡ kept txs es m q))
        (remove_missing txs es m)
unfolding remove_missing AreOf lookup
remove_missing-kept txs [] m c d h = (c, λ q. ground arith)
remove_missing-kept txs ((txid, entry) ∷ es) m c d h = elim (Bool-cases (is_listed txid txs)) [
  | inl y ↦
      rw (y, remove_missing)
        (Returns-weaken _ _ (remove_missing txs es m)
          (remove_missing-kept txs es m c d.1 (λ q e k. (AreOf-tail txid entry es m d h q e k).1))
          (λ m' r. (r.0, λ q. r.1 q ∙ kept-listed txs txid entry es m y q)))
  | inr n ↦
      rw (n, remove_missing)
        (Returns-bind _ _ (remove_entry_from_mempool txid entry m) _
          (remove_entry_from_mempool-IsConsistent txid entry m c
            (h txid entry (rw (bytes_eq_refl txid) refl)))
          (λ m1 r1.
            Returns-weaken _ _ (remove_missing txs es m1)
              (remove_missing-kept txs es m1 r1.0 d.1 (λ q e k.
                let old = AreOf-tail txid entry es m d h q e k in r1.1 q ∙ rw (old.0) (old.1)))
              (λ m' r. (r.0, λ q. r.1 q ∙ kept-removed txs txid entry es m m1 n d.0 r1.1 q))))
]

AreOf-all : (m : Mempool) → AreOf m.tx_entries m
unfolding AreOf
AreOf-all m q e k = k

kept-all :
    (txs : List Bytes) (m : Mempool) (q : Bytes)
    → kept txs m.tx_entries m q ≡ (if is_listed q txs then lookup q m.tx_entries else none)
kept-all txs m q = elim (Option-cases (lookup q m.tx_entries)) [
  | inl n ↦ ground (arith, n)
  | inr (e, k) ↦ ground (arith, k)
]

-- The removal returns, the maps stay in agreement, and what is left are the entries of the listed
-- transactions.
pub remove_missing-IsConsistent :
    (txs : List Bytes) (m : Mempool)
    → IsConsistent m
    → Returns
        (λ m'.
          IsConsistent m'
          × ((q : Bytes)
              → lookup q m'.tx_entries ≡ (if is_listed q txs then lookup q m.tx_entries else none)))
        (remove_missing txs m.tx_entries m)
remove_missing-IsConsistent txs m c =
    Returns-weaken _ _ (remove_missing txs m.tx_entries m)
      (remove_missing-kept txs m.tx_entries m c c.distinct (AreOf-all m))
      (λ m' r. (r.0, λ q. r.1 q ∙ kept-all txs m q))

-- In whatever order the workers answer: if the two maps of the mempool agree and no transaction
-- stands twice in the list of the backend, then at a finished state of the loop of a resync the
-- removal returns, the maps agree again, and a transaction has an entry just if the backend lists
-- it, the entry that it had or otherwise the new one if the worker gave addresses.
pub Reach-remove_missing :
    (io : Bytes → List AddrIndex) (tx_time : ℕ) (m : Mempool) (txs : List Bytes) (workers : ℕ)
    (s : Sync)
    → IsConsistent m
    → ((q : Bytes) → count q txs ≤ 1)
    → Reach io tx_time (start m txs workers) s
    → IsFinished s
    → Returns
        (λ m'.
          IsConsistent m'
          × ((q : Bytes)
              → lookup q m'.tx_entries
                ≡ (if is_listed q txs then expected io tx_time m q else none)))
        (remove_missing txs s.mempool.tx_entries s.mempool)
Reach-remove_missing io tx_time m txs workers s c h r f =
    let w : Inv io tx_time m txs s =
      Reach-Inv io tx_time m txs r (start-Inv io tx_time m txs workers c h) in
    let flown = Reach-flying io tx_time r (start-flying m txs workers) in
    Returns-weaken _ _ (remove_missing txs s.mempool.tx_entries s.mempool)
      (remove_missing-IsConsistent txs s.mempool w.consistent)
      (λ m' t. (
        t.0,
        λ q. t.1 q ∙ elim (Bool-cases (is_listed q txs)) [
          | inr n ↦ rw n refl
          | inl y ↦
              rw y (w.done q (finished-done io tx_time m txs f flown q) ∙ rw (y, after_sync) refl)
        ],
      ))
