-- ===== src/Mempool/Index/Removal.antt =====
-- bchain/basemempool.go, removeEntryFromMempool: the maps stay in agreement.
use skyr_block_explorer.Prelude.{
  ◌≡◌, refl, sym, ap, ◌∙◌, ◌≢◌, Bool, true, false, ◌&&◌, none, some, List, [], ◌∷◌, length, arith,
  ◌==◌, if◌then◌else◌, Bool-cases, Option-cases, inl, inr,
}
use skyr_block_explorer.Prelude.Bytes.{Bytes, bytes_eq, bytes_eq_iff}
use skyr_block_explorer.Prelude.GoMap.{
  GoMap, lookup, delete, lookup-insert, lookup-delete, Distinct-delete,
}
use skyr_block_explorer.Prelude.Result.{Returns, Returns-bind, Returns-weaken}
use skyr_block_explorer.Chain.{Outpoint}
use skyr_block_explorer.Mempool.{
  AddrIndex, TxEntry, Mempool, outpoints_at, without, put_back, remove_index, remove_indexes,
  remove_entry_from_mempool,
}
use skyr_block_explorer.Mempool.Index.{of_tx, at_desc, entry_at, IsConsistent}

-- Removing: what is left of each transaction at each address.
of_tx-without :
    (txid q : Bytes) (os : List Outpoint)
    → of_tx q (without txid os) ≡ (if bytes_eq txid q then [] else of_tx q os)
unfolding of_tx without
of_tx-without txid q [] = ground arith
of_tx-without txid q (o ∷ os) = ground (
  arith,
  of_tx-without txid q os,
  bytes_eq_iff o.txid txid,
  bytes_eq_iff txid q,
  bytes_eq_iff o.txid q,
)

outpoints_at-put_back :
    (k d : Bytes) (os : List Outpoint) (m : GoMap (List Outpoint))
    → outpoints_at d (put_back k os m) ≡ (if bytes_eq k d then os else outpoints_at d m)
unfolding outpoints_at put_back
outpoints_at-put_back k d [] m = ground (arith, lookup-delete k d m)
outpoints_at-put_back k d (o ∷ os) m = ground (arith, lookup-insert k d (o ∷ os) m)

lookup-put_back-not_empty :
    (k : Bytes) (os : List Outpoint) (m : GoMap (List Outpoint))
    → ((d : Bytes) → lookup d m ≢ some [])
    → (d : Bytes) → lookup d (put_back k os m) ≢ some []
unfolding put_back
lookup-put_back-not_empty k [] m h d = elim (Bool-cases (bytes_eq k d)) [
  | inl y ↦ rw (lookup-delete k d m, y) λ e. cc e
  | inr n ↦ rw (lookup-delete k d m, n) (h d)
]
lookup-put_back-not_empty k (o ∷ os) m h d = elim (Bool-cases (bytes_eq k d)) [
  | inl y ↦ rw (lookup-insert k d (o ∷ os) m, y) λ e. cc e
  | inr n ↦ rw (lookup-insert k d (o ∷ os) m, n) (h d)
]

-- What the removal at the addresses `ds` gives: the transaction is gone there, and nothing else.
abbrev is_at : Bytes → List AddrIndex → Bool
is_at d [] = false
is_at d (si ∷ sis) = if bytes_eq si.addr_desc d then true else is_at d sis

record Removed (txid : Bytes) (sis : List AddrIndex) (m m' : GoMap (List Outpoint)) : Type 0 where
  left :
      (d q : Bytes)
      → of_tx q (outpoints_at d m')
        ≡ (if is_at d sis && bytes_eq txid q then [] else of_tx q (outpoints_at d m))
  not_empty : (d : Bytes) → lookup d m' ≢ some []

outpoints_at-some :
    (d : Bytes) (m : GoMap (List Outpoint)) {os : List Outpoint}
    → lookup d m ≡ some os
    → outpoints_at d m ≡ os
unfolding outpoints_at
outpoints_at-some d m e = rw (e, outpoints_at) refl

outpoints_at-none :
    (d : Bytes) (m : GoMap (List Outpoint)) → lookup d m ≡ none → outpoints_at d m ≡ []
unfolding outpoints_at
outpoints_at-none d m e = rw (e, outpoints_at) refl

remove_index-Removed :
    (txid : Bytes) (si : AddrIndex) (m : GoMap (List Outpoint))
    → ((d : Bytes) → lookup d m ≢ some [])
    → Returns (Removed txid (si ∷ []) m) (remove_index txid si m)
unfolding remove_index
remove_index-Removed txid si m h = elim (Option-cases (lookup si.addr_desc m)) [
  | inl n ↦
      rw (n, remove_index)
        (record {
          left = λ d q. elim (Bool-cases (bytes_eq si.addr_desc d)) [
            | inr other ↦ rw other refl
            | inl y ↦
                let e : si.addr_desc ≡ d = (bytes_eq_iff si.addr_desc d).0 y in
                let nil : outpoints_at d m ≡ [] =
                  outpoints_at-none d m (ap (λ t. lookup t m) (sym e) ∙ n) in
                rw (y, nil) (unfold of_tx in ground arith)
          ];
          not_empty = h;
        })
  | inr (os, e) ↦ found os e
]
  where
    left_of :
        (os : List Outpoint)
        → lookup si.addr_desc m ≡ some os
        → (d q : Bytes)
        → of_tx q (outpoints_at d (put_back si.addr_desc (without txid os) m))
          ≡ (if is_at d (si ∷ []) && bytes_eq txid q then [] else of_tx q (outpoints_at d m))
    left_of os e d q = elim (Bool-cases (bytes_eq si.addr_desc d)) [
      | inr n ↦ rw (outpoints_at-put_back, n) refl
      | inl y ↦
          let same : si.addr_desc ≡ d = (bytes_eq_iff si.addr_desc d).0 y in
          let here : outpoints_at d m ≡ os =
            outpoints_at-some d m (ap (λ t. lookup t m) (sym same) ∙ e) in
          rw (outpoints_at-put_back, y, here) (of_tx-without txid q os)
    ]

    found :
        (os : List Outpoint)
        → lookup si.addr_desc m ≡ some os
        → Returns (Removed txid (si ∷ []) m) (remove_index txid si m)
    found [] e = absurd (h si.addr_desc e)
    found (o ∷ os) e =
        let some_left : (length (o ∷ os) == 0) ≡ false = ground arith in
        rw (e, some_left, remove_index)
          (record {
            left = left_of (o ∷ os) e;
            not_empty = lookup-put_back-not_empty si.addr_desc (without txid (o ∷ os)) m h;
          })

Removed-trans :
    (txid : Bytes) (si : AddrIndex) (sis : List AddrIndex) (a b c : GoMap (List Outpoint))
    → Removed txid (si ∷ []) a b
    → Removed txid sis b c
    → Removed txid (si ∷ sis) a c
Removed-trans txid si sis a b c r s = record {
  left = λ d q. ground (arith, r.left d q, s.left d q);
  not_empty = s.not_empty;
}

remove_indexes-Removed :
    (txid : Bytes) (sis : List AddrIndex) (m : GoMap (List Outpoint))
    → ((d : Bytes) → lookup d m ≢ some [])
    → Returns (Removed txid sis m) (remove_indexes txid sis m)
unfolding remove_indexes
remove_indexes-Removed txid [] m h = record { left = λ d q. refl; not_empty = h }
remove_indexes-Removed txid (si ∷ sis) m h =
    Returns-bind (Removed txid (si ∷ []) m) (Removed txid (si ∷ sis) m) (remove_index txid si m) _
      (remove_index-Removed txid si m h)
      λ m1 r.
        Returns-weaken (Removed txid sis m1) (Removed txid (si ∷ sis) m)
          (remove_indexes txid sis m1) (remove_indexes-Removed txid sis m1 r.not_empty)
          (λ m2 s. Removed-trans txid si sis m m1 m2 r s)

at_desc-is_at : (d : Bytes) (sis : List AddrIndex) → is_at d sis ≡ false → at_desc d sis ≡ []
unfolding at_desc
at_desc-is_at d [] h = refl
at_desc-is_at d (si ∷ sis) h = ground (arith, at_desc-is_at d sis)

-- If the two maps of the mempool agree and a transaction has an entry, then removing it returns,
-- the maps agree again, and just its entry is gone.
pub remove_entry_from_mempool-IsConsistent :
    (txid : Bytes) (entry : TxEntry) (m : Mempool)
    → IsConsistent m
    → lookup txid m.tx_entries ≡ some entry
    → Returns
        (λ m'.
          IsConsistent m'
          × ((q : Bytes)
              → lookup q m'.tx_entries ≡ (if bytes_eq txid q then none else lookup q m.tx_entries)))
        (remove_entry_from_mempool txid entry m)
unfolding remove_entry_from_mempool
remove_entry_from_mempool-IsConsistent txid entry m w e =
    Returns-bind (Removed txid entry.addr_indexes m.addr_desc_to_tx) _
      (remove_indexes txid entry.addr_indexes m.addr_desc_to_tx) _
      (remove_indexes-Removed txid entry.addr_indexes m.addr_desc_to_tx w.not_empty)
      λ to_tx r. (
        record {
          listed = λ d q. r.left d q ∙ here d q;
          not_empty = r.not_empty;
          distinct = Distinct-delete m.tx_entries txid w.distinct;
        },
        λ q. lookup-delete txid q m.tx_entries,
      )
  where
    here :
        (d q : Bytes)
        → (if is_at d entry.addr_indexes && bytes_eq txid q
            then []
            else of_tx q (outpoints_at d m.addr_desc_to_tx))
          ≡ entry_at d (lookup q (delete txid m.tx_entries))
    here d q = elim (Bool-cases (bytes_eq txid q)) [
      | inr n ↦ rw (lookup-delete txid q m.tx_entries, n) (ground (arith, w.listed d q))
      | inl y ↦
          let same : txid ≡ q = (bytes_eq_iff txid q).0 y in
          let old : of_tx q (outpoints_at d m.addr_desc_to_tx) ≡ at_desc d entry.addr_indexes =
            w.listed d q
            ∙ ap (λ t. entry_at d (lookup t m.tx_entries)) (sym same)
            ∙ ap (entry_at d) e in
          rw (lookup-delete txid q m.tx_entries, y, old)
            (ground (arith, at_desc-is_at d entry.addr_indexes))
    ]
