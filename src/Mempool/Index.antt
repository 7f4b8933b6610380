-- ===== src/Mempool/Index.antt =====
-- The two maps of the mempool agree: what keeps them so.
pub mod Removal
use skyr_block_explorer.Prelude.{
  ◌≡◌, refl, sym, ap, ◌∙◌, ◌≢◌, Bool, true, false, ◌&&◌, Option, none, some, List, [], ◌∷◌, ◌++◌,
  append-nil, append_assoc, length, arith, ltb, ◌==◌, if◌then◌else◌, Bool-cases, Option-cases, inl,
  inr,
}
use skyr_block_explorer.Prelude.Int.{ℤ}
use skyr_block_explorer.Prelude.Bytes.{Bytes, bytes_eq, bytes_eq_iff}
use skyr_block_explorer.Prelude.GoMap.{
  GoMap, lookup, insert, delete, lookup-insert, lookup-delete, Distinct, Distinct-insert,
  Distinct-delete,
}
use skyr_block_explorer.Prelude.Result.{Returns, Returns-bind, Returns-weaken}
use skyr_block_explorer.Chain.{Outpoint}
use skyr_block_explorer.Mempool.{
  AddrIndex, TxEntry, Mempool, outpoints_at, without, put_back, remove_index, remove_indexes,
  remove_entry_from_mempool, add_index, add_indexes, on_new_entry,
}

-- The output indexes of a transaction among outpoints, in their order.
unfoldable pub of_tx : Bytes → List Outpoint → List ℤ
of_tx txid [] = []
of_tx txid (o ∷ os) =
    let rest = of_tx txid os in if bytes_eq o.txid txid then o.vout ∷ rest else rest

-- The output indexes of a descriptor among those of an entry, in their order.
unfoldable pub at_desc : Bytes → List AddrIndex → List ℤ
at_desc d [] = []
at_desc d (si ∷ sis) =
    let rest = at_desc d sis in if bytes_eq si.addr_desc d then si.n ∷ rest else rest

abbrev pub entry_at : Bytes → Option TxEntry → List ℤ
entry_at d none = []
entry_at d (some e) = at_desc d e.addr_indexes

abbrev pub is_empty : List Outpoint → Bool
is_empty [] = true
is_empty (o ∷ os) = false

-- An address lists, of each transaction, the indexes that its entry has for the address, and nothing
-- else; no address has an empty list.
pub record IsConsistent (m : Mempool) : Type 0 where
  pub listed :
      (d txid : Bytes)
      → of_tx txid (outpoints_at d m.addr_desc_to_tx) ≡ entry_at d (lookup txid m.tx_entries)
  pub not_empty : (d : Bytes) → lookup d m.addr_desc_to_tx ≢ some []
  pub distinct : Distinct m.tx_entries

of_tx-append : (q : Bytes) (xs ys : List Outpoint) → of_tx q (xs ++ ys) ≡ of_tx q xs ++ of_tx q ys
unfolding of_tx
of_tx-append q [] ys = refl
of_tx-append q (o ∷ os) ys = ground (arith, of_tx-append q os ys)

outpoints_at-insert :
    (k d : Bytes) (os : List Outpoint) (m : GoMap (List Outpoint))
    → outpoints_at d (insert k os m) ≡ (if bytes_eq k d then os else outpoints_at d m)
unfolding outpoints_at
outpoints_at-insert k d os m = ground (arith, lookup-insert k d os m)

of_tx-one :
    (q txid : Bytes) (n : ℤ)
    → of_tx q (record { txid = txid; vout = n } ∷ []) ≡ (if bytes_eq txid q then n ∷ [] else [])
unfolding of_tx
of_tx-one q txid n = refl

of_tx-add_index :
    (txid q d : Bytes) (si : AddrIndex) (m : GoMap (List Outpoint))
    → of_tx q (outpoints_at d (add_index txid si m))
      ≡ of_tx q (outpoints_at d m) ++ (if bytes_eq txid q then at_desc d (si ∷ []) else [])
unfolding add_index at_desc
of_tx-add_index txid q d si m = elim (Bool-cases (bytes_eq si.addr_desc d)) [
  | inr n ↦ rw (outpoints_at-insert, n) (ground (arith, append-nil (of_tx q (outpoints_at d m))))
  | inl y ↦
      let e : si.addr_desc ≡ d = (bytes_eq_iff si.addr_desc d).0 y in
      rw (outpoints_at-insert, y)
        (of_tx-append q (outpoints_at si.addr_desc m) (record { txid = txid; vout = si.n } ∷ [])
          ∙ rw (e, of_tx-one q txid si.n) refl)
]

at_desc-cons :
    (d : Bytes) (si : AddrIndex) (sis : List AddrIndex)
    → at_desc d (si ∷ sis) ≡ at_desc d (si ∷ []) ++ at_desc d sis
unfolding at_desc
at_desc-cons d si sis = ground arith

of_tx-add_indexes :
    (txid q d : Bytes) (sis : List AddrIndex) (m : GoMap (List Outpoint))
    → of_tx q (outpoints_at d (add_indexes txid sis m))
      ≡ of_tx q (outpoints_at d m) ++ (if bytes_eq txid q then at_desc d sis else [])
of_tx-add_indexes txid q d [] m =
    unfold add_indexes at_desc in ground (arith, append-nil (of_tx q (outpoints_at d m)))
of_tx-add_indexes txid q d (si ∷ sis) m =
    let step : of_tx q (outpoints_at d (add_indexes txid (si ∷ sis) m))
        ≡ of_tx q (outpoints_at d (add_indexes txid sis (add_index txid si m))) =
      unfold add_indexes in refl in
    step
    ∙ of_tx-add_indexes txid q d sis (add_index txid si m)
    ∙ elim (Bool-cases (bytes_eq txid q)) [
      | inl y ↦
          rw (of_tx-add_index txid q d si m, y)
            (append_assoc (of_tx q (outpoints_at d m)) (at_desc d (si ∷ [])) (at_desc d sis)
              ∙ ap (λ t. of_tx q (outpoints_at d m) ++ t) (sym (at_desc-cons d si sis)))
      | inr n ↦ rw (of_tx-add_index txid q d si m, n) (append-nil _)
    ]

snoc-not_empty : (os : List Outpoint) (o : Outpoint) → is_empty (os ++ o ∷ []) ≡ false
snoc-not_empty [] o = refl
snoc-not_empty (p ∷ os) o = refl

lookup-add_index-not_empty :
    (txid : Bytes) (si : AddrIndex) (m : GoMap (List Outpoint))
    → ((d : Bytes) → lookup d m ≢ some [])
    → (d : Bytes) → lookup d (add_index txid si m) ≢ some []
unfolding add_index
lookup-add_index-not_empty txid si m h d = elim (Bool-cases (bytes_eq si.addr_desc d)) [
  | inl y ↦
      rw (lookup-insert, y)
        λ e.
          let f =
            snoc-not_empty (outpoints_at si.addr_desc m) (record { txid = txid; vout = si.n }) in
          cc (e, f)
  | inr n ↦ rw (lookup-insert, n) (h d)
]

not_empty-add_indexes :
    (txid : Bytes) (sis : List AddrIndex) (m : GoMap (List Outpoint))
    → ((d : Bytes) → lookup d m ≢ some [])
    → (d : Bytes) → lookup d (add_indexes txid sis m) ≢ some []
unfolding add_indexes
not_empty-add_indexes txid [] m h d = h d
not_empty-add_indexes txid (si ∷ sis) m h d =
    not_empty-add_indexes txid sis (add_index txid si m) (lookup-add_index-not_empty txid si m h) d

-- If the two maps of the mempool agree and a transaction has no entry, then they agree behind
-- storing an entry for it.
pub on_new_entry-IsConsistent :
    (txid : Bytes) (entry : TxEntry) (m : Mempool)
    → IsConsistent m
    → lookup txid m.tx_entries ≡ none
    → IsConsistent (on_new_entry txid entry m)
unfolding on_new_entry
on_new_entry-IsConsistent txid entry m w h = elim (Bool-cases (ltb 0 (length entry.addr_indexes))) [
  | inr e ↦ rw (e, on_new_entry) w
  | inl e ↦
      rw (e, on_new_entry)
        (record {
          listed = here;
          not_empty = not_empty-add_indexes txid entry.addr_indexes m.addr_desc_to_tx w.not_empty;
          distinct = Distinct-insert m.tx_entries txid entry w.distinct;
        })
]
  where
    here :
        (d q : Bytes)
        → of_tx q (outpoints_at d (add_indexes txid entry.addr_indexes m.addr_desc_to_tx))
          ≡ entry_at d (lookup q (insert txid entry m.tx_entries))
    here d q =
        of_tx-add_indexes txid q d entry.addr_indexes m.addr_desc_to_tx
        ∙ elim (Bool-cases (bytes_eq txid q)) [
          | inl y ↦
              let same : txid ≡ q = (bytes_eq_iff txid q).0 y in
              let old : of_tx q (outpoints_at d m.addr_desc_to_tx) ≡ [] =
                w.listed d q
                ∙ ap (λ t. entry_at d (lookup t m.tx_entries)) (sym same)
                ∙ ap (entry_at d) h in
              rw (lookup-insert txid q entry m.tx_entries, y, old) refl
          | inr n ↦
              rw (lookup-insert txid q entry m.tx_entries, n)
                (append-nil (of_tx q (outpoints_at d m.addr_desc_to_tx)) ∙ w.listed d q)
        ]
