-- ===== src/Db/TxIndexes/Counted.antt =====
-- db/rocksdb.go, addToAddressesMap: on what it collects.
use mathlib.Core.Path.{subst}
use skyr_block_explorer.Prelude.{
  ◌≡◌, refl, sym, ap, ◌∙◌, Bool, true, false, ◌&&◌, none, some, List, [], ◌∷◌, ◌++◌, arith,
  if◌then◌else◌, Option-cases, Bool-cases, inl, inr,
}
use skyr_block_explorer.Prelude.Int.{ℤ}
use skyr_block_explorer.Prelude.Bytes.{Bytes, bytes_eq, bytes_eq_iff}
use skyr_block_explorer.Prelude.GoMap.{insert, lookup-insert, Distinct, Distinct-insert}
use skyr_block_explorer.Db.Types.{TxIndexes}
use skyr_block_explorer.Db.TxIndexes.{AddressesMap, append_index, slice_at, add_to_addresses_map}

-- Whether a transaction is in the slice of an address, and its indexes.
unfoldable pub has_tx : Bytes → List TxIndexes → Bool
has_tx id [] = false
has_tx id (t ∷ ts) = if bytes_eq id t.btx_id then true else has_tx id ts

unfoldable pub indexes_of : Bytes → List TxIndexes → List ℤ
indexes_of id [] = []
indexes_of id (t ∷ ts) = if bytes_eq id t.btx_id then t.indexes else indexes_of id ts

append_index-none :
    (id : Bytes) (index : ℤ) (ts : List TxIndexes)
    → append_index id index ts ≡ none
    → has_tx id ts ≡ false
unfolding append_index has_tx
append_index-none id index [] h = refl
append_index-none id index (t ∷ ts) h = ground (arith, append_index-none id index ts)

append_index-some :
    (id j : Bytes) (index : ℤ) (ts : List TxIndexes) {us : List TxIndexes}
    → append_index id index ts ≡ some us
    → (has_tx id ts ≡ true)
      × (indexes_of j us
          ≡ (if bytes_eq id j then indexes_of j ts ++ index ∷ [] else indexes_of j ts))
unfolding append_index has_tx indexes_of
append_index-some id j index [] h = cc
append_index-some id j index (t ∷ ts) h = elim (Option-cases (append_index id index ts)) [
  | inl n ↦ ground (arith, n, bytes_eq_iff id t.btx_id, bytes_eq_iff j t.btx_id, bytes_eq_iff id j)
  | inr (r, s) ↦ ground (
    arith,
    s,
    append_index-some id j index ts s,
    bytes_eq_iff id t.btx_id,
    bytes_eq_iff j t.btx_id,
    bytes_eq_iff id j,
  )
]

indexes_of-new :
    (id j : Bytes) (index : ℤ) (ts : List TxIndexes)
    → has_tx id ts ≡ false
    → indexes_of j (ts ++ record { btx_id = id; indexes = index ∷ [] } ∷ [])
      ≡ (if bytes_eq id j then indexes_of j ts ++ index ∷ [] else indexes_of j ts)
unfolding has_tx indexes_of
indexes_of-new id j index [] h = ground (arith, bytes_eq_iff id j, bytes_eq_iff j id)
indexes_of-new id j index (t ∷ ts) h = ground (
  arith,
  indexes_of-new id j index ts,
  bytes_eq_iff id t.btx_id,
  bytes_eq_iff j t.btx_id,
  bytes_eq_iff id j,
)

slice_at-insert :
    (k q : Bytes) (us : List TxIndexes) (m : AddressesMap)
    → slice_at q (insert k us m) ≡ (if bytes_eq k q then us else slice_at q m)
unfolding slice_at
slice_at-insert k q us m = ground (arith, lookup-insert k q us m)

-- Adding an index of a transaction to an address says whether the transaction was there before,
-- puts the index behind the indexes of that transaction at that address, and changes the indexes of
-- no other transaction and at no other address.
pub add_to_addresses_map_lem :
    (m : AddressesMap) (k id : Bytes) (index : ℤ)
    → ((add_to_addresses_map m k id index).1 ≡ has_tx id (slice_at k m))
      × ((q j : Bytes)
          → indexes_of j (slice_at q (add_to_addresses_map m k id index).0) ≡ (
              if bytes_eq k q && bytes_eq id j
              then indexes_of j (slice_at q m) ++ index ∷ []
              else indexes_of j (slice_at q m)))
unfolding add_to_addresses_map
add_to_addresses_map_lem m k id index = elim (Option-cases (append_index id index (slice_at k m))) [
  | inl n ↦
      let e = append_index-none id index (slice_at k m) n in
      rw (n, add_to_addresses_map)
        (sym e, λ q j. at q j _ (indexes_of-new id j index (slice_at k m) e))
  | inr (us, s) ↦
      rw (s, add_to_addresses_map)
        (
          sym (append_index-some id id index (slice_at k m) s).0,
          λ q j. at q j us (append_index-some id j index (slice_at k m) s).1,
        )
]
  where
    at :
        (q j : Bytes) (us : List TxIndexes)
        → indexes_of j us ≡ (
            if bytes_eq id j
            then indexes_of j (slice_at k m) ++ index ∷ []
            else indexes_of j (slice_at k m))
        → indexes_of j (slice_at q (insert k us m)) ≡ (
            if bytes_eq k q && bytes_eq id j
            then indexes_of j (slice_at q m) ++ index ∷ []
            else indexes_of j (slice_at q m))
    at q j us e = elim (Bool-cases (bytes_eq k q)) [
      | inl same ↦
          let p : k ≡ q = (bytes_eq_iff k q).0 same in
          rw (slice_at-insert k q us m, same) (e ∙ ap (λ x. choose (slice_at x m)) p)
      | inr other ↦ rw (slice_at-insert k q us m, other) refl
    ]
      where
        choose : List TxIndexes → List ℤ
        choose ts = if bytes_eq id j then indexes_of j ts ++ index ∷ [] else indexes_of j ts

-- The keys of the map stay distinct.
pub add_to_addresses_map-Distinct :
    (m : AddressesMap) (k id : Bytes) (index : ℤ)
    → Distinct m
    → Distinct (add_to_addresses_map m k id index).0
unfolding add_to_addresses_map
add_to_addresses_map-Distinct m k id index d =
    elim (Option-cases (append_index id index (slice_at k m))) [
      | inl n ↦
          let new = slice_at k m ++ record { btx_id = id; indexes = index ∷ [] } ∷ [] in
          let same : insert k new m ≡ (add_to_addresses_map m k id index).0 =
            rw (n, add_to_addresses_map) refl in
          subst Distinct same (Distinct-insert m k new d)
      | inr (at, e) ↦
          let same : insert k at m ≡ (add_to_addresses_map m k id index).0 =
            rw (e, add_to_addresses_map) refl in
          subst Distinct same (Distinct-insert m k at d)
    ]
