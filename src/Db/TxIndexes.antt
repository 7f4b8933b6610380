-- ===== src/Db/TxIndexes.antt =====
-- db/rocksdb.go, packTxIndexes, the reading of its records in GetAddrDescTransactions, and
-- addToAddressesMap.
pub mod RoundTrip
pub mod Counted
pub mod Scan
use mathlib.Core.List.{reverse}
use skyr_block_explorer.Prelude.{
  ℕ, zero, suc, ◌+◌, Bool, true, false, Option, none, some, List, [], ◌∷◌, ◌++◌, length, ltb, ◌==◌,
  if◌then◌else◌,
}
use skyr_block_explorer.Prelude.Int.{ℤ, shl1, or1, and1, shr1}
use skyr_block_explorer.Prelude.Bytes.{Bytes, bytes_eq, slice_from}
use skyr_block_explorer.Prelude.GoMap.{GoMap, lookup, insert}
use skyr_block_explorer.Db.Vlq.{Vlq, pack_varint32, unpack_varint32}
use skyr_block_explorer.Db.Reader.{◌>>=◌, read_bytes}
use skyr_block_explorer.Db.Types.{TxIndexes}

module _ (v : Vlq) where
  -- Every index is shifted, and the last one has the low bit set.
  pub pack_indexes : List ℤ → Bytes
  pack_indexes [] = []
  pack_indexes (i ∷ []) = pack_varint32 v (or1 (shl1 i))
  pack_indexes (i ∷ j ∷ is) = pack_varint32 v (shl1 i) ++ pack_indexes (j ∷ is)

  pub pack_each : List TxIndexes → Bytes
  pack_each [] = []
  pack_each (t ∷ ts) = t.btx_id ++ (pack_indexes t.indexes ++ pack_each ts)

  -- The transactions are stored in reverse order, from the newest to the oldest.
  unfoldable pub pack_tx_indexes : List TxIndexes → Bytes
  unfolding pack_indexes pack_each
  pack_tx_indexes txi = pack_each (reverse txi)

  -- The loop over the indexes of one transaction: what it collects, and what is left of `val`. Data
  -- that end without a last index end the loop too. `none` is a panic or the end of the fuel.
  pub unpack_indexes : ℕ → Bytes → Option (List ℤ × Bytes)
  unpack_indexes zero val = none
  unpack_indexes (suc fuel) val = do
    (index, l) ← unpack_varint32 v val
    val ← slice_from val l
    elim (and1 index == 1) [
      | true ↦ some (shr1 index ∷ [], val)
      | false ↦ elim (length val == 0) [
        | true ↦ some (shr1 index ∷ [], val)
        | false ↦ do (indexes, val) ← unpack_indexes fuel val; some (shr1 index ∷ indexes, val)
      ]
    ]

abbrev pub AddressesMap : Type 0
AddressesMap = GoMap (List TxIndexes)

-- The slice with the index appended to the first record of the transaction, if there is one.
unfoldable pub append_index : Bytes → ℤ → List TxIndexes → Option (List TxIndexes)
append_index btx_id index [] = none
append_index btx_id index (t ∷ ts) =
    if bytes_eq btx_id t.btx_id
    then some (record t { indexes = t.indexes ++ index ∷ [] } ∷ ts)
    else (elim (append_index btx_id index ts) [ none ↦ none | some ts' ↦ some (t ∷ ts') ])

-- What stands in the map for an address that is not there is the empty slice.
unfoldable pub slice_at : Bytes → AddressesMap → List TxIndexes
slice_at k m = elim (lookup k m) [ none ↦ [] | some at ↦ at ]

unfoldable pub add_to_addresses_map : AddressesMap → Bytes → Bytes → ℤ → AddressesMap × Bool
add_to_addresses_map addresses str_addr_desc btx_id index =
    let at = slice_at str_addr_desc addresses in
    elim (append_index btx_id index at) [
      | some at' ↦ (insert str_addr_desc at' addresses, true)
      | none ↦ (
        insert str_addr_desc (at ++ record { btx_id = btx_id; indexes = index ∷ [] } ∷ [])
            addresses,
        false,
      )
    ]
