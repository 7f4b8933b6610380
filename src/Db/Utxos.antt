-- ===== src/Db/Utxos.antt =====
-- db/rocksdb.go, hasUtxo, addUtxo and markUtxoAsSpent: the outputs that an address holds, with an
-- index by transaction once there are sixteen of them.
pub mod Index
pub mod Spend
use skyr_block_explorer.Prelude.{
  ℕ, zero, suc, ◌+◌, ◌-◌, Bool, true, false, ◌&&◌, Option, none, some, List, [], ◌∷◌, ◌++◌, length,
  get_elem?, leb, ltb, ◌==◌, if◌then◌else◌,
}
use skyr_block_explorer.Prelude.Int.{ℤ, pos, negsuc, eq_ℤ}
use skyr_block_explorer.Prelude.Bytes.{Bytes, bytes_eq}
use skyr_block_explorer.Prelude.GoMap.{GoMap, lookup, insert}
use skyr_block_explorer.Db.Types.{Utxo, AddrBalance}

-- The first index of each transaction stays in the map.
insert_new : Bytes → ℕ → GoMap ℕ → GoMap ℕ
insert_new id i m = elim (lookup id m) [ none ↦ insert id i m | some _ ↦ m ]

-- `for i := 0; i < l; i++`, with the index `i` of the first of the outputs.
index_all : ℕ → List Utxo → GoMap ℕ → GoMap ℕ
index_all i [] m = m
index_all i (u ∷ us) m = index_all (i + 1) us (insert_new u.btx_id i m)

unfoldable pub add_utxo : AddrBalance → Utxo → AddrBalance
unfolding insert_new index_all
add_utxo ab u =
    let utxos = ab.utxos ++ u ∷ [] in
    let l = length utxos in
    let m =
      if leb 16 l
      then (if length ab.utxos_map == 0
          then index_all 0 utxos []
          else insert_new u.btx_id (l - 1) ab.utxos_map)
      else ab.utxos_map in
    record ab { utxos = utxos; utxos_map = m }

unfoldable pub same_outpoint : Bytes → ℤ → Utxo → Bool
same_outpoint btx_id vout u = bytes_eq u.btx_id btx_id && eq_ℤ u.vout vout

unfoldable pub any_utxo : Bytes → ℤ → List Utxo → Bool
any_utxo btx_id vout [] = false
any_utxo btx_id vout (u ∷ us) =
    if same_outpoint btx_id vout u then true else any_utxo btx_id vout us

has_vout_at : ℤ → List Utxo → ℕ → Bool
has_vout_at vout us i = elim (get_elem? us i) [ none ↦ false | some u ↦ eq_ℤ u.vout vout ]

unfoldable pub has_utxo : AddrBalance → Bytes → ℤ → Bool
unfolding same_outpoint any_utxo has_vout_at
has_utxo ab btx_id vout =
    if ltb 0 (length ab.utxos_map)
    then elim (lookup btx_id ab.utxos_map) [ none ↦ false | some i ↦ has_vout_at vout ab.utxos i ]
    else any_utxo btx_id vout ab.utxos

-- A spent output has the index -1.
abbrev pub spent_mark : Utxo → Utxo
spent_mark u = record u { vout = negsuc 0 }

-- The linear search, which marks the first output that fits.
unfoldable pub mark_linear : Bytes → ℤ → List Utxo → List Utxo
mark_linear btx_id vout [] = []
mark_linear btx_id vout (u ∷ us) =
    if eq_ℤ u.vout vout && bytes_eq u.btx_id btx_id
    then spent_mark u ∷ us
    else u ∷ mark_linear btx_id vout us

-- The search from an indexed place: it ends at the first output with the index `vout`, which is
-- marked if it is of the transaction.
unfoldable pub mark_onward : Bytes → ℤ → List Utxo → List Utxo
mark_onward btx_id vout [] = []
mark_onward btx_id vout (u ∷ us) =
    if eq_ℤ u.vout vout
    then (if bytes_eq u.btx_id btx_id then spent_mark u ∷ us else u ∷ us)
    else u ∷ mark_onward btx_id vout us

mark_from : ℕ → Bytes → ℤ → List Utxo → List Utxo
mark_from zero btx_id vout us = mark_onward btx_id vout us
mark_from (suc i) btx_id vout [] = []
mark_from (suc i) btx_id vout (u ∷ us) = u ∷ mark_from i btx_id vout us

unfoldable pub mark_utxo_as_spent : AddrBalance → Bytes → ℤ → AddrBalance
unfolding mark_linear mark_from mark_onward
mark_utxo_as_spent ab btx_id vout =
    let us =
      if length ab.utxos_map == 0
      then mark_linear btx_id vout ab.utxos
      else (elim (lookup btx_id ab.utxos_map) [
        | none ↦ ab.utxos
        | some i ↦ mark_from i btx_id vout ab.utxos
      ]) in
    record ab { utxos = us }
