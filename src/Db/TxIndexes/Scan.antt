-- ===== src/Db/TxIndexes/Scan.antt =====
-- db/rocksdb.go, GetAddrDescTransactions: the entries of a descriptor between two heights, each
-- transaction passed to a callback.
pub mod Column
pub mod Entry
pub mod Delivered
use skyr_block_explorer.Prelude.{ℕ, zero, suc, Bool, true, false, List, [], ◌∷◌, length, ltb}
use skyr_block_explorer.Prelude.Int.{ℤ}
use skyr_block_explorer.Prelude.Bytes.{Bytes, slice_from, slice_to}
use skyr_block_explorer.Prelude.Result.{Result, Error, ok, err, panic, run, ◌>>=◌}
use skyr_block_explorer.Chain.{ChainParser}
use skyr_block_explorer.Db.Vlq.{Vlq}
use skyr_block_explorer.Db.Keys.{pack_address_key, unpack_address_key, bytes_ltb}
use skyr_block_explorer.Db.TxIndexes.{unpack_indexes}

-- What the callback returns, with its state: nil, `StopIteration` or another error.
pub data Signal (S : Type 0) : Type 0 where
  go_on : S → Signal S
  stop_iteration : S → Signal S
  callback_error : Error → Signal S

module _ {S : Type 0} (v : Vlq) (parser : ChainParser)
    (fn : S → Bytes → ℕ → List ℤ → Signal S) where
  -- The transactions of one entry, and whether the callback asked to stop.
  pub scan_entry : ℕ → ℕ → Bytes → S → Result (S × Bool)
  scan_entry zero height val s = panic
  scan_entry (suc fuel) height val s = elim (ltb parser.packed_txid_len (length val)) [
    | false ↦ ok (s, false)
    | true ↦ do
      id ← run (slice_to val parser.packed_txid_len)
      tx ← parser.unpack_txid id
      val ← run (slice_from val parser.packed_txid_len)
      (indexes, val) ← run (unpack_indexes v (suc (length val)) val)
      elim (fn s tx height indexes) [
        | go_on s' ↦ scan_entry fuel height val s'
        | stop_iteration s' ↦ ok (s', true)
        | callback_error e ↦ err e
      ]
  ]

  -- The entries from the start key on, until the stop key is passed.
  pub scan_entries : Bytes → List (Bytes × Bytes) → S → Result S
  scan_entries stop_key [] s = ok s
  scan_entries stop_key ((key, val) ∷ entries) s = elim (bytes_ltb stop_key key) [
    | true ↦ ok s
    | false ↦ do
      (_, height) ← unpack_address_key key
      (s', stopped) ← scan_entry (suc (length val)) height val s
      elim stopped [ true ↦ ok s' | false ↦ scan_entries stop_key entries s' ]
  ]

  -- `seek` gives the entries of the column from a key on, in the order of the keys: the iterator.
  unfoldable pub get_addr_desc_transactions :
      (Bytes → List (Bytes × Bytes)) → Bytes → ℕ → ℕ → S → Result S
  unfolding scan_entry scan_entries unpack_indexes
  get_addr_desc_transactions seek addr_desc lower higher s =
      scan_entries (pack_address_key addr_desc lower) (seek (pack_address_key addr_desc higher)) s
