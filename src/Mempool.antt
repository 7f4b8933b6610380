-- ===== src/Mempool.antt =====
-- bchain/basemempool.go and bchain/mempool_bitcoin_type.go: the transactions of the mempool and their
-- addresses. The locks make each change of the two maps one step.
pub mod Index
pub mod Workers
pub mod Resync
mod Tests
use mathlib.Core.List.{reverse}
use skyr_block_explorer.Prelude.{
  ℕ, zero, suc, ◌+◌, Bool, true, false, not, Option, none, some, List, [], ◌∷◌, ◌++◌, length,
  get_elem?, ltb, ◌==◌, if◌then◌else◌,
}
use skyr_block_explorer.Prelude.Int.{ℤ, pos, negsuc, complement, to_int32}
use skyr_block_explorer.Prelude.Bytes.{Bytes, bytes_eq}
use skyr_block_explorer.Prelude.GoMap.{GoMap, lookup, insert, delete}
use skyr_block_explorer.Prelude.Result.{Result, Error, ok, err, panic, run, ◌>>=◌}
use skyr_block_explorer.Chain.{ChainParser, Outpoint, Vin, Vout, Tx}
use skyr_block_explorer.Db.Keys.{bytes_ltb}

pub record AddrIndex : Type 0 where
  pub addr_desc : Bytes
  pub n : ℤ

pub record TxEntry : Type 0 where
  pub addr_indexes : List AddrIndex
  pub time : ℕ

-- `BaseMempool`, the state of it.
pub record Mempool : Type 0 where
  pub tx_entries : GoMap TxEntry
  pub addr_desc_to_tx : GoMap (List Outpoint)

pub record MempoolTxidEntry : Type 0 where
  pub txid : Bytes
  pub time : ℕ

-- A key that is not there gives the empty slice.
unfoldable pub outpoints_at : Bytes → GoMap (List Outpoint) → List Outpoint
outpoints_at d m = elim (lookup d m) [ none ↦ [] | some outpoints ↦ outpoints ]

-- The loop of `GetAddrDescTransactions` copies the slice from its end.
unfoldable pub get_addr_desc_outpoints : Mempool → Bytes → List Outpoint
get_addr_desc_outpoints m addr_desc = reverse (outpoints_at addr_desc m.addr_desc_to_tx)

unfoldable pub get_outpoints : ChainParser → Mempool → Bytes → Result (List Outpoint)
get_outpoints parser m address = do
  addr_desc ← parser.get_addr_desc_from_address address
  ok (get_addr_desc_outpoints m addr_desc)

-- `Less` of MempoolTxidEntries: the newest first, and of one time the greatest id first.
unfoldable pub less : MempoolTxidEntry → MempoolTxidEntry → Bool
less a b = if a.time == b.time then bytes_ltb b.txid a.txid else ltb b.time a.time

insert_entry : MempoolTxidEntry → List MempoolTxidEntry → List MempoolTxidEntry
insert_entry e [] = e ∷ []
insert_entry e (f ∷ fs) = if less f e then f ∷ insert_entry e fs else e ∷ f ∷ fs

-- `sort.Sort` by `less`.
sort_entries : List MempoolTxidEntry → List MempoolTxidEntry
sort_entries [] = []
sort_entries (e ∷ es) = insert_entry e (sort_entries es)

txid_entries : GoMap TxEntry → List MempoolTxidEntry
txid_entries [] = []
txid_entries ((txid, entry) ∷ m) = record { txid = txid; time = entry.time } ∷ txid_entries m

unfoldable pub get_all_entries : Mempool → List MempoolTxidEntry
unfolding insert_entry sort_entries txid_entries
get_all_entries m = sort_entries (txid_entries m.tx_entries)

unfoldable pub get_transaction_time : Mempool → Bytes → ℕ
get_transaction_time m txid = elim (lookup txid m.tx_entries) [ none ↦ 0 | some e ↦ e.time ]

-- The outpoints that are not of the transaction.
unfoldable pub without : Bytes → List Outpoint → List Outpoint
without txid [] = []
without txid (o ∷ os) =
    let rest = without txid os in if not (bytes_eq o.txid txid) then o ∷ rest else rest

-- An address without outpoints has no entry in the map.
unfoldable pub put_back : Bytes → List Outpoint → GoMap (List Outpoint) → GoMap (List Outpoint)
put_back addr_desc [] m = delete addr_desc m
put_back addr_desc (o ∷ os) m = insert addr_desc (o ∷ os) m

-- One round of the loop. A slice with a capacity of -1 cannot be made, so an empty slice in the map
-- panics.
unfoldable pub remove_index :
    Bytes → AddrIndex → GoMap (List Outpoint) → Result (GoMap (List Outpoint))
remove_index txid si m = elim (lookup si.addr_desc m) [
  | none ↦ ok m
  | some outpoints ↦ elim (length outpoints == 0) [
    | true ↦ panic
    | false ↦ ok (put_back si.addr_desc (without txid outpoints) m)
  ]
]

unfoldable pub remove_indexes :
    Bytes → List AddrIndex → GoMap (List Outpoint) → Result (GoMap (List Outpoint))
remove_indexes txid [] m = ok m
remove_indexes txid (si ∷ sis) m = do m ← remove_index txid si m; remove_indexes txid sis m

unfoldable pub remove_entry_from_mempool : Bytes → TxEntry → Mempool → Result Mempool
remove_entry_from_mempool txid entry m = do
  to_tx ← remove_indexes txid entry.addr_indexes m.addr_desc_to_tx
  ok (record { tx_entries = delete txid m.tx_entries; addr_desc_to_tx = to_tx })

unfoldable pub add_index : Bytes → AddrIndex → GoMap (List Outpoint) → GoMap (List Outpoint)
add_index txid si m =
    insert si.addr_desc (outpoints_at si.addr_desc m ++ record { txid = txid; vout = si.n } ∷ []) m

unfoldable pub add_indexes : Bytes → List AddrIndex → GoMap (List Outpoint) → GoMap (List Outpoint)
add_indexes txid [] m = m
add_indexes txid (si ∷ sis) m = add_indexes txid sis (add_index txid si m)

-- `onNewEntry` of Resync: a transaction with no addresses is not kept.
unfoldable pub on_new_entry : Bytes → TxEntry → Mempool → Mempool
on_new_entry txid entry m = elim (ltb 0 (length entry.addr_indexes)) [
  | false ↦ m
  | true ↦ record {
    tx_entries = insert txid entry m.tx_entries;
    addr_desc_to_tx = add_indexes txid entry.addr_indexes m.addr_desc_to_tx;
  }
]
