-- ===== src/Mempool/Resync.antt =====
-- bchain/mempool_bitcoin_type.go, Resync: the loop that sends transactions to the workers of
-- NewMempoolBitcoinType and stores what comes back, as the steps of a system, and the removal of what is no longer in the mempool.
pub mod Counts
pub mod Progress
pub mod Cleanup
pub mod Liveness
use skyr_block_explorer.Prelude.{
  ℕ, ◌+◌, ◌-◌, ◌<◌, ◌≡◌, Bool, true, false, Option, none, some, List, [], ◌∷◌, ◌++◌, replicate,
  if◌then◌else◌,
}
use skyr_block_explorer.Prelude.Bytes.{Bytes, bytes_eq}
use skyr_block_explorer.Prelude.GoMap.{GoMap, lookup}
use skyr_block_explorer.Prelude.Result.{Result, ok, ◌>>=◌}
use skyr_block_explorer.Mempool.{
  AddrIndex, TxEntry, Mempool, on_new_entry, remove_entry_from_mempool,
}

-- A worker of NewMempoolBitcoinType waits for a transaction, or has one.
pub data MempoolWorker : Type 0 where
  idle : MempoolWorker
  working : Bytes → MempoolWorker

-- The loop, its channels and its workers: the transactions to go through, the one that was not found
-- and that the `select` offers, and `dispatched`. Both channels hold one element at most; one of
-- chanAddrIndex is a transaction with what the worker gave for it, here `io` of the transaction.
pub record Sync : Type 0 where
  pub mempool : Mempool
  pub todo : List Bytes
  pub waiting : Option Bytes
  pub dispatched : ℕ
  pub chan_txid : Option Bytes
  pub workers : List MempoolWorker
  pub chan_addr_index : Option Bytes

abbrev pub start : Mempool → List Bytes → ℕ → Sync
start m txs n = record {
  mempool = m;
  todo = txs;
  waiting = none;
  dispatched = 0;
  chan_txid = none;
  workers = replicate n idle;
  chan_addr_index = none;
}

-- The loop ends when nothing is left and all that was dispatched has come back.
pub record IsFinished (s : Sync) : Type 0 where
  pub no_todo : s.todo ≡ []
  pub no_waiting : s.waiting ≡ none
  pub no_dispatched : s.dispatched ≡ 0

-- `io` is what the worker gives for a transaction, `tx_time` the time of the resync.
module _ (io : Bytes → List AddrIndex) (tx_time : ℕ) where
  abbrev pub new_entry : Bytes → TxEntry
  new_entry txid = record { addr_indexes = io txid; time = tx_time }

  pub data Step : Sync → Sync → Type 0 where
    -- The transaction is there already.
    known :
        {s : Sync} (txid : Bytes) (todo : List Bytes) (e : TxEntry)
        → s.waiting ≡ none
        → s.todo ≡ txid ∷ todo
        → lookup txid s.mempool.tx_entries ≡ some e
        → Step s (record s { todo = todo })
    -- It is not, and the inner loop begins.
    unknown :
        {s : Sync} (txid : Bytes) (todo : List Bytes)
        → s.waiting ≡ none
        → s.todo ≡ txid ∷ todo
        → lookup txid s.mempool.tx_entries ≡ none
        → Step s (record s { todo = todo; waiting = some txid })
    -- `case m.chanTxid <- txid`
    send :
        {s : Sync} (txid : Bytes)
        → s.waiting ≡ some txid
        → s.chan_txid ≡ none
        → Step s (record s { waiting = none; chan_txid = some txid; dispatched = s.dispatched + 1 })
    -- `case tio := <-m.chanAddrIndex` of the inner loop.
    receive :
        {s : Sync} (offered txid : Bytes)
        → s.waiting ≡ some offered
        → s.chan_addr_index ≡ some txid
        → Step s (record s {
          mempool = on_new_entry txid (new_entry txid) s.mempool;
          chan_addr_index = none;
          dispatched = s.dispatched - 1;
        })
    -- A round of the loop behind it; `dispatched` is what is left of its rounds.
    receive_rest :
        {s : Sync} (txid : Bytes)
        → s.todo ≡ []
        → s.waiting ≡ none
        → 0 < s.dispatched
        → s.chan_addr_index ≡ some txid
        → Step s (record s {
          mempool = on_new_entry txid (new_entry txid) s.mempool;
          chan_addr_index = none;
          dispatched = s.dispatched - 1;
        })
    -- `for txid := range m.chanTxid` of a worker.
    take_txid :
        {s : Sync} (xs ys : List MempoolWorker) (txid : Bytes)
        → s.workers ≡ xs ++ (idle ∷ ys)
        → s.chan_txid ≡ some txid
        → Step s (record s { workers = xs ++ (working txid ∷ ys); chan_txid = none })
    -- `m.chanAddrIndex <- txidio{txid, io}` of a worker.
    answer :
        {s : Sync} (xs ys : List MempoolWorker) (txid : Bytes)
        → s.workers ≡ xs ++ (working txid ∷ ys)
        → s.chan_addr_index ≡ none
        → Step s (record s { workers = xs ++ (idle ∷ ys); chan_addr_index = some txid })

  pub data Reach (s : Sync) : Sync → Type 0 where
    here : Reach s s
    next : {t u : Sync} → Reach s t → Step t u → Reach s u

abbrev pub is_listed : Bytes → List Bytes → Bool
is_listed q [] = false
is_listed q (t ∷ ts) = if bytes_eq t q then true else is_listed q ts

-- `for txid, entry := range m.txEntries`: what is not in `txsMap` is removed.
unfoldable pub remove_missing : List Bytes → GoMap TxEntry → Mempool → Result Mempool
remove_missing txs [] m = ok m
remove_missing txs ((txid, entry) ∷ entries) m = elim (is_listed txid txs) [
  | true ↦ remove_missing txs entries m
  | false ↦ do m ← remove_entry_from_mempool txid entry m; remove_missing txs entries m
]
