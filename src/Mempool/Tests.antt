-- ===== src/Mempool/Tests.antt =====
-- Runs of the theorems on the mempool.
use native.Mathlib.Omega.{arith}
use skyr_block_explorer.Prelude.{
  ℕ, ◌*◌, ◌≤◌, ◌≡◌, ◌⊎◌, refl, none, List, [], ◌∷◌, length, if◌then◌else◌, Bool-cases, inl, inr,
}
use skyr_block_explorer.Prelude.Int.{pos}
use skyr_block_explorer.Prelude.Bytes.{Bytes, bytes_eq, bytes_eq_iff}
use skyr_block_explorer.Prelude.GoMap.{lookup, insert}
use skyr_block_explorer.Prelude.Result.{Returns}
use skyr_block_explorer.Mempool.{
  AddrIndex, TxEntry, Mempool, on_new_entry, outpoints_at, remove_entry_from_mempool,
}
use skyr_block_explorer.Mempool.Index.{IsConsistent, on_new_entry-IsConsistent, of_tx}
use skyr_block_explorer.Mempool.Index.Removal.{remove_entry_from_mempool-IsConsistent}
use skyr_block_explorer.Mempool.Resync.{
  idle, working, Sync, start, Step, Reach, here, next, unknown, send, receive_rest, take_txid,
  answer, IsFinished, remove_missing, is_listed,
}
use skyr_block_explorer.Mempool.Resync.Counts.{count}
use skyr_block_explorer.Mempool.Resync.Progress.{expected}
use skyr_block_explorer.Mempool.Resync.Cleanup.{Reach-remove_missing}
use skyr_block_explorer.Mempool.Resync.Liveness.{steps, Reach-unblocked}

abbrev tx_a : Bytes
tx_a = 1 ∷ []

abbrev tx_b : Bytes
tx_b = 2 ∷ []

abbrev tx_c : Bytes
tx_c = 3 ∷ []

abbrev addr : Bytes
addr = 9 ∷ []

abbrev entry : ℕ → TxEntry
entry n = record { addr_indexes = record { addr_desc = addr; n = pos n } ∷ []; time = n }

abbrev empty : Mempool
empty = record { tx_entries = []; addr_desc_to_tx = [] }

empty-IsConsistent : IsConsistent empty
unfolding lookup of_tx outpoints_at
empty-IsConsistent = record { listed = λ d q. refl; not_empty = λ d e. cc e; distinct = tt }

abbrev with_a : Mempool
with_a = on_new_entry tx_a (entry 1) empty

with_a-IsConsistent : IsConsistent with_a
unfolding lookup
with_a-IsConsistent = on_new_entry-IsConsistent tx_a (entry 1) empty empty-IsConsistent refl

remove_entry_from_mempool-IsConsistent_example :
    Returns
      (λ m'.
        IsConsistent m'
        × ((q : Bytes)
            → lookup q m'.tx_entries
              ≡ (if bytes_eq tx_a q then none else lookup q with_a.tx_entries)))
      (remove_entry_from_mempool tx_a (entry 1) with_a)
unfolding lookup on_new_entry insert bytes_eq
remove_entry_from_mempool-IsConsistent_example =
    remove_entry_from_mempool-IsConsistent tx_a (entry 1) with_a with_a-IsConsistent refl

-- The workers give an index for each transaction but `tx_c`, which has no addresses.
abbrev io : Bytes → List AddrIndex
io txid = if bytes_eq txid tx_c then [] else (entry 7).addr_indexes

abbrev txs : List Bytes
txs = tx_b ∷ tx_c ∷ []

once : (q : Bytes) → count q txs ≤ 1
once q = elim (Bool-cases (bytes_eq tx_b q)) [
  | inr n ↦ elim (Bool-cases (bytes_eq tx_c q)) [
    | inl y ↦ rw (n, y) (omega arith)
    | inr k ↦ rw (n, k) (omega arith)
  ]
  | inl y ↦ elim (Bool-cases (bytes_eq tx_c q)) [
    | inr k ↦ rw (y, k) (omega arith)
    | inl z ↦ absurd (cc ((bytes_eq_iff tx_b q).0 y, (bytes_eq_iff tx_c q).0 z))
  ]
]

abbrev after_b : Mempool
after_b =
    on_new_entry tx_b (record { addr_indexes = io tx_b; time = 7 })
      (on_new_entry tx_c (record { addr_indexes = io tx_c; time = 7 }) with_a)

abbrev both_working : Sync
both_working = record {
  mempool = with_a;
  todo = [];
  waiting = none;
  dispatched = 2;
  chan_txid = none;
  workers = working tx_b ∷ working tx_c ∷ [];
  chan_addr_index = none;
}

abbrev finished : Sync
finished = record {
  mempool = after_b;
  todo = [];
  waiting = none;
  dispatched = 0;
  chan_txid = none;
  workers = idle ∷ idle ∷ [];
  chan_addr_index = none;
}

-- Two workers have `tx_b` and `tx_c`.
both_working_lem : Reach io 7 (start with_a txs 2) both_working
unfolding lookup on_new_entry insert bytes_eq
both_working_lem =
    next
      (next
        (next
          (next (next (next here (unknown tx_b (tx_c ∷ []) refl refl refl)) (send tx_b refl refl))
            (take_txid [] (idle ∷ []) tx_b refl refl))
          (unknown tx_c [] refl refl refl))
        (send tx_c refl refl))
      (take_txid (working tx_b ∷ []) [] tx_c refl refl)

-- The answer for `tx_c` comes first.
run_of_two : Reach io 7 (start with_a txs 2) finished
unfolding lookup on_new_entry insert bytes_eq
run_of_two =
    next
      (next
        (next (next both_working_lem (answer (working tx_b ∷ []) [] tx_c refl refl))
          (receive_rest tx_c refl refl (omega arith) refl))
        (answer [] (idle ∷ []) tx_b refl refl))
      (receive_rest tx_b refl refl (omega arith) refl)

Reach-remove_missing_example :
    Returns
      (λ m'.
        IsConsistent m'
        × ((q : Bytes)
            → lookup q m'.tx_entries ≡ (if is_listed q txs then expected io 7 with_a q else none)))
      (remove_missing txs after_b.tx_entries after_b)
Reach-remove_missing_example =
    Reach-remove_missing io 7 with_a txs 2 finished with_a-IsConsistent once run_of_two
      (record { no_todo = refl; no_waiting = refl; no_dispatched = refl })

Reach-unblocked_example :
    (IsFinished both_working ⊎ ((t : Sync) × Step io 7 both_working t))
    × (steps io 7 both_working_lem ≤ 5 * length txs)
Reach-unblocked_example =
    Reach-unblocked io 7 with_a txs 2 both_working (omega arith) both_working_lem
