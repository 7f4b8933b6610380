-- ===== src/Db/Tests/Sync/Parallel.antt =====
-- Runs of the theorems on ConnectBlocksParallel: two workers, and a data base that lists its blocks.
use native.Mathlib.Omega.{arith}
use skyr_block_explorer.Prelude.{
  ℕ, ◌+◌, ◌≡◌, ◌⊎◌, ◌≤◌, refl, Bool, true, false, none, List, [], ◌∷◌, leb, Bool-cases, inl, inr,
}
use skyr_block_explorer.Prelude.Bytes.{Bytes}
use skyr_block_explorer.Prelude.Result.{ok, err, block_not_found}
use skyr_block_explorer.Chain.{Block}
use skyr_block_explorer.Db.Tests.Sync.{block_at, three_blocks}
use skyr_block_explorer.Db.Sync.Parallel.{
  HashHeight, waiting, fetching, sending, exited, writing, stopped, connect_failed, BulkIndex, Run,
  State, start, expected, fetched, write, closed_db, stop_writer, Reach, begin, next, ask, put,
  close_hashes, take_hash, leave, fetch, receive, stop,
}
use skyr_block_explorer.Db.Sync.Parallel.Invariant.{in_order, Holding}
use skyr_block_explorer.Db.Sync.Parallel.Order.{connect_blocks_parallel-in_order}
use skyr_block_explorer.Db.Sync.Parallel.Finish.{connect_blocks_parallel-all}
use skyr_block_explorer.Db.Sync.Parallel.Completes.{Ends, connect_blocks_parallel-Ends}

-- The heights that were connected, each with whether its data are kept, the last one first.
abbrev listed : BulkIndex (List (ℕ × Bool))
listed = record { connect_block = λ d b kept. ok ((b.height, kept) ∷ d); close = λ d. ok d }

abbrev two_workers : Run
two_workers = record { lower = 1; higher = 2; sync_workers = 2; keep = 1; dry_run = false }

numbered : (hash : Bytes) (h : ℕ) (b : Block) → three_blocks.get_block hash h ≡ ok b → b.height ≡ h
numbered hash h b q = elim (Bool-cases (leb h 2)) [
  | inl y ↦ let e : ok (block_at h) ≡ ok b = rw y at q in cc
  | inr n ↦ let e : err block_not_found ≡ ok b = rw n at q in cc
]

named : (h : ℕ) → h ≤ 2 → (hash : Bytes) × (three_blocks.get_block_hash h ≡ ok hash)
named h le = let y : leb h 2 ≡ true = ground (arith, le) in (h ∷ [], rw y refl)

answers :
    (h : ℕ) (hash : Bytes)
    → h ≤ 2
    → three_blocks.get_block_hash h ≡ ok hash
    → (b : Block) × (three_blocks.get_block hash h ≡ ok b)
answers h hash le q = let y : leb h 2 ≡ true = ground (arith, le) in (block_at h, rw y refl)

abbrev hh : ℕ → HashHeight
hh h = record { hash = h ∷ []; height = h }

-- The second block is there first, and the writer waits for the first one.
abbrev both_offered : State (List (ℕ × Bool))
both_offered = record {
  height = 3;
  asked = none;
  hashes = [];
  closed = false;
  terminating = false;
  workers = sending (hh 1) (block_at 1) ∷ sending (hh 2) (block_at 2) ∷ [];
  last_block = 0;
  writer = writing;
  db = [];
}

both_offered-Reach : Reach listed two_workers three_blocks [] both_offered
unfolding start fetched
both_offered-Reach =
    next
      (next
        (next
          (next
            (next
              (next
                (next (next begin (ask (1 ∷ []) refl refl refl (omega arith) refl))
                  (put (1 ∷ []) refl (omega arith)))
                (ask (2 ∷ []) refl refl refl (omega arith) refl))
              (put (2 ∷ []) refl (omega arith)))
            (take_hash [] (waiting ∷ []) (hh 1) (hh 2 ∷ []) refl refl))
          (take_hash (fetching (hh 1) ∷ []) [] (hh 2) [] refl refl))
        (fetch (fetching (hh 1) ∷ []) [] (hh 2) (block_at 2) refl refl))
      (fetch [] (sending (hh 2) (block_at 2) ∷ []) (hh 1) (block_at 1) refl refl)

abbrev returned : State (List (ℕ × Bool))
returned = record {
  height = 3;
  asked = none;
  hashes = [];
  closed = true;
  terminating = false;
  workers = exited ∷ exited ∷ [];
  last_block = 2;
  writer = stopped;
  db = (2, true) ∷ (1, false) ∷ [];
}

returned-Reach : Reach listed two_workers three_blocks [] returned
unfolding start fetched expected write stop_writer
returned-Reach =
    next
      (next
        (next
          (next
            (next
              (next both_offered-Reach
                (receive [] (sending (hh 2) (block_at 2) ∷ []) (hh 1) (block_at 1) refl refl refl))
              (receive (waiting ∷ []) [] (hh 2) (block_at 2) refl refl refl))
            (close_hashes refl refl (inr (omega arith))))
          (leave [] (waiting ∷ []) refl refl refl))
        (leave (exited ∷ []) [] refl refl refl))
      (stop refl (inr (tt, (tt, tt))))

connect_blocks_parallel-in_order_example :
    (returned.writer ≡ connect_failed)
    ⊎ ((n : ℕ) × (1 + n ≡ expected returned)
        × Holding listed three_blocks two_workers [] returned.writer n returned.db)
connect_blocks_parallel-in_order_example =
    connect_blocks_parallel-in_order listed three_blocks two_workers [] (omega arith) (omega arith)
      refl numbered returned-Reach

connect_blocks_parallel-all_example :
    (d : List (ℕ × Bool)) × (in_order listed three_blocks two_workers [] 2 ≡ ok d)
    × (returned.db ≡ closed_db listed d (listed.close d))
connect_blocks_parallel-all_example =
    connect_blocks_parallel-all listed three_blocks two_workers [] (omega arith) (omega arith)
      (omega arith) refl numbered returned-Reach refl refl (tt, (tt, tt))

connect_blocks_parallel-Ends_example : Ends listed three_blocks two_workers [] both_offered
connect_blocks_parallel-Ends_example =
    connect_blocks_parallel-Ends listed three_blocks two_workers [] (omega arith) (omega arith)
      (omega arith) refl numbered named answers both_offered-Reach refl refl (tt, (tt, tt))
