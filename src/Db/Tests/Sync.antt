-- ===== src/Db/Tests/Sync.antt =====
-- Runs of the theorems on the synchronisation, with an index that is a function from heights to hashes.
mod Parallel
use mathlib.Core.Path.{subst}
use native.Mathlib.Omega.{arith}
use skyr_block_explorer.Prelude.{
  ℕ, ◌+◌, ◌-◌, ◌≡◌, ◌<◌, refl, true, false, inr, none, [], ◌∷◌, ltb, leb, ◌==◌, if◌then◌else◌,
}
use skyr_block_explorer.Prelude.Int.{pos}
use skyr_block_explorer.Prelude.Bytes.{Bytes, bytes_eq}
use skyr_block_explorer.Prelude.Result.{ok, err, block_not_found}
use skyr_block_explorer.Chain.{Block, bitcoin_type}
use skyr_block_explorer.Db.Sync.{
  finished, Index, Backend, SyncWorker, SyncOptions, disconnect_blocks, undo_fork, connect_from,
  or_not_found,
}
use skyr_block_explorer.Db.Sync.Follow.{connect_list, connect_from-connect_list}
use skyr_block_explorer.Db.Sync.Fork.{Differs, undo_fork-disconnect_blocks}

record Held : Type 0 where
  hash_at : ℕ → Bytes
  best : ℕ

abbrev held_index : Index Held
held_index = record {
  get_best_block = λ d. ok (d.best, d.hash_at d.best);
  get_block_hash = λ d h. ok (d.hash_at h);
  connect_block = λ d b.
      ok (record { hash_at = λ h. if h == b.height then b.hash else d.hash_at h; best = b.height });
  disconnect_block_range_bitcoin_type = λ lower higher d.
      ok (record { hash_at = λ h. if ltb h lower then d.hash_at h else []; best = lower - 1 });
  disconnect_block_range_ethereum_type = λ lower higher d. ok d;
  connect_blocks_parallel = λ lower higher d. (finished, d);
}

-- Three blocks; the hash of the block `h` is the byte `h`.
abbrev block_at : ℕ → Block
block_at h = record {
  hash = h ∷ [];
  prev = [];
  next = if leb (h + 1) 2 then (h + 1) ∷ [] else [];
  height = h;
  confirmations = pos 0;
  size = pos 0;
  time = pos 0;
  txs = [];
}

abbrev three_blocks : Backend
three_blocks = record {
  get_best_block_hash = ok (2 ∷ []);
  get_best_block_height = ok 2;
  get_block_hash = λ h. if leb h 2 then ok (h ∷ []) else err block_not_found;
  get_block = λ hash h. if leb h 2 then ok (block_at h) else err block_not_found;
  chain_type = bitcoin_type;
}

-- A signal would come at once, but only an initial synchronisation takes it.
abbrev options : SyncOptions
options = record { sync_workers = 8; sync_chunk = 100; initial_sync = false; signal = λ n. true }

-- The block 0 is that of the backend, the blocks 1 and 2 are others.
abbrev on_a_fork : SyncWorker Held
on_a_fork = record {
  db = record {
    hash_at = λ h. if h == 0 then 0 ∷ [] else if leb h 2 then 9 ∷ h ∷ [] else [];
    best = 2;
  };
  start_height = 0;
  start_hash = [];
}

-- An index of the block 0.
abbrev first_block : Held
first_block = record { hash_at = λ h. if h == 0 then 0 ∷ [] else []; best = 0 }

connect_from_example :
    connect_from held_index three_blocks options 4 0 (1 ∷ []) 1 none first_block
    ≡ connect_list held_index finished (block_at 1 ∷ block_at 2 ∷ []) first_block
connect_from_example =
    connect_from-connect_list held_index three_blocks options 4 0 (1 ∷ []) 1 none first_block
      (block_at 1 ∷ block_at 2 ∷ []) block_not_found refl (omega arith) (refl, (refl, refl))

-- The block 1 of the index is not that of the backend, and the block 0 is.
block_one-Differs : (h : ℕ) → 0 < h → h < 2 → Differs held_index three_blocks on_a_fork.db h
unfolding bytes_eq or_not_found
block_one-Differs h lo hi =
    let e : 1 ≡ h = omega (arith, lo, hi) in
    subst (λ k. Differs held_index three_blocks on_a_fork.db k) e
      (record {
        local = 9 ∷ 1 ∷ [];
        remote = 1 ∷ [];
        stored = refl;
        there = refl;
        found = refl;
        other = refl;
      })

undo_fork_example :
    undo_fork held_index three_blocks 2 2 on_a_fork.db
    ≡ disconnect_blocks held_index three_blocks 1 2 on_a_fork.db
unfolding or_not_found
undo_fork_example =
    undo_fork-disconnect_blocks held_index three_blocks on_a_fork.db 2 2 0 (omega arith)
      (omega arith) (omega arith) block_one-Differs
      (record { local = 0 ∷ []; stored = refl; common = inr (refl, refl) })
