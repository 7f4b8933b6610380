-- ===== src/InternalState.antt =====
-- common/internalstate.go: what the program knows of its synchronisation. Each operation is under the
-- lock; `now` is the time that it reads.
pub mod Columns
use skyr_block_explorer.Prelude.{ℕ, Bool, true, false}

-- The names of the coin are left out, and the statistics of the columns stand in Columns.
pub record InternalState : Type 0 where
  pub is_synchronized : Bool
  pub best_height : ℕ
  pub last_sync : ℕ
  pub is_mempool_synchronized : Bool
  pub mempool_size : ℕ
  pub last_mempool_sync : ℕ

abbrev pub started_sync : InternalState → InternalState
started_sync is = record is { is_synchronized = false }

abbrev pub finished_sync : ℕ → ℕ → InternalState → InternalState
finished_sync now best_height is = record is {
  is_synchronized = true;
  best_height = best_height;
  last_sync = now;
}

abbrev pub update_best_height : ℕ → ℕ → InternalState → InternalState
update_best_height now best_height is = record is { best_height = best_height; last_sync = now }

abbrev pub finished_sync_no_change : InternalState → InternalState
finished_sync_no_change is = record is { is_synchronized = true }

abbrev pub get_sync_state : InternalState → Bool × ℕ × ℕ
get_sync_state is = (is.is_synchronized, is.best_height, is.last_sync)

abbrev pub started_mempool_sync : InternalState → InternalState
started_mempool_sync is = record is { is_mempool_synchronized = false }

abbrev pub finished_mempool_sync : ℕ → ℕ → InternalState → InternalState
finished_mempool_sync now mempool_size is = record is {
  is_mempool_synchronized = true;
  mempool_size = mempool_size;
  last_mempool_sync = now;
}

abbrev pub get_mempool_sync_state : InternalState → Bool × ℕ × ℕ
get_mempool_sync_state is = (is.is_mempool_synchronized, is.last_mempool_sync, is.mempool_size)
