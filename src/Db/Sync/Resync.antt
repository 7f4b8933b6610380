-- ===== src/Db/Sync/Resync.antt =====
-- db/sync.go, ResyncIndex: the resync and what it stores in the internal state.
use skyr_block_explorer.Prelude.{ℕ, Bool, true, false}
use skyr_block_explorer.Prelude.Result.{Result, Error, ok, err, panic}
use skyr_block_explorer.Prelude.Bytes.{Bytes}
use skyr_block_explorer.InternalState.{
  InternalState, started_sync, finished_sync, finished_sync_no_change,
}
use skyr_block_explorer.Db.Sync.{
  Outcome, finished, failed, panicked, Index, Backend, SyncWorker, SyncOptions, is_synced,
  resync_index,
}

module _ {D : Type 0} (idx : Index D) (chain : Backend) where
  -- `bh, _, err := w.db.GetBestBlock()`
  finish_with :
      Result (ℕ × Bytes) → ℕ → SyncWorker D → InternalState → Outcome × SyncWorker D × InternalState
  finish_with (ok (bh, _)) now w is = (finished, w, finished_sync now bh is)
  finish_with (err e) now w is = (failed e, w, is)
  finish_with panic now w is = (panicked, w, is)

  finish_failed :
      Bool → Error → SyncWorker D → InternalState → Outcome × SyncWorker D × InternalState
  finish_failed true e w is = (finished, w, finished_sync_no_change is)
  finish_failed false e w is = (failed e, w, is)

  -- The switch on the error. The internal state that the connecting of blocks leaves is `is`, but for
  -- the best height, which each block updates.
  finish : Outcome × SyncWorker D → ℕ → InternalState → Outcome × SyncWorker D × InternalState
  finish (finished, w) now is = finish_with (idx.get_best_block w.db) now w is
  finish (failed e, w) now is = finish_failed (is_synced e) e w is
  finish (panicked, w) now is = (panicked, w, is)

  unfoldable pub resync :
      SyncOptions
      → ℕ
      → ℕ
      → ℕ
      → SyncWorker D
      → InternalState
      → Outcome × SyncWorker D × InternalState
  unfolding finish_with finish_failed finish
  resync o calls fuel now w is =
      finish (resync_index idx chain o calls fuel w) now (started_sync is)
