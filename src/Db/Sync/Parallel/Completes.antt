-- ===== src/Db/Sync/Parallel/Completes.antt =====
-- db/sync.go: a run of ConnectBlocksParallel that is left alone comes to its end.
use mathlib.Core.Path.{subst}
use skyr_block_explorer.Prelude.{
  ℕ, zero, suc, ◌+◌, ◌-◌, ◌^◌, ◌≤◌, ◌<◌, ◌≡◌, ◌⊎◌, refl, false, List, [], ◌∷◌, All, arith, inl, inr,
}
use skyr_block_explorer.Prelude.Bytes.{Bytes}
use skyr_block_explorer.Prelude.Result.{ok}
use skyr_block_explorer.Chain.{Block}
use skyr_block_explorer.Db.Sync.{Backend}
use skyr_block_explorer.Db.Sync.Parallel.{
  Worker, waiting, fetching, sending, gave_up, exited, HasLeft, Writer, writing, stopped,
  skipped_block, connect_failed, BulkIndex, Run, State, closed_db, stop_writer, Step, stop, Reach,
  next,
}
use skyr_block_explorer.Db.Sync.Parallel.Asking.{Reach-Asking}
use skyr_block_explorer.Db.Sync.Parallel.Calm.{
  Persists, CalmRun, done, then, IsWork, IsWork-terminating, IsWork-writer, IsWork-Persists,
  IsWork-IsCalm,
}
use skyr_block_explorer.Db.Sync.Parallel.Invariant.{in_order, Holding}
use skyr_block_explorer.Db.Sync.Parallel.Order.{Reach-Ordered}
use skyr_block_explorer.Db.Sync.Parallel.Finish.{Exited, connect_blocks_parallel-all}
use skyr_block_explorer.Db.Sync.Parallel.Progress.{steps_left, Step-fewer}
use skyr_block_explorer.Db.Sync.Parallel.Unblocked.{Ordered-Possible}

Exited-HasLeft : (ws : List Worker) → All Exited ws → All HasLeft ws
Exited-HasLeft [] a = tt
Exited-HasLeft (exited ∷ ws) a = (tt, Exited-HasLeft ws a.1)
Exited-HasLeft (waiting ∷ ws) a = absurd a.0
Exited-HasLeft (fetching hh ∷ ws) a = absurd a.0
Exited-HasLeft (sending hh b ∷ ws) a = absurd a.0
Exited-HasLeft (gave_up hh ∷ ws) a = absurd a.0

module _ {D : Type 0} (bulk : BulkIndex D) (chain : Backend) (o : Run) (d : D) where
  -- The writer has stopped with all blocks of the range connected in their order, and closed.
  pub record AllConnected (t : State D) : Type 0 where
    pub has_stopped : t.writer ≡ stopped
    pub connected :
        (d' : D) × (in_order bulk chain o d (o.higher + 1 - o.lower) ≡ ok d')
        × (t.db ≡ closed_db bulk d' (bulk.close d'))

  abbrev pub Ends : State D → Type 0
  Ends s = (t : State D) × CalmRun bulk chain o s t × ((t.writer ≡ connect_failed) ⊎ AllConnected t)

  module _ (some_worker : 0 < o.sync_workers) (fair : o.lower ≤ o.higher + 1)
      (small : o.higher + 1 < 2 ^ 32) (real : o.dry_run ≡ false)
      (numbered : (hash : Bytes) (h : ℕ) (b : Block) → chain.get_block hash h ≡ ok b → b.height ≡ h)
      (named : (h : ℕ) → h ≤ o.higher → (hash : Bytes) × (chain.get_block_hash h ≡ ok hash))
      (answers : (h : ℕ) (hash : Bytes)
        → h ≤ o.higher
        → chain.get_block_hash h ≡ ok hash
        → (b : Block) × (chain.get_block hash h ≡ ok b)) where
    stops :
        {s : State D}
        → Reach bulk o chain d s
        → s.writer ≡ writing
        → s.terminating ≡ false
        → All Exited s.workers
        → Ends s
    unfolding stop_writer
    stops {s} r wr te ex =
        let st = stop {s = s} wr (inr (Exited-HasLeft s.workers ex)) in
        (
          stop_writer bulk s,
          then st tt done,
          inr (record {
            has_stopped = refl;
            connected =
                connect_blocks_parallel-all bulk chain o d some_worker fair small real numbered
                  (next r st) refl te ex;
          }),
        )

    -- Behind a step of the work, if what is left of the run ends.
    onward :
        {s : State D} (t : State D) (r : Reach bulk o chain d s) (st : Step bulk o chain s t)
        → IsWork bulk chain o st
        → s.writer ≡ writing
        → (t.writer ≡ writing → Ends t)
        → (w : Writer) → t.writer ≡ w
        → Ends s
    onward t r st k wr rest writing e =
        let (u, run, q) = rest e in (u, then st (IsWork-IsCalm bulk chain o st k) run, q)
    onward t r st k wr rest connect_failed e =
        (t, then st (IsWork-IsCalm bulk chain o st k) done, inl e)
    onward t r st k wr rest stopped e = absurd (IsWork-writer bulk chain o st k wr e)
    onward t r st k wr rest skipped_block e =
        elim (Reach-Ordered bulk chain o d small real numbered fair (next r st)) [
          | inr f ↦ cc
          | inl p ↦ absurd (subst (λ v. Holding bulk chain o d v p.written t.db) e p.holding)
        ]

    ends :
        (fuel : ℕ) {s : State D}
        → steps_left o s < fuel
        → Reach bulk o chain d s
        → s.writer ≡ writing
        → s.terminating ≡ false
        → All Persists s.workers
        → Ends s
    ends zero lt r wr te ps = elim lt [ ]
    ends (suc fuel) {s} lt r wr te ps =
        let asking = Reach-Asking bulk chain o d r in
        elim (Reach-Ordered bulk chain o d small real numbered fair r) [
          | inr f ↦ cc
          | inl p ↦
              elim (Ordered-Possible bulk chain o d small named answers s p asking wr te some_worker
                ps) [
                  | inr ex ↦ stops r wr te ex
                  | inl (t, st, k) ↦
                      let fewer = Step-fewer bulk chain o d small asking st in
                      onward t r st k wr
                        (λ w.
                          ends fuel (omega (arith, lt, fewer)) (next r st) w
                            (IsWork-terminating bulk chain o st k te)
                            (IsWork-Persists bulk chain o st k ps))
                        t.writer refl
                ]
        ]

-- For a run of ConnectBlocksParallel that is not dry, with a worker at least, between heights below
-- the highest uint32, with a backend that answers with a block of the height that was asked for and
-- that has every block of the range: from every state that the goroutines come to with the writer
-- still writing, no signal taken and no worker that has given up its block, steps without the
-- signal and without a worker that gives up lead to a state where the connecting of a block failed,
-- or where the writer has stopped and the data base is what closing gives after all blocks of the
-- range were connected one after the other.
pub connect_blocks_parallel-Ends :
    {D : Type 0} (bulk : BulkIndex D) (chain : Backend) (o : Run) (d : D) {s : State D}
    → 0 < o.sync_workers
    → o.lower ≤ o.higher + 1
    → o.higher + 1 < 2 ^ 32
    → o.dry_run ≡ false
    → ((hash : Bytes) (h : ℕ) (b : Block) → chain.get_block hash h ≡ ok b → b.height ≡ h)
    → ((h : ℕ) → h ≤ o.higher → (hash : Bytes) × (chain.get_block_hash h ≡ ok hash))
    → ((h : ℕ) (hash : Bytes)
        → h ≤ o.higher
        → chain.get_block_hash h ≡ ok hash
        → (b : Block) × (chain.get_block hash h ≡ ok b))
    → Reach bulk o chain d s
    → s.writer ≡ writing
    → s.terminating ≡ false
    → All Persists s.workers
    → Ends bulk chain o d s
connect_blocks_parallel-Ends bulk chain o d {s} some_worker fair small real numbered named answers r
      wr te ps =
    ends bulk chain o d some_worker fair small real numbered named answers (suc (steps_left o s))
      (omega arith) r wr te ps
