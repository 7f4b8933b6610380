-- ===== src/Db/Sync/Parallel/Finish.antt =====
-- db/sync.go: what is connected when ConnectBlocksParallel returns.
use mathlib.Core.Path.{subst}
use skyr_block_explorer.Prelude.{
  ℕ, zero, suc, ◌+◌, ◌-◌, ◌^◌, ◌≤◌, ◌<◌, ◌≡◌, ◌⊎◌, refl, ap, true, false, List, [], ◌∷◌, ◌++◌,
  length, replicate, arith, All, ◌==◌, Bool-cases, inl, inr,
}
use skyr_block_explorer.Prelude.Bytes.{Bytes}
use skyr_block_explorer.Prelude.Result.{Result, ok, err, panic}
use skyr_block_explorer.Chain.{Block}
use skyr_block_explorer.Db.Sync.{Backend}
use skyr_block_explorer.Db.Sync.Parallel.{
  HashHeight, Worker, waiting, fetching, sending, gave_up, exited, stopped, BulkIndex, Run, State,
  start, expected, fetched, connected, write, closed_db, stop_writer, Step, ask, put, interrupt,
  close_hashes, take_hash, leave, fetch, give_up, break_off, receive, stop, Reach, begin, next,
}
use skyr_block_explorer.Db.Sync.Parallel.Counts.{busy, All-replace}
use skyr_block_explorer.Db.Sync.Parallel.Asking.{Asking, asked-Offers, Reach-Asking}
use skyr_block_explorer.Db.Sync.Parallel.Invariant.{in_order, Holding, Ordered}
use skyr_block_explorer.Db.Sync.Parallel.Counts.{total}
use skyr_block_explorer.Db.Sync.Parallel.Order.{Reach-Ordered}

-- A worker that went through its loop to the end.
abbrev pub Exited : Worker → Type 0
Exited exited = Unit
Exited w = ⊥

abbrev pub Remains : Worker → Type 0
Remains exited = ⊥
Remains w = Unit

Exited-busy : (ws : List Worker) → All Exited ws → total busy ws ≡ 0
Exited-busy [] a = refl
Exited-busy (exited ∷ ws) a = omega (arith, Exited-busy ws a.1)
Exited-busy (waiting ∷ ws) a = absurd a.0
Exited-busy (fetching hh ∷ ws) a = absurd a.0
Exited-busy (sending hh b ∷ ws) a = absurd a.0
Exited-busy (gave_up hh ∷ ws) a = absurd a.0

pub Exited-Remains : (ws : List Worker) → 0 < length ws → All Exited ws → All Remains ws → ⊥
Exited-Remains [] lt a r = omega (arith, lt)
Exited-Remains (exited ∷ ws) lt a r = r.0
Exited-Remains (waiting ∷ ws) lt a r = a.0
Exited-Remains (fetching hh ∷ ws) lt a r = a.0
Exited-Remains (sending hh b ∷ ws) lt a r = a.0
Exited-Remains (gave_up hh ∷ ws) lt a r = a.0

-- No worker has left its loop before the channel was closed and empty.
abbrev pub Drained : {D : Type 0} → State D → Type 0
Drained s = All Remains s.workers ⊎ ((s.closed ≡ true) × (s.hashes ≡ []))

module _ {D : Type 0} (bulk : BulkIndex D) (chain : Backend) (o : Run) (d0 : D) where
  -- A step of a worker that stays in its loop.
  still :
      (s : State D) (xs ys : List Worker) (v w : Worker)
      → Drained s
      → s.workers ≡ xs ++ (v ∷ ys)
      → Remains w
      → Drained (record s { workers = xs ++ (w ∷ ys) })
  still s xs ys v w p e r = elim p [
    | inl a ↦ inl (All-replace Remains xs ys v w (subst (λ ws. All Remains ws) e a) (λ u. r))
    | inr c ↦ inr c
  ]

  connected-Drained :
      (s : State D) (b : Block) (r : Result D) → Drained s → Drained (connected bulk s b r)
  connected-Drained s b (ok d) p = p
  connected-Drained s b (err e) p = p
  connected-Drained s b panic p = p

  write-Drained : (s : State D) (b : Block) → Drained s → Drained (write bulk o s b)
  unfolding write
  write-Drained s b p = elim (Bool-cases (b.height == expected s)) [
    | inl y ↦ rw y (connected-Drained s b _ p)
    | inr n ↦ rw n p
  ]

  fetched-Remains : (hh : HashHeight) (b : Block) → Remains (fetched o hh b)
  unfolding fetched
  fetched-Remains hh b = elim (Bool-cases o.dry_run) [ inl y ↦ rw y tt | inr n ↦ rw n tt ]

  Drained-Step :
      (s t : State D) → Asking bulk chain o d0 s → Drained s → Step bulk o chain s t → Drained t
  unfolding stop_writer
  Drained-Step s t k p (ask hash c te a le q) = p
  Drained-Step s t k p (put hash e len) =
      let f = asked-Offers bulk chain o d0 s hash k e in
      elim p [ inl a ↦ inl a | inr y ↦ cc (y.0, f.open_still) ]
  Drained-Step s t k p (interrupt c te a le) = p
  Drained-Step s t k p (close_hashes c e q) = elim p [ inl a ↦ inl a | inr y ↦ inr (refl, y.1) ]
  Drained-Step s t k p (take_hash xs ys hh hhs w q) = elim p [
    | inl a ↦ inl (
        All-replace Remains xs ys waiting (fetching hh) (subst (λ ws. All Remains ws) w a)
          (λ u. tt))
    | inr y ↦ cc
  ]
  Drained-Step s t k p (leave xs ys w q c) = inr (c, q)
  Drained-Step s t k p (fetch xs ys hh b w q) =
      still s xs ys (fetching hh) (fetched o hh b) p w (fetched-Remains hh b)
  Drained-Step s t k p (give_up xs ys hh w c) = still s xs ys (fetching hh) (gave_up hh) p w tt
  Drained-Step s t k p (break_off xs ys hh b w te) =
      still s xs ys (sending hh b) (gave_up hh) p w tt
  Drained-Step s t k p (receive xs ys hh b w wr q) =
      write-Drained (record s { workers = xs ++ (waiting ∷ ys) }) b
        (still s xs ys (sending hh b) waiting p w tt)
  Drained-Step s t k p (stop wr q) = p

  Remains-replicate : (n : ℕ) → All Remains (replicate n waiting)
  Remains-replicate zero = tt
  Remains-replicate (suc n) = (tt, Remains-replicate n)

  pub Reach-Drained : {s : State D} → Reach bulk o chain d0 s → Drained s
  unfolding start
  Reach-Drained begin = inl (Remains-replicate o.sync_workers)
  Reach-Drained (next {s} {t} r st) =
      Drained-Step s t (Reach-Asking bulk chain o d0 r) (Reach-Drained r) st

module _ {D : Type 0} (bulk : BulkIndex D) (chain : Backend) (o : Run) (d0 : D) where
  -- Nothing is with a worker or in the channel any more.
  all_written :
      (s : State D)
      → 0 < o.sync_workers
      → (p : Ordered bulk chain o d0 s) → Drained s
      → s.terminating ≡ false
      → All Exited s.workers
      → expected s ≡ o.higher + 1
  all_written s some p dr te ex = elim dr [
    | inl a ↦ absurd (Exited-Remains s.workers (omega (arith, some, p.placed.size)) ex a)
    | inr y ↦ elim (p.ended y.0) [
      | inl t ↦ cc
      | inr e ↦ omega (arith, e, p.placed.load, Exited-busy s.workers ex, p.queued, ap length y.1)
    ]
  ]

-- For a run of ConnectBlocksParallel that is not dry, with a worker at least, between heights below
-- the highest uint32, with a backend that answers with a block of the height that was asked for:
-- when the writer has stopped without an interruption and every worker went through its loop to the
-- end, the data base is what closing gives after all blocks of the range were connected one after
-- the other.
pub connect_blocks_parallel-all :
    {D : Type 0} (bulk : BulkIndex D) (chain : Backend) (o : Run) (d : D) {s : State D}
    → 0 < o.sync_workers
    → o.lower ≤ o.higher + 1
    → o.higher + 1 < 2 ^ 32
    → o.dry_run ≡ false
    → ((hash : Bytes) (h : ℕ) (b : Block) → chain.get_block hash h ≡ ok b → b.height ≡ h)
    → Reach bulk o chain d s
    → s.writer ≡ stopped
    → s.terminating ≡ false
    → All Exited s.workers
    → (d' : D) × (in_order bulk chain o d (o.higher + 1 - o.lower) ≡ ok d')
      × (s.db ≡ closed_db bulk d' (bulk.close d'))
connect_blocks_parallel-all {D} bulk chain o d {s} some fair small real numbered r wr te ex =
    elim (Reach-Ordered bulk chain o d small real numbered fair r) [
      | inr f ↦ cc
      | inl p ↦
          let e = all_written bulk chain o d s some p (Reach-Drained bulk chain o d r) te ex in
          let n : p.written ≡ o.higher + 1 - o.lower = omega (arith, e, p.from_lower) in
          subst
            (λ k.
              (d' : D) × (in_order bulk chain o d k ≡ ok d')
              × (s.db ≡ closed_db bulk d' (bulk.close d')))
            n (subst (λ v. Holding bulk chain o d v p.written s.db) wr p.holding)
    ]
