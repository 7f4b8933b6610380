-- ===== src/Db/Sync/Parallel/Calm.antt =====
-- db/sync.go: runs of ConnectBlocksParallel without a signal and without a worker that gives up.
use mathlib.Core.Path.{subst}
use skyr_block_explorer.Prelude.{
  ◌≡◌, refl, sym, ◌∙◌, false, List, ◌∷◌, ◌++◌, All, ◌==◌, Bool-cases, inl, inr,
}
use skyr_block_explorer.Prelude.Result.{Result, ok, err, panic}
use skyr_block_explorer.Chain.{Block}
use skyr_block_explorer.Db.Sync.{Backend}
use skyr_block_explorer.Db.Sync.Parallel.{
  HashHeight, Worker, waiting, fetching, sending, gave_up, exited, writing, stopped, BulkIndex, Run,
  State, expected, fetched, connected, write, Step, ask, put, interrupt, close_hashes, take_hash,
  leave, fetch, give_up, break_off, receive, stop,
}
use skyr_block_explorer.Db.Sync.Parallel.Counts.{All-replace}

-- A worker that did not give up a height.
abbrev pub Persists : Worker → Type 0
Persists (gave_up hh) = ⊥
Persists w = Unit

module _ {D : Type 0} (bulk : BulkIndex D) (chain : Backend) (o : Run) where
  -- A step that is neither the signal nor a worker that leaves its loop with a block to deliver.
  abbrev pub IsCalm : {s t : State D} → Step bulk o chain s t → Type 0
  IsCalm (interrupt c te a le) = ⊥
  IsCalm (give_up xs ys hh w c) = ⊥
  IsCalm (break_off xs ys hh b w te) = ⊥
  IsCalm (ask hash c te a le q) = Unit
  IsCalm (put hash a len) = Unit
  IsCalm (close_hashes c a q) = Unit
  IsCalm (take_hash xs ys hh hhs w q) = Unit
  IsCalm (leave xs ys w q c) = Unit
  IsCalm (fetch xs ys hh b w q) = Unit
  IsCalm (receive xs ys hh b w wr q) = Unit
  IsCalm (stop wr q) = Unit

  -- A run of such steps.
  pub data CalmRun : State D → State D → Type 0 where
    done : {s : State D} → CalmRun s s
    then : {s t u : State D} (st : Step bulk o chain s t) → IsCalm st → CalmRun t u → CalmRun s u

  -- A calm step, but for the end of the writer.
  abbrev pub IsWork : {s t : State D} → Step bulk o chain s t → Type 0
  IsWork (stop wr q) = ⊥
  IsWork st = IsCalm st

  connected-terminating :
      (s : State D) (b : Block) (r : Result D) → (connected bulk s b r).terminating ≡ s.terminating
  connected-terminating s b (ok d) = refl
  connected-terminating s b (err e) = refl
  connected-terminating s b panic = refl

  write-terminating : (s : State D) (b : Block) → (write bulk o s b).terminating ≡ s.terminating
  unfolding write
  write-terminating s b = elim (Bool-cases (b.height == expected s)) [
    | inl y ↦ rw y (connected-terminating s b _)
    | inr n ↦ rw n refl
  ]

  connected-workers :
      (s : State D) (b : Block) (r : Result D) → (connected bulk s b r).workers ≡ s.workers
  connected-workers s b (ok d) = refl
  connected-workers s b (err e) = refl
  connected-workers s b panic = refl

  write-workers : (s : State D) (b : Block) → (write bulk o s b).workers ≡ s.workers
  unfolding write
  write-workers s b = elim (Bool-cases (b.height == expected s)) [
    | inl y ↦ rw y (connected-workers s b _)
    | inr n ↦ rw n refl
  ]

  connected-writer :
      (s : State D) (b : Block) (r : Result D)
      → s.writer ≡ writing
      → (connected bulk s b r).writer ≡ stopped
      → ⊥
  connected-writer s b (ok d) w e = cc
  connected-writer s b (err x) w e = cc
  connected-writer s b panic w e = cc

  write-writer :
      (s : State D) (b : Block) → s.writer ≡ writing → (write bulk o s b).writer ≡ stopped → ⊥
  unfolding write
  write-writer s b w = elim (Bool-cases (b.height == expected s)) [
    | inl y ↦ rw y (connected-writer s b _ w)
    | inr n ↦ rw n (λ e. cc)
  ]

  pub IsWork-terminating :
      {s t : State D}
      → (st : Step bulk o chain s t) → IsWork st
      → s.terminating ≡ false
      → t.terminating ≡ false
  IsWork-terminating (ask hash c te a le q) k e = e
  IsWork-terminating (put hash a len) k e = e
  IsWork-terminating (interrupt c te a le) k e = absurd k
  IsWork-terminating (close_hashes c a q) k e = e
  IsWork-terminating (take_hash xs ys hh hhs w q) k e = e
  IsWork-terminating (leave xs ys w q c) k e = e
  IsWork-terminating (fetch xs ys hh b w q) k e = e
  IsWork-terminating (give_up xs ys hh w c) k e = absurd k
  IsWork-terminating (break_off xs ys hh b w te) k e = absurd k
  IsWork-terminating (receive {s} xs ys hh b w wr q) k e =
      write-terminating (record s { workers = xs ++ (waiting ∷ ys) }) b ∙ e
  IsWork-terminating (stop wr q) k e = absurd k

  pub IsWork-writer :
      {s t : State D}
      → (st : Step bulk o chain s t) → IsWork st
      → s.writer ≡ writing
      → t.writer ≡ stopped
      → ⊥
  IsWork-writer (ask hash c te a le q) k w e = cc
  IsWork-writer (put hash a len) k w e = cc
  IsWork-writer (interrupt c te a le) k w e = k
  IsWork-writer (close_hashes c a q) k w e = cc
  IsWork-writer (take_hash xs ys hh hhs v q) k w e = cc
  IsWork-writer (leave xs ys v q c) k w e = cc
  IsWork-writer (fetch xs ys hh b v q) k w e = cc
  IsWork-writer (give_up xs ys hh v c) k w e = k
  IsWork-writer (break_off xs ys hh b v te) k w e = k
  IsWork-writer (receive {s} xs ys hh b v wr q) k w e =
      write-writer (record s { workers = xs ++ (waiting ∷ ys) }) b w e
  IsWork-writer (stop wr q) k w e = k

  fetched-Persists : (hh : HashHeight) (b : Block) → Persists (fetched o hh b)
  unfolding fetched
  fetched-Persists hh b = elim (Bool-cases o.dry_run) [ inl y ↦ rw y tt | inr n ↦ rw n tt ]

  replaced :
      (s : State D) (xs ys : List Worker) (v w : Worker)
      → s.workers ≡ xs ++ (v ∷ ys)
      → Persists w
      → All Persists s.workers
      → All Persists (xs ++ (w ∷ ys))
  replaced s xs ys v w e u p =
      All-replace Persists xs ys v w (subst (λ ws. All Persists ws) e p) (λ x. u)

  pub IsWork-Persists :
      {s t : State D}
      → (st : Step bulk o chain s t) → IsWork st
      → All Persists s.workers
      → All Persists t.workers
  IsWork-Persists (ask hash c te a le q) k p = p
  IsWork-Persists (put hash a len) k p = p
  IsWork-Persists (interrupt c te a le) k p = absurd k
  IsWork-Persists (close_hashes c a q) k p = p
  IsWork-Persists (take_hash {s} xs ys hh hhs w q) k p =
      replaced s xs ys waiting (fetching hh) w tt p
  IsWork-Persists (leave {s} xs ys w q c) k p = replaced s xs ys waiting exited w tt p
  IsWork-Persists (fetch {s} xs ys hh b w q) k p =
      replaced s xs ys (fetching hh) (fetched o hh b) w (fetched-Persists hh b) p
  IsWork-Persists (give_up xs ys hh w c) k p = absurd k
  IsWork-Persists (break_off xs ys hh b w te) k p = absurd k
  IsWork-Persists (receive {s} xs ys hh b w wr q) k p =
      subst (λ ws. All Persists ws)
        (sym (write-workers (record s { workers = xs ++ (waiting ∷ ys) }) b))
        (replaced s xs ys (sending hh b) waiting w tt p)
  IsWork-Persists (stop wr q) k p = absurd k

  pub IsWork-IsCalm : {s t : State D} → (st : Step bulk o chain s t) → IsWork st → IsCalm st
  IsWork-IsCalm (ask hash c te a le q) k = tt
  IsWork-IsCalm (put hash a len) k = tt
  IsWork-IsCalm (interrupt c te a le) k = k
  IsWork-IsCalm (close_hashes c a q) k = tt
  IsWork-IsCalm (take_hash xs ys hh hhs w q) k = tt
  IsWork-IsCalm (leave xs ys w q c) k = tt
  IsWork-IsCalm (fetch xs ys hh b w q) k = tt
  IsWork-IsCalm (give_up xs ys hh w c) k = k
  IsWork-IsCalm (break_off xs ys hh b w te) k = k
  IsWork-IsCalm (receive xs ys hh b w wr q) k = tt
  IsWork-IsCalm (stop wr q) k = tt
