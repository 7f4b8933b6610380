-- ===== src/Db/Sync/Parallel/Progress.antt =====
-- db/sync.go: a bound on the steps that a run of ConnectBlocksParallel has left.
use Prim.Native.Nat.{◌*◌}
use skyr_block_explorer.Prelude.{
  ℕ, ◌+◌, ◌-◌, ◌^◌, ◌≤◌, ◌<◌, ◌≡◌, ap, Bool, true, false, Option, none, some, List, [], ◌∷◌, ◌++◌,
  length, length-append, arith, ◌==◌, Bool-cases, inl, inr,
}
use skyr_block_explorer.Prelude.Result.{Result, ok, err, panic}
use skyr_block_explorer.Chain.{Block}
use skyr_block_explorer.Db.Sync.{Backend}
use skyr_block_explorer.Db.Sync.Parallel.{
  HashHeight, Worker, waiting, fetching, sending, gave_up, exited, Writer, writing, stopped,
  skipped_block, connect_failed, BulkIndex, Run, State, expected, fetched, connected, write,
  stop_writer, Step, ask, put, interrupt, close_hashes, take_hash, leave, fetch, give_up, break_off,
  receive, stop,
}
use skyr_block_explorer.Prelude.Bytes.{Bytes}
use skyr_block_explorer.Db.Sync.Parallel.Asking.{Asking, asked-Offers}
use skyr_block_explorer.Db.Sync.Parallel.Counts.{total, total-append}

-- The steps that a worker has before it.
abbrev pub ahead : Worker → ℕ
ahead waiting = 1
ahead (fetching hh) = 3
ahead (sending hh b) = 2
ahead (gave_up hh) = 0
ahead exited = 0

abbrev pub one_unless : Bool → ℕ
one_unless true = 0
one_unless false = 1

abbrev pub one_without : Option Bytes → ℕ
one_without none = 1
one_without (some hash) = 0

abbrev pub one_while : Writer → ℕ
one_while writing = 1
one_while stopped = 0
one_while skipped_block = 0
one_while connect_failed = 0

-- A bound on the steps that are left.
unfoldable pub steps_left : {D : Type 0} → Run → State D → ℕ
steps_left o s =
    5 * (o.higher + 1 - s.height)
    + 3 * length s.hashes
    + total ahead s.workers
    + one_unless s.closed
    + one_unless s.terminating
    + one_without s.asked
    + one_while s.writer

module _ {D : Type 0} (bulk : BulkIndex D) (chain : Backend) (o : Run) (d0 : D) where
  fewer :
      (s : State D) (xs ys : List Worker) (v w : Worker)
      → s.workers ≡ xs ++ (v ∷ ys)
      → ahead w < ahead v
      → steps_left o (record s { workers = xs ++ (w ∷ ys) }) < steps_left o s
  unfolding steps_left
  fewer s xs ys v w e lt = omega (
    arith,
    ap (λ ws. total ahead ws) e,
    total-append ahead xs ys v,
    total-append ahead xs ys w,
    lt,
  )

  connected-fewer :
      (s : State D) (b : Block) (r : Result D)
      → s.writer ≡ writing
      → steps_left o (connected bulk s b r) ≤ steps_left o s
  unfolding steps_left
  connected-fewer s b (ok d) w = omega arith
  connected-fewer s b (err e) w = omega (arith, ap one_while w)
  connected-fewer s b panic w = omega (arith, ap one_while w)

  write-fewer :
      (s : State D) (b : Block)
      → s.writer ≡ writing
      → steps_left o (write bulk o s b) ≤ steps_left o s
  unfolding write
  write-fewer s b w = elim (Bool-cases (b.height == expected s)) [
    | inl y ↦ rw y (connected-fewer s b _ w)
    | inr n ↦ rw n (unfold steps_left in omega (arith, ap one_while w))
  ]

  fetched-ahead : (hh : HashHeight) (b : Block) → ahead (fetched o hh b) < 3
  unfolding fetched
  fetched-ahead hh b = elim (Bool-cases o.dry_run) [
    | inl y ↦ rw y (omega arith)
    | inr n ↦ rw n (omega arith)
  ]

  -- Every step leaves fewer.
  pub Step-fewer :
      {s t : State D}
      → o.higher + 1 < 2 ^ 32
      → Asking bulk chain o d0 s
      → Step bulk o chain s t
      → steps_left o t < steps_left o s
  unfolding steps_left stop_writer
  Step-fewer small k (ask {s} hash c te a le q) = omega (arith, ap one_without a)
  Step-fewer small k (put {s} hash a len) =
      let f = asked-Offers bulk chain o d0 s hash k a in
      omega (
        arith,
        small,
        f.inside,
        ap one_without a,
        length-append s.hashes (record { hash = hash; height = s.height } ∷ []),
      )
  Step-fewer small k (interrupt {s} c te a le) = omega (arith, ap one_unless te)
  Step-fewer small k (close_hashes {s} c a q) = omega (arith, ap one_unless c)
  Step-fewer small k (take_hash {s} xs ys hh hhs w q) = omega (
    arith,
    ap (λ ws. total ahead ws) w,
    ap length q,
    total-append ahead xs ys waiting,
    total-append ahead xs ys (fetching hh),
  )
  Step-fewer small k (leave {s} xs ys w q c) = fewer s xs ys waiting exited w (omega arith)
  Step-fewer small k (fetch {s} xs ys hh b w q) =
      fewer s xs ys (fetching hh) (fetched o hh b) w (fetched-ahead hh b)
  Step-fewer small k (give_up {s} xs ys hh w c) =
      fewer s xs ys (fetching hh) (gave_up hh) w (omega arith)
  Step-fewer small k (break_off {s} xs ys hh b w te) =
      fewer s xs ys (sending hh b) (gave_up hh) w (omega arith)
  Step-fewer small k (receive {s} xs ys hh b w wr q) =
      let a = fewer s xs ys (sending hh b) waiting w (omega arith) in
      let c = write-fewer (record s { workers = xs ++ (waiting ∷ ys) }) b wr in omega (arith, a, c)
  Step-fewer small k (stop {s} wr q) = omega (arith, ap one_while wr)
