-- ===== src/Db/Sync/Parallel/Order.antt =====
-- db/sync.go: ConnectBlocksParallel connects the blocks in their order.
use mathlib.Core.Path.{subst}
use skyr_block_explorer.Prelude.{
  ℕ, suc, ◌+◌, ◌%◌, ◌^◌, ◌≤◌, ◌<◌, ◌≡◌, ◌⊎◌, refl, sym, ◌∙◌, true, false, List, ◌∷◌, ◌++◌, arith,
  All, ltb, ◌==◌, inl, inr,
}
use skyr_block_explorer.Prelude.Bytes.{Bytes}
use skyr_block_explorer.Prelude.Result.{Result, ok, err, panic}
use skyr_block_explorer.Chain.{Block}
use skyr_block_explorer.Db.Sync.{Backend}
use skyr_block_explorer.Db.Sync.Parallel.{
  HashHeight, Worker, waiting, fetching, sending, gave_up, exited, writing, connect_failed,
  BulkIndex, Run, State, expected, fetched, connected, write, Step, ask, put, interrupt,
  close_hashes, take_hash, leave, fetch, give_up, break_off, receive, stop, Reach, begin, next,
}
use skyr_block_explorer.Db.Sync.Parallel.Counts.{All-replace, All-at}
use skyr_block_explorer.Db.Sync.Parallel.Placed.{Placed, Placed-receive, offered_height}
use skyr_block_explorer.Db.Sync.Parallel.Asking.{Asking, asked-Offers, Reach-Asking}
use skyr_block_explorer.Db.Sync.Parallel.Invariant.{
  in_order, Holding, Ordered, Answered, offered, Ordered-start, Ordered-put, Ordered-ask,
  Ordered-take, Ordered-same, Ordered-interrupt, Ordered-close, Ordered-stop,
}

module _ {D : Type 0} (bulk : BulkIndex D) (chain : Backend) (o : Run) (d0 : D) where
  module _ (small : o.higher + 1 < 2 ^ 32) (s : State D) (xs ys : List Worker) (hh : HashHeight)
      (b : Block) (p : Ordered bulk chain o d0 s) (w : s.workers ≡ xs ++ (sending hh b ∷ ys))
      (wr : s.writer ≡ writing) (here : hh.height ≡ expected s)
      (numbered : b.height ≡ hh.height) where
    known : All (Answered bulk chain o d0) (xs ++ (sending hh b ∷ ys))
    known = subst (λ ws. All (Answered bulk chain o d0) ws) w p.answered

    -- The block is the one that is connected next, in their order.
    next_in_order :
        in_order bulk chain o d0 (suc p.written)
        ≡ bulk.connect_block s.db b (ltb o.higher ((b.height + o.keep) % 2 ^ 32))
    unfolding in_order
    next_in_order =
        let a = All-at (Answered bulk chain o d0) xs ys (sending hh b) known in
        let k : o.lower + p.written ≡ hh.height = p.from_lower ∙ sym here in
        let held : in_order bulk chain o d0 p.written ≡ ok s.db =
          subst (λ v. Holding bulk chain o d0 v p.written s.db) wr p.holding in
        rw (held, k, a.0, a.1, numbered) refl

    Ordered-connected :
        (r : Result D)
        → in_order bulk chain o d0 (suc p.written) ≡ r
        → Ordered bulk chain o d0 (connected bulk (record s { workers = xs ++ (waiting ∷ ys) }) b r)
          ⊎ ((connected bulk (record s { workers = xs ++ (waiting ∷ ys) }) b r).writer
              ≡ connect_failed)
    unfolding expected
    Ordered-connected (err e) q = inr refl
    Ordered-connected panic q = inr refl
    Ordered-connected (ok d) q =
        let placed =
          Placed-receive o.sync_workers (expected s) p.first xs ys hh b
            (offered bulk chain o d0 s (xs ++ (sending hh b ∷ ys)) p w) here in
        let e : (b.height + 1) % 2 ^ 32 ≡ expected s + 1 =
          omega (arith, placed.load, p.queued, p.fits, small, here, numbered) in
        inl (record {
          written = suc p.written;
          first = p.first;
          from_lower = omega (arith, e, p.from_lower);
          queued = p.queued;
          fits = p.fits;
          consecutive = p.consecutive;
          placed =
              subst (λ n. Placed o.sync_workers n p.first (xs ++ (waiting ∷ ys))) (sym e) placed;
          answered =
              All-replace (Answered bulk chain o d0) xs ys (sending hh b) waiting known (λ u. tt);
          ended = p.ended;
          holding = rw wr q;
        })

  -- The backend answers with a block of the height that was asked for, and the run is not dry.
  module _ (small : o.higher + 1 < 2 ^ 32) (real : o.dry_run ≡ false)
      (numbered : (hash : Bytes) (h : ℕ) (b : Block)
        → chain.get_block hash h ≡ ok b
        → b.height ≡ h) where
    Ordered-receive :
        (s : State D) (xs ys : List Worker) (hh : HashHeight) (b : Block)
        → Ordered bulk chain o d0 s
        → s.workers ≡ xs ++ (sending hh b ∷ ys)
        → s.writer ≡ writing
        → hh.height % o.sync_workers ≡ expected s % o.sync_workers
        → Ordered bulk chain o d0 (write bulk o (record s { workers = xs ++ (waiting ∷ ys) }) b)
          ⊎ ((write bulk o (record s { workers = xs ++ (waiting ∷ ys) }) b).writer ≡ connect_failed)
    unfolding write expected
    Ordered-receive s xs ys hh b p w wr q =
        let here =
          offered_height o.sync_workers (expected s) p.first xs ys hh b
            (offered bulk chain o d0 s (xs ++ (sending hh b ∷ ys)) p w) q in
        let a =
          All-at (Answered bulk chain o d0) xs ys (sending hh b)
            (subst (λ ws. All (Answered bulk chain o d0) ws) w p.answered) in
        let e = numbered hh.hash hh.height b a.1 in
        let y : (b.height == (s.last_block + 1) % 2 ^ 32) ≡ true = ground (arith, here, e) in
        rw y (
          Ordered-connected small s xs ys hh b p w wr here e
            (bulk.connect_block s.db b (ltb o.higher ((b.height + o.keep) % 2 ^ 32)))
            (next_in_order small s xs ys hh b p w wr here e))

    fetched_real : (hh : HashHeight) (b : Block) → fetched o hh b ≡ sending hh b
    unfolding fetched
    fetched_real hh b = rw real refl

    Ordered-Step :
        (s t : State D)
        → Ordered bulk chain o d0 s
        → Asking bulk chain o d0 s
        → Step bulk o chain s t
        → Ordered bulk chain o d0 t ⊎ (t.writer ≡ connect_failed)
    Ordered-Step s t p k (ask hash c te a le q) = inl (Ordered-ask bulk chain o d0 s hash p)
    Ordered-Step s t p k (put hash a len) =
        let f = asked-Offers bulk chain o d0 s hash k a in
        inl (Ordered-put bulk chain o d0 s hash small p f.open_still f.inside f.answer)
    Ordered-Step s t p k (interrupt c te a le) = inl (Ordered-interrupt bulk chain o d0 s p c)
    Ordered-Step s t p k (close_hashes c a q) = inl (Ordered-close bulk chain o d0 s p q)
    Ordered-Step s t p k (take_hash xs ys hh hhs w q) =
        inl (Ordered-take bulk chain o d0 s xs ys hh hhs p w q)
    Ordered-Step s t p k (leave xs ys w q c) =
        inl (Ordered-same bulk chain o d0 s xs ys waiting exited p w refl (λ h. refl) (λ u. tt))
    Ordered-Step s t p k (fetch xs ys hh b w q) = inl (
        subst (λ v. Ordered bulk chain o d0 (record s { workers = xs ++ (v ∷ ys) }))
          (sym (fetched_real hh b))
          (Ordered-same bulk chain o d0 s xs ys (fetching hh) (sending hh b) p w refl (λ h. refl)
            (λ u. (u, q))))
    Ordered-Step s t p k (give_up xs ys hh w c) = inl (
        Ordered-same bulk chain o d0 s xs ys (fetching hh) (gave_up hh) p w refl (λ h. refl)
          (λ u. tt))
    Ordered-Step s t p k (break_off xs ys hh b w te) = inl (
        Ordered-same bulk chain o d0 s xs ys (sending hh b) (gave_up hh) p w refl (λ h. refl)
          (λ u. tt))
    Ordered-Step s t p k (receive xs ys hh b w wr q) = Ordered-receive s xs ys hh b p w wr q
    Ordered-Step s t p k (stop wr q) = inl (Ordered-stop bulk chain o d0 s p wr)

    failed-Step :
        (s t : State D)
        → s.writer ≡ connect_failed
        → Step bulk o chain s t
        → t.writer ≡ connect_failed
    failed-Step s t p (ask hash c te a le q) = p
    failed-Step s t p (put hash a len) = p
    failed-Step s t p (interrupt c te a le) = p
    failed-Step s t p (close_hashes c a q) = p
    failed-Step s t p (take_hash xs ys hh hhs w q) = p
    failed-Step s t p (leave xs ys w q c) = p
    failed-Step s t p (fetch xs ys hh b w q) = p
    failed-Step s t p (give_up xs ys hh w c) = p
    failed-Step s t p (break_off xs ys hh b w te) = p
    failed-Step s t p (receive xs ys hh b w wr q) = cc
    failed-Step s t p (stop wr q) = cc

    pub Reach-Ordered :
        {s : State D}
        → o.lower ≤ o.higher + 1
        → Reach bulk o chain d0 s
        → Ordered bulk chain o d0 s ⊎ (s.writer ≡ connect_failed)
    Reach-Ordered fair begin = inl (Ordered-start bulk chain o d0 fair small)
    Reach-Ordered fair (next {s} {t} r st) = elim (Reach-Ordered fair r) [
      | inl p ↦ Ordered-Step s t p (Reach-Asking bulk chain o d0 r) st
      | inr f ↦ inr (failed-Step s t f st)
    ]

-- For a run of ConnectBlocksParallel that is not dry, between heights below the highest uint32,
-- with a backend that answers with a block of the height that was asked for: in every state that
-- the goroutines come to, in whatever order they step, either the connecting of a block failed, or
-- the writer has not skipped a block, and the data base holds what connecting the first n blocks
-- one after the other gives, each with the request for its data where it is among the last ones,
-- and closed if the writer has stopped; the block that the writer waits for is the next one.
pub connect_blocks_parallel-in_order :
    {D : Type 0} (bulk : BulkIndex D) (chain : Backend) (o : Run) (d : D) {s : State D}
    → o.lower ≤ o.higher + 1
    → o.higher + 1 < 2 ^ 32
    → o.dry_run ≡ false
    → ((hash : Bytes) (h : ℕ) (b : Block) → chain.get_block hash h ≡ ok b → b.height ≡ h)
    → Reach bulk o chain d s
    → (s.writer ≡ connect_failed)
      ⊎ ((n : ℕ) × (o.lower + n ≡ expected s) × Holding bulk chain o d s.writer n s.db)
connect_blocks_parallel-in_order bulk chain o d {s} fair small real numbered r =
    elim (Reach-Ordered bulk chain o d small real numbered fair r) [
      | inl p ↦ inr (p.written, p.from_lower, p.holding)
      | inr f ↦ inl f
    ]
