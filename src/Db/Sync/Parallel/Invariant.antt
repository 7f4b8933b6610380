-- ===== src/Db/Sync/Parallel/Invariant.antt =====
-- db/sync.go: what stays true of ConnectBlocksParallel while its goroutines step.
use mathlib.Core.Path.{subst}
use skyr_block_explorer.Prelude.{
  ℕ, zero, suc, ◌+◌, ◌-◌, ◌%◌, ◌^◌, ◌≤◌, ◌<◌, ◌≡◌, ◌⊎◌, refl, sym, ap, ◌∙◌, true, false, none, some,
  List, [], ◌∷◌, ◌++◌, length, length-append, replicate, arith, All, ltb, inl, inr,
}
use skyr_block_explorer.Prelude.Bytes.{Bytes}
use skyr_block_explorer.Prelude.Result.{Result, ok, ◌>>=◌}
use skyr_block_explorer.Db.Sync.{Backend}
use skyr_block_explorer.Db.Sync.Parallel.{
  HashHeight, Worker, waiting, fetching, sending, gave_up, exited, Writer, writing, stopped,
  skipped_block, connect_failed, BulkIndex, Run, State, start, expected, closed_db, stop_writer,
}
use skyr_block_explorer.Db.Sync.Parallel.Counts.{total-replicate, busy, holds, All-replace}
use skyr_block_explorer.Db.Sync.Parallel.Placed.{Placed, Placed-same, Placed-take}

module _ {D : Type 0} (bulk : BulkIndex D) (chain : Backend) (o : Run) (d0 : D) where
  -- The first blocks, connected one after the other.
  unfoldable pub in_order : ℕ → Result D
  in_order zero = ok d0
  in_order (suc n) = do
    d ← in_order n
    hash ← chain.get_block_hash (o.lower + n)
    b ← chain.get_block hash (o.lower + n)
    bulk.connect_block d b (ltb o.higher ((o.lower + n + o.keep) % 2 ^ 32))

  -- What stands in the data base after `n` blocks.
  abbrev pub Holding : Writer → ℕ → D → Type 0
  Holding writing n d = in_order n ≡ ok d
  Holding stopped n d = (d' : D) × (in_order n ≡ ok d') × (d ≡ closed_db bulk d' (bulk.close d'))
  Holding skipped_block n d = ⊥
  Holding connect_failed n d = Unit

  abbrev pub Consecutive : ℕ → List HashHeight → Type 0
  Consecutive n [] = Unit
  Consecutive n (hh ∷ hhs) =
      (hh.height ≡ n) × (chain.get_block_hash n ≡ ok hh.hash) × Consecutive (suc n) hhs

  Consecutive-put :
      (n : ℕ) (hhs : List HashHeight) (hash : Bytes) (h : ℕ)
      → Consecutive n hhs
      → n + length hhs ≡ h
      → chain.get_block_hash h ≡ ok hash
      → Consecutive n (hhs ++ (record { hash = hash; height = h } ∷ []))
  Consecutive-put n [] hash h c e q =
      let eq : h ≡ n = omega (arith, e) in (eq, ap (λ k. chain.get_block_hash k) (sym eq) ∙ q, tt)
  Consecutive-put n (hh ∷ hhs) hash h c e q =
      (c.0, c.1, Consecutive-put (suc n) hhs hash h c.2 (omega (arith, e)) q)

  -- What a worker has is what the backend answered.
  abbrev pub Answered : Worker → Type 0
  Answered (fetching hh) = chain.get_block_hash hh.height ≡ ok hh.hash
  Answered (sending hh b) =
      (chain.get_block_hash hh.height ≡ ok hh.hash) × (chain.get_block hh.hash hh.height ≡ ok b)
  Answered waiting = Unit
  Answered (gave_up hh) = Unit
  Answered exited = Unit

  pub record Ordered (s : State D) : Type 0 where
    pub written : ℕ
    pub first : ℕ
    pub from_lower : o.lower + written ≡ expected s
    pub queued : first + length s.hashes ≡ s.height
    pub fits : s.height ≤ o.higher + 1
    pub consecutive : Consecutive first s.hashes
    pub placed : Placed o.sync_workers (expected s) first s.workers
    pub answered : All Answered s.workers
    pub ended : s.closed ≡ true → (s.terminating ≡ true) ⊎ (s.height ≡ o.higher + 1)
    pub holding : Holding s.writer written s.db

  All-replicate : (n : ℕ) → All Answered (replicate n waiting)
  All-replicate zero = tt
  All-replicate (suc n) = (tt, All-replicate n)

  length-replicate : (n : ℕ) → length (replicate n waiting) ≡ n
  length-replicate zero = refl
  length-replicate (suc n) = ap suc (length-replicate n)

  module _ (fair : o.lower ≤ o.higher + 1) (small : o.higher + 1 < 2 ^ 32) where
    pub Ordered-start : Ordered (start o d0)
    unfolding start expected in_order
    Ordered-start =
        let e : (((o.lower + (2 ^ 32 - 1)) % 2 ^ 32) + 1) % 2 ^ 32 ≡ o.lower =
          omega (arith, fair, small) in
        record {
          written = 0;
          first = o.lower;
          from_lower = omega (arith, e);
          queued = omega arith;
          fits = fair;
          consecutive = tt;
          placed = record {
            load = omega (arith, e, total-replicate busy o.sync_workers refl);
            counts = λ h. total-replicate (holds h) o.sync_workers refl ∙ ground (arith, e);
            size = length-replicate o.sync_workers;
          };
          answered = All-replicate o.sync_workers;
          ended = λ q. cc;
          holding = refl;
        }

  pub offered :
      (s : State D) (ws : List Worker)
      → (p : Ordered s) → s.workers ≡ ws
      → Placed o.sync_workers (expected s) p.first ws
  offered s ws p w = subst (λ ws. Placed o.sync_workers (expected s) p.first ws) w p.placed

  pub Ordered-put :
      (s : State D) (hash : Bytes)
      → o.higher + 1 < 2 ^ 32
      → Ordered s
      → s.closed ≡ false
      → s.height ≤ o.higher
      → chain.get_block_hash s.height ≡ ok hash
      → Ordered (record s {
        hashes = s.hashes ++ (record { hash = hash; height = s.height } ∷ []);
        height = (s.height + 1) % 2 ^ 32;
        asked = none;
      })
  unfolding expected
  Ordered-put s hash small p c le q = record {
    written = p.written;
    first = p.first;
    from_lower = p.from_lower;
    queued = omega (
      arith,
      p.queued,
      small,
      le,
      length-append s.hashes (record { hash = hash; height = s.height } ∷ []),
    );
    fits = omega (arith, small, le);
    consecutive = Consecutive-put p.first s.hashes hash s.height p.consecutive p.queued q;
    placed = p.placed;
    answered = p.answered;
    ended = λ y. cc;
    holding = p.holding;
  }

  pub Ordered-take :
      (s : State D) (xs ys : List Worker) (hh : HashHeight) (hhs : List HashHeight)
      → Ordered s
      → s.workers ≡ xs ++ (waiting ∷ ys)
      → s.hashes ≡ hh ∷ hhs
      → Ordered (record s { workers = xs ++ (fetching hh ∷ ys); hashes = hhs })
  unfolding expected
  Ordered-take s xs ys hh hhs p w q =
      let c : Consecutive p.first (hh ∷ hhs) = subst (λ l. Consecutive p.first l) q p.consecutive in
      record {
        written = p.written;
        first = suc p.first;
        from_lower = p.from_lower;
        queued = omega (arith, p.queued, ap length q);
        fits = p.fits;
        consecutive = c.2;
        placed =
            Placed-take o.sync_workers (expected s) p.first xs ys hh
              (offered s (xs ++ (waiting ∷ ys)) p w) c.0;
        answered =
            All-replace Answered xs ys waiting (fetching hh)
              (subst (λ ws. All Answered ws) w p.answered)
              (λ u. ap (λ k. chain.get_block_hash k) c.0 ∙ c.1);
        ended = p.ended;
        holding = p.holding;
      }

  -- A worker that goes on with its height, or has none before and after.
  pub Ordered-same :
      (s : State D) (xs ys : List Worker) (v w : Worker)
      → Ordered s
      → s.workers ≡ xs ++ (v ∷ ys)
      → busy w ≡ busy v
      → ((h : ℕ) → holds h w ≡ holds h v)
      → (Answered v → Answered w)
      → Ordered (record s { workers = xs ++ (w ∷ ys) })
  unfolding expected
  Ordered-same s xs ys v w p e eb eh f = record {
    written = p.written;
    first = p.first;
    from_lower = p.from_lower;
    queued = p.queued;
    fits = p.fits;
    consecutive = p.consecutive;
    placed =
        Placed-same o.sync_workers (expected s) p.first xs ys v w (offered s (xs ++ (v ∷ ys)) p e)
          eb eh;
    answered = All-replace Answered xs ys v w (subst (λ ws. All Answered ws) e p.answered) f;
    ended = p.ended;
    holding = p.holding;
  }

  pub Ordered-ask :
      (s : State D) (hash : Bytes) → Ordered s → Ordered (record s { asked = some hash })
  unfolding expected
  Ordered-ask s hash p = record {
    written = p.written;
    first = p.first;
    from_lower = p.from_lower;
    queued = p.queued;
    fits = p.fits;
    consecutive = p.consecutive;
    placed = p.placed;
    answered = p.answered;
    ended = p.ended;
    holding = p.holding;
  }

  pub Ordered-interrupt :
      (s : State D) → Ordered s → s.closed ≡ false → Ordered (record s { terminating = true })
  unfolding expected
  Ordered-interrupt s p c = record {
    written = p.written;
    first = p.first;
    from_lower = p.from_lower;
    queued = p.queued;
    fits = p.fits;
    consecutive = p.consecutive;
    placed = p.placed;
    answered = p.answered;
    ended = λ y. cc;
    holding = p.holding;
  }

  pub Ordered-close :
      (s : State D)
      → Ordered s
      → (s.terminating ≡ true) ⊎ (o.higher < s.height)
      → Ordered (record s { closed = true })
  unfolding expected
  Ordered-close s p c = record {
    written = p.written;
    first = p.first;
    from_lower = p.from_lower;
    queued = p.queued;
    fits = p.fits;
    consecutive = p.consecutive;
    placed = p.placed;
    answered = p.answered;
    ended = λ y. elim c [ inl t ↦ inl t | inr lt ↦ inr (omega (arith, lt, p.fits)) ];
    holding = p.holding;
  }

  pub Ordered-stop : (s : State D) → Ordered s → s.writer ≡ writing → Ordered (stop_writer bulk s)
  unfolding expected stop_writer
  Ordered-stop s p w = record {
    written = p.written;
    first = p.first;
    from_lower = p.from_lower;
    queued = p.queued;
    fits = p.fits;
    consecutive = p.consecutive;
    placed = p.placed;
    answered = p.answered;
    ended = p.ended;
    holding = (s.db, subst (λ v. Holding v p.written s.db) w p.holding, refl);
  }
