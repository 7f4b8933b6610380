-- ===== src/Db/Sync/Parallel/Unblocked.antt =====
-- db/sync.go: a step of ConnectBlocksParallel while the writer waits and there was no signal.
use mathlib.Core.Path.{subst}
use native.Mathlib.Decide.{dec_lt}
use skyr_block_explorer.Prelude.{
  ℕ, ◌+◌, ◌%◌, ◌^◌, ◌≤◌, ◌<◌, ◌≡◌, ◌⊎◌, refl, ap, ◌∙◌, Bool, true, false, Option, none, some, List,
  [], ◌∷◌, ◌++◌, length, arith, All, inl, inr,
}
use skyr_block_explorer.Prelude.Bytes.{Bytes}
use skyr_block_explorer.Prelude.Result.{ok}
use skyr_block_explorer.Chain.{Block}
use skyr_block_explorer.Db.Sync.{Backend}
use skyr_block_explorer.Db.Sync.Parallel.{
  HashHeight, Worker, waiting, fetching, sending, gave_up, exited, writing, BulkIndex, Run, State,
  expected, Step, ask, put, close_hashes, take_hash, leave, fetch, receive,
}
use skyr_block_explorer.Db.Sync.Parallel.Asking.{Asking}
use skyr_block_explorer.Db.Sync.Parallel.Calm.{Persists, IsWork}
use skyr_block_explorer.Db.Sync.Parallel.Counts.{busy, holds, All-at}
use skyr_block_explorer.Db.Sync.Parallel.Invariant.{Ordered, Answered}
use skyr_block_explorer.Db.Sync.Parallel.Counts.{total}
use skyr_block_explorer.Db.Sync.Parallel.Finish.{Exited}

abbrev At : (Worker → Type 0) → List Worker → Type 0
At P ws = (xs : List Worker) × (ys : List Worker) × (w : Worker) × (ws ≡ xs ++ (w ∷ ys)) × P w

At-cons : (P : Worker → Type 0) (v : Worker) (ws : List Worker) → At P ws → At P (v ∷ ws)
At-cons P v ws (xs, ys, w, e, p) = (v ∷ xs, ys, w, ap (λ l. v ∷ l) e, p)

holder : (h : ℕ) (ws : List Worker) → 0 < total (holds h) ws → At (λ w. 0 < holds h w) ws
holder h [] lt = ground arith
holder h (w ∷ ws) lt = elim (dec_lt 0 (holds h w)) [
  | yes y ↦ ([], ws, w, refl, y)
  | no n ↦ At-cons (λ v. 0 < holds h v) w ws (holder h ws (omega (arith, lt, n)))
]

-- Where no worker has a height, one waits or all have left.
waiter : (ws : List Worker) → total busy ws ≡ 0 → At (λ w. w ≡ waiting) ws ⊎ All Exited ws
waiter [] z = inr tt
waiter (waiting ∷ ws) z = inl ([], ws, waiting, refl, refl)
waiter (exited ∷ ws) z = elim (waiter ws (omega (arith, z))) [
  | inl a ↦ inl (At-cons (λ w. w ≡ waiting) exited ws a)
  | inr a ↦ inr (tt, a)
]
waiter (fetching hh ∷ ws) z = ground arith
waiter (sending hh b ∷ ws) z = ground arith
waiter (gave_up hh ∷ ws) z = ground arith

module _ {D : Type 0} (bulk : BulkIndex D) (chain : Backend) (o : Run) (d0 : D)
    (small : o.higher + 1 < 2 ^ 32)
    (named : (h : ℕ) → h ≤ o.higher → (hash : Bytes) × (chain.get_block_hash h ≡ ok hash))
    (answers : (h : ℕ) (hash : Bytes)
      → h ≤ o.higher
      → chain.get_block_hash h ≡ ok hash
      → (b : Block) × (chain.get_block hash h ≡ ok b))
    (s : State D) (p : Ordered bulk chain o d0 s) (k : Asking bulk chain o d0 s)
    (wr : s.writer ≡ writing) (calm : s.terminating ≡ false) where
  abbrev Possible : Type 0
  Possible = (t : State D) × (st : Step bulk o chain s t) × IsWork bulk chain o st

  -- The worker that has the height that the writer waits for can step.
  holder-Possible :
      (xs ys : List Worker) (w : Worker)
      → s.workers ≡ xs ++ (w ∷ ys)
      → expected s ≤ o.higher
      → 0 < holds (expected s) w
      → Persists w
      → Answered bulk chain o d0 w
      → Possible
  holder-Possible xs ys (fetching hh) e le lt u a =
      let here : hh.height ≡ expected s = ground (arith, lt) in
      let (b, q) = answers hh.height hh.hash (omega (arith, le, here)) a in
      (_, fetch xs ys hh b e q, tt)
  holder-Possible xs ys (sending hh b) e le lt u a =
      let here : hh.height ≡ expected s = ground (arith, lt) in
      (_, receive xs ys hh b e wr (ap (λ n. n % o.sync_workers) here), tt)
  holder-Possible xs ys (gave_up hh) e le lt u a = absurd u
  holder-Possible xs ys waiting e le lt u a = ground arith
  holder-Possible xs ys exited e le lt u a = ground arith

  busy-Possible : All Persists s.workers → 0 < total busy s.workers → Possible
  busy-Possible ps lt =
      let le : expected s < p.first = omega (arith, lt, p.placed.load) in
      let one : total (holds (expected s)) s.workers ≡ 1 =
        p.placed.counts (expected s) ∙ ground (arith, le) in
      let (xs, ys, w, e, h) = holder (expected s) s.workers (omega (arith, one)) in
      holder-Possible xs ys w e (omega (arith, le, p.queued, p.fits)) h
        (All-at Persists xs ys w (subst (λ ws. All Persists ws) e ps))
        (All-at (Answered bulk chain o d0) xs ys w
          (subst (λ ws. All (Answered bulk chain o d0) ws) e p.answered))

  -- ConnectLoop, while the channel is open and empty.
  loop-Possible :
      (a : Option Bytes)
      → s.asked ≡ a
      → s.hashes ≡ []
      → s.closed ≡ false
      → 0 < o.sync_workers
      → Possible
  loop-Possible (some hash) e q cl some_worker =
      (_, put hash e (omega (arith, ap length q, some_worker)), tt)
  loop-Possible none e q cl some_worker = elim (dec_lt o.higher s.height) [
    | yes lt ↦ (_, close_hashes cl e (inr lt), tt)
    | no n ↦
        let le : s.height ≤ o.higher = omega (arith, n) in
        let (hash, h) = named s.height le in (_, ask hash cl calm e le h, tt)
  ]

  -- With a worker that waits.
  waiter-Possible :
      (hhs : List HashHeight) (c : Bool)
      → s.hashes ≡ hhs
      → s.closed ≡ c
      → 0 < o.sync_workers
      → At (λ w. w ≡ waiting) s.workers
      → Possible
  waiter-Possible (hh ∷ hhs) c q cl some_worker (xs, ys, w, e, v) =
      (_, take_hash xs ys hh hhs (e ∙ ap (λ x. xs ++ (x ∷ ys)) v) q, tt)
  waiter-Possible [] true q cl some_worker (xs, ys, w, e, v) =
      (_, leave xs ys (e ∙ ap (λ x. xs ++ (x ∷ ys)) v) q cl, tt)
  waiter-Possible [] false q cl some_worker a = loop-Possible s.asked refl q cl some_worker

  pub Ordered-Possible :
      0 < o.sync_workers → All Persists s.workers → Possible ⊎ All Exited s.workers
  Ordered-Possible some_worker ps = elim (dec_lt 0 (total busy s.workers)) [
    | yes lt ↦ inl (busy-Possible ps lt)
    | no n ↦ elim (waiter s.workers (omega (arith, n))) [
      | inl a ↦ inl (waiter-Possible s.hashes s.closed refl refl some_worker a)
      | inr a ↦ inr a
    ]
  ]
