-- ===== src/Mempool/Resync/Liveness.antt =====
-- bchain/mempool_bitcoin_type.go, Resync: the loop, its channels and its workers do not block each
-- other, and every run is bounded.
use skyr_block_explorer.Prelude.{
  ℕ, zero, suc, ◌+◌, ◌*◌, ◌≤◌, ◌<◌, ◌≡◌, ◌⊎◌, refl, sym, ap, ◌∙◌, Option, none, some, List, [], ◌∷◌,
  ◌++◌, length, replicate, arith, inl, inr, Option-cases,
}
use skyr_block_explorer.Prelude.Bytes.{Bytes}
use skyr_block_explorer.Prelude.GoMap.{lookup}
use skyr_block_explorer.Mempool.{AddrIndex, Mempool}
use skyr_block_explorer.Mempool.Resync.{
  MempoolWorker, idle, working, Sync, start, Step, known, unknown, send, receive, receive_rest,
  take_txid, answer, Reach, here, next, IsFinished,
}
use skyr_block_explorer.Mempool.Resync.Counts.{
  filled, busy, busy-append, busy-replicate, flying, Reach-flying, start-flying,
}

-- Of a transaction there are at most five steps: it is found missing, it is sent, a worker takes it
-- and answers, and the answer is received.
abbrev pub work : Sync → ℕ
work s =
    5 * length s.todo
    + (4 * filled s.waiting
        + (3 * filled s.chan_txid + (2 * busy s.workers + filled s.chan_addr_index)))

length-append_one :
    (xs ys : List MempoolWorker) (v w : MempoolWorker)
    → length (xs ++ (v ∷ ys)) ≡ length (xs ++ (w ∷ ys))
length-append_one [] ys v w = refl
length-append_one (x ∷ xs) ys v w = ap suc (length-append_one xs ys v w)

length-replicate : (n : ℕ) → length (replicate n idle) ≡ n
length-replicate zero = refl
length-replicate (suc n) = ap suc (length-replicate n)

module _ (io : Bytes → List AddrIndex) (tx_time : ℕ) where
  Step-work : {s t : Sync} → Step io tx_time s t → work t < work s
  Step-work (known txid todo e n d h) = omega (arith, ap length d)
  Step-work (unknown txid todo n d h) = omega (arith, ap length d, ap filled n)
  Step-work (send txid e n) = omega (arith, ap filled e, ap filled n)
  Step-work (receive offered txid e n) = omega (arith, ap filled n)
  Step-work (receive_rest txid d e lt n) = omega (arith, ap filled n)
  Step-work (take_txid xs ys txid v e) = omega (
    arith,
    ap filled e,
    ap busy v,
    busy-append xs (idle ∷ ys),
    busy-append xs (working txid ∷ ys),
  )
  Step-work (answer xs ys txid v e) = omega (
    arith,
    ap filled e,
    ap busy v,
    busy-append xs (idle ∷ ys),
    busy-append xs (working txid ∷ ys),
  )

  abbrev pub steps : {s t : Sync} → Reach io tx_time s t → ℕ
  steps here = 0
  steps (next r _) = steps r + 1

  steps-work : {s t : Sync} (r : Reach io tx_time s t) → steps r + work t ≤ work s
  steps-work here = omega arith
  steps-work (next r x) = omega (arith, steps-work r, Step-work x)

  -- The workers do not end.
  Step-workers : {s t : Sync} → Step io tx_time s t → length t.workers ≡ length s.workers
  Step-workers (known txid todo e n d h) = refl
  Step-workers (unknown txid todo n d h) = refl
  Step-workers (send txid e n) = refl
  Step-workers (receive offered txid e n) = refl
  Step-workers (receive_rest txid d e lt n) = refl
  Step-workers (take_txid xs ys txid v e) =
      length-append_one xs ys (working txid) idle ∙ sym (ap length v)
  Step-workers (answer xs ys txid v e) =
      length-append_one xs ys idle (working txid) ∙ sym (ap length v)

  Reach-workers : {s t : Sync} → Reach io tx_time s t → length t.workers ≡ length s.workers
  Reach-workers here = refl
  Reach-workers (next r x) = Step-workers x ∙ Reach-workers r

  abbrev Possible : Sync → Type 0
  Possible s = (t : Sync) × Step io tx_time s t

  -- A full chanTxid and an empty chanAddrIndex: the first worker steps.
  worker-Possible :
      (s : Sync) (txid : Bytes) (ws : List MempoolWorker)
      → s.workers ≡ ws
      → 0 < length ws
      → s.chan_txid ≡ some txid
      → s.chan_addr_index ≡ none
      → Possible s
  worker-Possible s txid [] e lt c a = absurd (omega (arith, lt))
  worker-Possible s txid (idle ∷ ws) e lt c a = (_, take_txid [] ws txid e c)
  worker-Possible s txid (working t ∷ ws) e lt c a = (_, answer [] ws t e a)

  -- The `select`: with both channels full there is an answer to receive.
  select-Possible :
      (s : Sync) (offered : Bytes)
      → 0 < length s.workers
      → s.waiting ≡ some offered
      → (c a : Option Bytes) → s.chan_txid ≡ c
      → s.chan_addr_index ≡ a
      → Possible s
  select-Possible s offered lt e none a ec ea = (_, send offered e ec)
  select-Possible s offered lt e (some t) none ec ea = worker-Possible s t s.workers refl lt ec ea
  select-Possible s offered lt e (some t) (some u) ec ea = (_, receive offered u e ea)

  working_at :
      (ws : List MempoolWorker)
      → 0 < busy ws
      → (xs : List MempoolWorker) × (ys : List MempoolWorker) × (txid : Bytes) × (ws
          ≡ xs ++ (working txid ∷ ys))
  working_at [] lt = absurd (omega (arith, lt))
  working_at (working t ∷ ws) lt = ([], ws, t, refl)
  working_at (idle ∷ ws) lt =
      let (xs, ys, t, e) = working_at ws lt in (idle ∷ xs, ys, t, ap (λ l. idle ∷ l) e)

  -- The loop behind the list, while something is dispatched.
  rest-Possible :
      (s : Sync)
      → 0 < length s.workers
      → s.dispatched ≡ flying s
      → s.todo ≡ []
      → s.waiting ≡ none
      → 0 < s.dispatched
      → (c a : Option Bytes) → s.chan_txid ≡ c
      → s.chan_addr_index ≡ a
      → Possible s
  rest-Possible s lt f d e some_left c (some u) ec ea = (_, receive_rest u d e some_left ea)
  rest-Possible s lt f d e some_left (some t) none ec ea =
      worker-Possible s t s.workers refl lt ec ea
  rest-Possible s lt f d e some_left none none ec ea =
      let (xs, ys, t, w) =
        working_at s.workers (omega (arith, some_left, f, ap filled ec, ap filled ea)) in
      (_, answer xs ys t w ea)

  list-Possible :
      (s : Sync)
      → 0 < length s.workers
      → s.dispatched ≡ flying s
      → (w : Option Bytes) (todo : List Bytes) (n : ℕ) → s.waiting ≡ w
      → s.todo ≡ todo
      → s.dispatched ≡ n
      → IsFinished s ⊎ Possible s
  list-Possible s lt f (some offered) todo n e d c =
      inr (select-Possible s offered lt e s.chan_txid s.chan_addr_index refl refl)
  list-Possible s lt f none (txid ∷ todo) n e d c =
      elim (Option-cases (lookup txid s.mempool.tx_entries)) [
        | inl h ↦ inr (_, unknown txid todo e d h)
        | inr (x, h) ↦ inr (_, known txid todo x e d h)
      ]
  list-Possible s lt f none [] zero e d c =
      inl (record { no_todo = d; no_waiting = e; no_dispatched = c })
  list-Possible s lt f none [] (suc n) e d c =
      inr (rest-Possible s lt f d e (omega (arith, c)) s.chan_txid s.chan_addr_index refl refl)

  -- In every state that a resync with a worker at least comes to, the loop is finished or a step of
  -- the loop or of a worker is possible, and the steps up to it are at most five for each
  -- transaction in the list of the backend.
  pub Reach-unblocked :
      (m : Mempool) (txs : List Bytes) (workers : ℕ) (s : Sync)
      → 0 < workers
      → (r : Reach io tx_time (start m txs workers) s)
      → (IsFinished s ⊎ ((t : Sync) × Step io tx_time s t)) × (steps r ≤ 5 * length txs)
  Reach-unblocked m txs workers s lt r = (
    list-Possible s (omega (arith, lt, Reach-workers r, length-replicate workers))
        (Reach-flying io tx_time r (start-flying m txs workers)) s.waiting s.todo s.dispatched refl
        refl refl,
    omega (arith, steps-work r, busy-replicate workers),
  )
