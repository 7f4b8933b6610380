-- ===== src/Mempool/Resync/Counts.antt =====
-- bchain/mempool_bitcoin_type.go, Resync: how often a transaction stands in the channels and workers.
use skyr_block_explorer.Prelude.{
  ℕ, zero, suc, ◌+◌, ◌≡◌, refl, ap, Bool, true, false, Option, none, some, List, [], ◌∷◌, ◌++◌,
  arith, replicate,
}
use skyr_block_explorer.Prelude.Bytes.{Bytes, bytes_eq}
use skyr_block_explorer.Mempool.{AddrIndex, Mempool}
use skyr_block_explorer.Mempool.Resync.{
  MempoolWorker, idle, working, Sync, start, Step, known, unknown, send, receive, receive_rest,
  take_txid, answer, Reach, here, next,
}

abbrev pub bool_count : Bool → ℕ
bool_count true = 1
bool_count false = 0

-- How often a transaction stands in a list.
abbrev pub count : Bytes → List Bytes → ℕ
count q [] = 0
count q (t ∷ ts) = bool_count (bytes_eq t q) + count q ts

abbrev pub in_channel : Bytes → Option Bytes → ℕ
in_channel q none = 0
in_channel q (some t) = bool_count (bytes_eq t q)

abbrev pub at_work : Bytes → List MempoolWorker → ℕ
at_work q [] = 0
at_work q (idle ∷ ws) = at_work q ws
at_work q (working t ∷ ws) = bool_count (bytes_eq t q) + at_work q ws

pub at_work-append :
    (q : Bytes) (xs ys : List MempoolWorker) → at_work q (xs ++ ys) ≡ at_work q xs + at_work q ys
at_work-append q [] ys = omega arith
at_work-append q (idle ∷ xs) ys = at_work-append q xs ys
at_work-append q (working t ∷ xs) ys = omega (arith, at_work-append q xs ys)

pub at_work-replicate : (q : Bytes) (n : ℕ) → at_work q (replicate n idle) ≡ 0
at_work-replicate q zero = refl
at_work-replicate q (suc n) = at_work-replicate q n

-- The elements of a channel and of the workers.
abbrev pub filled : Option Bytes → ℕ
filled none = 0
filled (some t) = 1

abbrev pub busy : List MempoolWorker → ℕ
busy [] = 0
busy (idle ∷ ws) = busy ws
busy (working t ∷ ws) = 1 + busy ws

pub busy-append : (xs ys : List MempoolWorker) → busy (xs ++ ys) ≡ busy xs + busy ys
busy-append [] ys = omega arith
busy-append (idle ∷ xs) ys = busy-append xs ys
busy-append (working t ∷ xs) ys = omega (arith, busy-append xs ys)

pub busy-replicate : (n : ℕ) → busy (replicate n idle) ≡ 0
busy-replicate zero = refl
busy-replicate (suc n) = busy-replicate n

pub in_channel-filled : (q : Bytes) (o : Option Bytes) → filled o ≡ 0 → in_channel q o ≡ 0
in_channel-filled q none h = refl
in_channel-filled q (some t) h = absurd (omega (arith, h))

pub at_work-busy : (q : Bytes) (ws : List MempoolWorker) → busy ws ≡ 0 → at_work q ws ≡ 0
at_work-busy q [] h = refl
at_work-busy q (idle ∷ ws) h = at_work-busy q ws h
at_work-busy q (working t ∷ ws) h = absurd (omega (arith, h))

-- What the loop has dispatched and not received.
abbrev pub flying : Sync → ℕ
flying s = filled s.chan_txid + (busy s.workers + filled s.chan_addr_index)

module _ (io : Bytes → List AddrIndex) (tx_time : ℕ) where
  -- `dispatched` counts it.
  Step-flying :
      {s t : Sync} → Step io tx_time s t → s.dispatched ≡ flying s → t.dispatched ≡ flying t
  Step-flying (known txid todo e w d h) c = c
  Step-flying (unknown txid todo w d h) c = c
  Step-flying (send txid w n) c = omega (arith, c, ap filled n)
  Step-flying (receive offered txid w e) c = omega (arith, c, ap filled e)
  Step-flying (receive_rest txid d w lt e) c = omega (arith, c, ap filled e)
  Step-flying (take_txid xs ys txid w e) c = omega (
    arith,
    c,
    ap filled e,
    ap busy w,
    busy-append xs (idle ∷ ys),
    busy-append xs (working txid ∷ ys),
  )
  Step-flying (answer xs ys txid w e) c = omega (
    arith,
    c,
    ap filled e,
    ap busy w,
    busy-append xs (idle ∷ ys),
    busy-append xs (working txid ∷ ys),
  )

  pub Reach-flying :
      {s t : Sync} → Reach io tx_time s t → s.dispatched ≡ flying s → t.dispatched ≡ flying t
  Reach-flying here c = c
  Reach-flying (next r step) c = Step-flying step (Reach-flying r c)

pub start-flying :
    (m : Mempool) (txs : List Bytes) (n : ℕ) → (start m txs n).dispatched ≡ flying (start m txs n)
start-flying m txs n = omega (arith, busy-replicate n)
