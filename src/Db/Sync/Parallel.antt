-- ===== src/Db/Sync/Parallel.antt =====
-- db/sync.go: ConnectBlocksParallel, whose goroutines and channels are a system of steps.
pub mod Counts
pub mod Placed
pub mod Invariant
pub mod Asking
pub mod Order
pub mod Finish
pub mod Progress
pub mod Unblocked
pub mod Calm
pub mod Completes
use skyr_block_explorer.Prelude.{
  ℕ, ◌+◌, ◌-◌, ◌%◌, ◌^◌, ◌≤◌, ◌<◌, ◌≡◌, ◌⊎◌, Bool, true, false, Option, none, some, List, [], ◌∷◌,
  ◌++◌, length, replicate, All, ltb, ◌==◌, if◌then◌else◌,
}
use skyr_block_explorer.Prelude.Bytes.{Bytes}
use skyr_block_explorer.Prelude.Result.{Result, ok, err, panic}
use skyr_block_explorer.Chain.{Block}
use skyr_block_explorer.Db.Sync.{Backend}

pub record HashHeight : Type 0 where
  pub hash : Bytes
  pub height : ℕ

-- A getBlockWorker waits for a height, asks for its block, offers the block to the writer, or has
-- left its loop: with a block that it did not deliver, or when there were no more heights.
pub data Worker : Type 0 where
  waiting : Worker
  fetching : HashHeight → Worker
  sending : HashHeight → Block → Worker
  gave_up : HashHeight → Worker
  exited : Worker

-- The writeBlockWorker; both calls of glog.Fatal end the program.
pub data Writer : Type 0 where
  writing : Writer
  stopped : Writer
  skipped_block : Writer
  connect_failed : Writer

-- What the writer asks of the bulk connection; `D` is its state.
pub record BulkIndex (D : Type 0) : Type 0 where
  pub connect_block : D → Block → Bool → Result D
  pub close : D → Result D

-- What stays during a run: `keep` is KeepBlockAddresses of the parser.
pub record Run : Type 0 where
  pub lower : ℕ
  pub higher : ℕ
  pub sync_workers : ℕ
  pub keep : ℕ
  pub dry_run : Bool

-- `height` is the `h` of ConnectLoop, and `asked` the hash that it has got for that height and offers
-- to the channel hch; while it waits there, it does not look at the signal. `hashes` is the content of
-- hch; hch is closed when `closed` holds, and hchClosed is set with it. A channel bch[i] holds nothing.
pub record State (D : Type 0) : Type 0 where
  pub height : ℕ
  pub asked : Option Bytes
  pub hashes : List HashHeight
  pub closed : Bool
  pub terminating : Bool
  pub workers : List Worker
  pub last_block : ℕ
  pub writer : Writer
  pub db : D

abbrev pub HasLeft : Worker → Type 0
HasLeft exited = Unit
HasLeft (gave_up hh) = Unit
HasLeft w = ⊥

unfoldable pub start : {D : Type 0} → Run → D → State D
start o d = record {
  height = o.lower;
  asked = none;
  hashes = [];
  closed = false;
  terminating = false;
  workers = replicate o.sync_workers waiting;
  last_block = (o.lower + (2 ^ 32 - 1)) % 2 ^ 32;
  writer = writing;
  db = d;
}

-- The block that the writer waits for, which it takes from the channel of this number.
unfoldable pub expected : {D : Type 0} → State D → ℕ
expected s = (s.last_block + 1) % 2 ^ 32

-- What a worker does with its block; in a dry run it goes on.
unfoldable pub fetched : Run → HashHeight → Block → Worker
fetched o hh b = if o.dry_run then waiting else sending hh b

module _ {D : Type 0} (bulk : BulkIndex D) where
  abbrev pub connected : State D → Block → Result D → State D
  connected s b (ok d) = record s { last_block = b.height; db = d }
  connected s b (err e) = record s { writer = connect_failed }
  connected s b panic = record s { writer = connect_failed }

  -- One block that came to the writer.
  unfoldable pub write : Run → State D → Block → State D
  write o s b =
      if b.height == expected s
      then connected s b (bulk.connect_block s.db b (ltb o.higher ((b.height + o.keep) % 2 ^ 32)))
      else record s { writer = skipped_block }

  abbrev pub closed_db : D → Result D → D
  closed_db d (ok d') = d'
  closed_db d (err e) = d
  closed_db d panic = d

  -- The end of the writer; an error of Close is logged.
  unfoldable pub stop_writer : State D → State D
  stop_writer s = record s { writer = stopped; db = closed_db s.db (bulk.close s.db) }

  -- The writer starts with the bulk connection that InitBulkConnect gave without an error. Requests to
  -- the backend that fail and are repeated change nothing and have no step.
  pub data Step (o : Run) (chain : Backend) : State D → State D → Type 0 where
    ask :
        {s : State D} (hash : Bytes)
        → s.closed ≡ false
        → s.terminating ≡ false
        → s.asked ≡ none
        → s.height ≤ o.higher
        → chain.get_block_hash s.height ≡ ok hash
        → Step o chain s (record s { asked = some hash })
    put :
        {s : State D} (hash : Bytes)
        → s.asked ≡ some hash
        → length s.hashes < o.sync_workers
        → Step o chain s (record s {
          hashes = s.hashes ++ (record { hash = hash; height = s.height } ∷ []);
          height = (s.height + 1) % 2 ^ 32;
          asked = none;
        })
    interrupt :
        {s : State D}
        → s.closed ≡ false
        → s.terminating ≡ false
        → s.asked ≡ none
        → s.height ≤ o.higher
        → Step o chain s (record s { terminating = true })
    close_hashes :
        {s : State D}
        → s.closed ≡ false
        → s.asked ≡ none
        → (s.terminating ≡ true) ⊎ (o.higher < s.height)
        → Step o chain s (record s { closed = true })
    take_hash :
        {s : State D} (xs ys : List Worker) (hh : HashHeight) (hhs : List HashHeight)
        → s.workers ≡ xs ++ (waiting ∷ ys)
        → s.hashes ≡ hh ∷ hhs
        → Step o chain s (record s { workers = xs ++ (fetching hh ∷ ys); hashes = hhs })
    leave :
        {s : State D} (xs ys : List Worker)
        → s.workers ≡ xs ++ (waiting ∷ ys)
        → s.hashes ≡ []
        → s.closed ≡ true
        → Step o chain s (record s { workers = xs ++ (exited ∷ ys) })
    fetch :
        {s : State D} (xs ys : List Worker) (hh : HashHeight) (b : Block)
        → s.workers ≡ xs ++ (fetching hh ∷ ys)
        → chain.get_block hh.hash hh.height ≡ ok b
        → Step o chain s (record s { workers = xs ++ (fetched o hh b ∷ ys) })
    give_up :
        {s : State D} (xs ys : List Worker) (hh : HashHeight)
        → s.workers ≡ xs ++ (fetching hh ∷ ys)
        → s.closed ≡ true
        → Step o chain s (record s { workers = xs ++ (gave_up hh ∷ ys) })
    break_off :
        {s : State D} (xs ys : List Worker) (hh : HashHeight) (b : Block)
        → s.workers ≡ xs ++ (sending hh b ∷ ys)
        → s.terminating ≡ true
        → Step o chain s (record s { workers = xs ++ (gave_up hh ∷ ys) })
    receive :
        {s : State D} (xs ys : List Worker) (hh : HashHeight) (b : Block)
        → s.workers ≡ xs ++ (sending hh b ∷ ys)
        → s.writer ≡ writing
        → hh.height % o.sync_workers ≡ expected s % o.sync_workers
        → Step o chain s (write o (record s { workers = xs ++ (waiting ∷ ys) }) b)
    stop :
        {s : State D}
        → s.writer ≡ writing
        → (s.terminating ≡ true) ⊎ All HasLeft s.workers
        → Step o chain s (stop_writer s)

  -- The states that a run from `d` comes to.
  pub data Reach (o : Run) (chain : Backend) (d : D) : State D → Type 0 where
    begin : Reach o chain d (start o d)
    next : {s t : State D} → Reach o chain d s → Step o chain s t → Reach o chain d t
