-- ===== src/Db/Sync.antt =====
-- db/sync.go: how the index follows the chain of the backend.
pub mod Follow
pub mod Fork
pub mod Parallel
pub mod Resync
use skyr_block_explorer.Prelude.{
  ℕ, zero, suc, ◌+◌, ◌-◌, ◌%◌, ◌^◌, Bool, true, false, ◌&&◌, Option, none, some, [], ◌∷◌, length,
  ltb, ◌==◌, if◌then◌else◌,
}
use skyr_block_explorer.Prelude.Bytes.{Bytes, bytes_eq}
use skyr_block_explorer.Prelude.Result.{
  Result, Error, ok, err, panic, block_not_found, synced, operation_interrupted, remote_height,
  unknown_chain_type, ◌>>=◌,
}
use skyr_block_explorer.Chain.{Block, ChainType, bitcoin_type, ethereum_type, other_type}

-- What a function gives that returns an error and changes the worker: nil, an error, or a panic.
pub data Outcome : Type 0 where
  finished : Outcome
  failed : Error → Outcome
  panicked : Outcome

-- What the worker asks of the index; `D` is its state.
pub record Index (D : Type 0) : Type 0 where
  pub get_best_block : D → Result (ℕ × Bytes)
  pub get_block_hash : D → ℕ → Result Bytes
  pub connect_block : D → Block → Result D
  pub disconnect_block_range_bitcoin_type : ℕ → ℕ → D → Result D
  pub disconnect_block_range_ethereum_type : ℕ → ℕ → D → Result D
  -- ConnectBlocksParallel, which goes through the bulk connection.
  pub connect_blocks_parallel : ℕ → ℕ → D → Outcome × D

-- What the worker asks of the backend, which keeps its chain while the index is resynchronized.
pub record Backend : Type 0 where
  pub get_best_block_hash : Result Bytes
  pub get_best_block_height : Result ℕ
  pub get_block_hash : ℕ → Result Bytes
  pub get_block : Bytes → ℕ → Result Block
  pub chain_type : ChainType

-- `SyncWorker`, what changes of it and of its data base.
pub record SyncWorker (D : Type 0) : Type 0 where
  pub db : D
  pub start_height : ℕ
  pub start_hash : Bytes

-- What does not: the numbers, and `signal n`, whether the signal of the system is taken before the
-- `n`th block of connectBlocks.
pub record SyncOptions : Type 0 where
  pub sync_workers : ℕ
  pub sync_chunk : ℕ
  pub initial_sync : Bool
  pub signal : ℕ → Bool

abbrev pub is_not_found : Error → Bool
is_not_found block_not_found = true
is_not_found e = false

-- `err == errSynced`
abbrev pub is_synced : Error → Bool
is_synced synced = true
is_synced e = false

-- `err != nil && err != bchain.ErrBlockNotFound`; the hash of a block that is not there is empty.
unfoldable pub or_not_found : Result Bytes → Result Bytes
or_not_found (ok h) = ok h
or_not_found (err e) = if is_not_found e then ok [] else err e
or_not_found panic = panic

-- The log of an interruption reads the height of the last block, which may be nil.
unfoldable pub interrupted : Option Block → Outcome
interrupted none = panicked
interrupted (some b) = failed operation_interrupted

-- An update that failed leaves the worker with what it had.
abbrev pub or_stop {ℓ} : {A W : Type ℓ} → Result A → W → (A → Outcome × W) → Outcome × W
or_stop (ok a) w f = f a
or_stop (err e) w f = (failed e, w)
or_stop panic w f = (panicked, w)

abbrev pub and_then {ℓ} : {W : Type ℓ} → Outcome × W → (W → Outcome × W) → Outcome × W
and_then (finished, w) f = f w
and_then (failed e, w) f = (failed e, w)
and_then (panicked, w) f = (panicked, w)

-- What resyncIndex finds: the fork at the height of the local block, or from where to connect.
pub data Position : Type 0 where
  up_to_date : Position
  forked : ℕ → Position
  behind : ℕ → Position

module _ {D : Type 0} (idx : Index D) (chain : Backend) where
  -- The blocks that getBlockChain gives, each connected when it comes; the rounds are counted by `n`.
  -- The end of the fuel is a panic.
  unfoldable pub connect_from : SyncOptions → ℕ → ℕ → Bytes → ℕ → Option Block → D → Outcome × D
  connect_from o zero n hash height last d = (panicked, d)
  connect_from o (suc fuel) n hash height last d = elim (o.initial_sync && o.signal n) [
    | true ↦ (interrupted last, d)
    | false ↦ elim (chain.get_block hash height) [
      | err e ↦ if is_not_found e then (finished, d) else (failed e, d)
      | panic ↦ (panicked, d)
      | ok block ↦
          or_stop (idx.connect_block d block) d
            (connect_from o fuel (n + 1) block.next ((height + 1) % 2 ^ 32) (some block))
    ]
  ]

  unfoldable pub connect_blocks : SyncOptions → ℕ → SyncWorker D → Outcome × SyncWorker D
  connect_blocks o fuel w =
      let (r, d) = connect_from o fuel 0 w.start_hash w.start_height none w.db in
      (r, record w { db = d })

  unfoldable pub disconnect_blocks : ℕ → ℕ → D → Result D
  disconnect_blocks lower higher d = elim (chain.chain_type) [
    | bitcoin_type ↦ idx.disconnect_block_range_bitcoin_type lower higher d
    | ethereum_type ↦ idx.disconnect_block_range_ethereum_type lower higher d
    | other_type ↦ err unknown_chain_type
  ]

  -- The loop of handleFork, from `height` down: where it breaks. `height >= 0` holds of every uint32.
  unfoldable pub find_fork : ℕ → ℕ → D → Result ℕ
  find_fork zero height d = panic
  find_fork (suc fuel) height d = do
    local ← idx.get_block_hash d height
    elim (length local == 0) [
      | true ↦ ok height
      | false ↦ do
        remote ← or_not_found (chain.get_block_hash height)
        elim (bytes_eq local remote) [
          | true ↦ ok height
          | false ↦ find_fork fuel ((height + (2 ^ 32 - 1)) % 2 ^ 32) d
        ]
    ]

  -- Whether the bulk of the blocks is loaded in parallel, and up to which height.
  unfoldable pub parallel_range : SyncOptions → ℕ → Result (Option ℕ)
  parallel_range o start_height = elim (ltb 1 o.sync_workers && o.initial_sync) [
    | false ↦ ok none
    | true ↦ do
      remote_best_height ← chain.get_best_block_height
      elim (ltb remote_best_height start_height) [
        | true ↦ err remote_height
        | false ↦ ok (
            if ltb (o.sync_chunk % 2 ^ 32) (remote_best_height - start_height)
            then some remote_best_height
            else none)
      ]
  ]

  unfoldable pub position : SyncWorker D → Result Position
  position w = do
    remote_best_hash ← chain.get_best_block_hash
    (local_best_height, local_best_hash) ← idx.get_best_block w.db
    elim (bytes_eq local_best_hash remote_best_hash) [
      | true ↦ ok up_to_date
      | false ↦ elim (length local_best_hash == 0) [
        | true ↦ ok (behind w.start_height)
        | false ↦ do
          remote_hash ← or_not_found (chain.get_block_hash local_best_height)
          elim (bytes_eq remote_hash local_best_hash) [
            | true ↦ ok (behind ((local_best_height + 1) % 2 ^ 32))
            | false ↦ ok (forked local_best_height)
          ]
      ]
    ]

  -- handleFork up to its call of resyncIndex.
  unfoldable pub undo_fork : ℕ → ℕ → D → Result D
  undo_fork fuel local_best_height d = do
    height ← find_fork fuel ((local_best_height + (2 ^ 32 - 1)) % 2 ^ 32) d
    disconnect_blocks ((height + 1) % 2 ^ 32) local_best_height d

  -- A hash that comes with an error is not kept. The first number bounds the calls, the second the rounds of each loop.
  unfoldable pub resync_index : SyncOptions → ℕ → ℕ → SyncWorker D → Outcome × SyncWorker D
  resync_index o zero fuel w = (panicked, w)
  resync_index o (suc calls) fuel w = or_stop (position w) w λ p. elim p [
    | up_to_date ↦ (failed synced, w)
    | forked local_best_height ↦
        or_stop (undo_fork fuel local_best_height w.db) w
          λ d. resync_index o calls fuel (record w { db = d })
    | behind start_height ↦
        let w1 = record w { start_height = start_height } in
        or_stop (chain.get_block_hash start_height) w1 λ start_hash.
          let w2 = record w1 { start_hash = start_hash } in
          or_stop (parallel_range o start_height) w2 λ higher. elim higher [
            | none ↦ connect_blocks o fuel w2
            | some higher ↦
                let (r, d) = idx.connect_blocks_parallel start_height higher w2.db in
                and_then (r, record w2 { db = d }) (λ w3. resync_index o calls fuel w3)
          ]
  ]
