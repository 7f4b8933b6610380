-- ===== src/Db/Sync/Follow.antt =====
-- db/sync.go, connectBlocks with getBlockChain: the blocks that are connected.
use skyr_block_explorer.Prelude.{
  ℕ, zero, suc, ◌+◌, ◌%◌, ◌^◌, ◌<◌, ◌≡◌, refl, Bool, true, false, Option, some, List, [], ◌∷◌,
  length, arith, if◌then◌else◌,
}
use skyr_block_explorer.Prelude.Bytes.{Bytes}
use skyr_block_explorer.Prelude.Result.{Result, Error, ok, err, panic}
use skyr_block_explorer.Chain.{Block}
use skyr_block_explorer.Db.Sync.{
  Outcome, finished, failed, panicked, Index, Backend, SyncOptions, is_not_found, or_stop,
  connect_from,
}

-- The blocks that the backend gives from a hash and a height on, each found by what the block
-- before it has as the next hash, and the error that ends them.
abbrev pub Gives : Backend → Bytes → ℕ → List Block → Error → Type 0
Gives chain hash height [] e = chain.get_block hash height ≡ err e
Gives chain hash height (b ∷ bs) e =
    (chain.get_block hash height ≡ ok b) × Gives chain b.next ((height + 1) % 2 ^ 32) bs e

module _ {D : Type 0} (idx : Index D) where
  -- A list of blocks connected one after the other, up to the first that fails, with the index
  -- behind the last one that was connected.
  pub connect_list : Outcome → List Block → D → Outcome × D
  connect_list end [] d = (end, d)
  connect_list end (b ∷ bs) d = elim (idx.connect_block d b) [
    | ok d' ↦ connect_list end bs d'
    | err e ↦ (failed e, d)
    | panic ↦ (panicked, d)
  ]

  ending :
      (b : Bool) (e : Error) (d : D)
      → ◌≡◌ {A = Outcome × D}
          (if b then (finished, d) else (failed e, d))
          (if b then finished else failed e, d)
  ending true e d = refl
  ending false e d = refl

  or_stop_lem :
      (r : Result D) (d : D) {f g : D → Outcome × D}
      → ((d' : D) → f d' ≡ g d')
      → or_stop r d f ≡ (elim r [ ok d' ↦ g d' | err e ↦ (failed e, d) | panic ↦ (panicked, d) ])
  or_stop_lem (ok d') d h = h d'
  or_stop_lem (err e) d h = refl
  or_stop_lem panic d h = refl

  module _ (chain : Backend) where
    -- For any index and backend, outside of an initial synchronisation: if the backend gives a list
    -- of blocks from a hash and a height on, each found by the next hash of the block before it,
    -- and then an error, then the loop that connects blocks, with more fuel than there are blocks,
    -- does what connecting the blocks of the list one after the other up to the first that fails
    -- does, and ends without an error if all are connected and the error of the backend is that
    -- there is no block.
    pub connect_from-connect_list :
        (o : SyncOptions) (fuel n : ℕ) (hash : Bytes) (height : ℕ) (last : Option Block) (d : D)
        (bs : List Block) (e : Error)
        → o.initial_sync ≡ false
        → length bs < fuel
        → Gives chain hash height bs e
        → connect_from idx chain o fuel n hash height last d
          ≡ connect_list (if is_not_found e then finished else failed e) bs d
    unfolding connect_from connect_list
    connect_from-connect_list o zero n hash height last d bs e i lt g = absurd (omega (arith, lt))
    connect_from-connect_list o (suc fuel) n hash height last d [] e i lt g =
        rw (i, connect_from) (rw g (ending (is_not_found e) e d))
    connect_from-connect_list o (suc fuel) n hash height last d (b ∷ bs) e i lt g =
        rw (i, connect_from)
          (rw (g.0) (
            or_stop_lem (idx.connect_block d b) d (λ d'.
              connect_from-connect_list o fuel (n + 1) b.next ((height + 1) % 2 ^ 32) (some b) d' bs
                e i (omega (arith, lt)) g.1)))
