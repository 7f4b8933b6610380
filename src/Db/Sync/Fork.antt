-- ===== src/Db/Sync/Fork.antt =====
-- db/sync.go, handleFork: which blocks are disconnected.
use skyr_block_explorer.Prelude.{
  ℕ, zero, suc, ◌+◌, ◌-◌, ◌%◌, ◌^◌, ◌≤◌, ◌<◌, ◌≡◌, ◌⊎◌, refl, ap, ◌∙◌, true, false, length, arith,
  ◌==◌, Bool-cases, inl, inr,
}
use mathlib.Core.Path.{subst}
use skyr_block_explorer.Prelude.Bytes.{Bytes, bytes_eq, bytes_eq_refl}
use skyr_block_explorer.Prelude.Result.{ok}
use skyr_block_explorer.Db.Sync.{
  Index, Backend, or_not_found, find_fork, undo_fork, disconnect_blocks,
}

module _ {D : Type 0} (idx : Index D) (chain : Backend) (d : D) where
  -- The index has a block at the height, and the backend has another one or none.
  pub record Differs (h : ℕ) : Type 0 where
    pub local : Bytes
    pub remote : Bytes
    pub stored : idx.get_block_hash d h ≡ ok local
    pub there : (length local == 0) ≡ false
    pub found : or_not_found (chain.get_block_hash h) ≡ ok remote
    pub other : bytes_eq local remote ≡ false

  -- The index has the block of the backend at the height, or none.
  pub record Meets (h : ℕ) : Type 0 where
    pub local : Bytes
    pub stored : idx.get_block_hash d h ≡ ok local
    pub common :
        ((length local == 0) ≡ true)
        ⊎ (((length local == 0) ≡ false) × (or_not_found (chain.get_block_hash h) ≡ ok local))

  find_fork-none :
      (fuel h : ℕ) (local : Bytes)
      → idx.get_block_hash d h ≡ ok local
      → (length local == 0) ≡ true
      → find_fork idx chain (suc fuel) h d ≡ ok h
  unfolding find_fork
  find_fork-none fuel h local e y = ground (arith, e, y)

  find_fork-found :
      (fuel h : ℕ) (local remote : Bytes)
      → idx.get_block_hash d h ≡ ok local
      → (length local == 0) ≡ false
      → or_not_found (chain.get_block_hash h) ≡ ok remote
      → bytes_eq local remote ≡ true
      → find_fork idx chain (suc fuel) h d ≡ ok h
  unfolding find_fork
  find_fork-found fuel h local remote e n r y = ground (arith, e, n, r, y)

  find_fork-next :
      (fuel h a : ℕ) (local remote : Bytes)
      → idx.get_block_hash d h ≡ ok local
      → (length local == 0) ≡ false
      → or_not_found (chain.get_block_hash h) ≡ ok remote
      → bytes_eq local remote ≡ false
      → find_fork idx chain fuel ((h + (2 ^ 32 - 1)) % 2 ^ 32) d ≡ ok a
      → find_fork idx chain (suc fuel) h d ≡ ok a
  unfolding find_fork
  find_fork-next fuel h a local remote e n r y k = ground (arith, e, n, r, y, k)

  find_fork-Meets : (fuel h : ℕ) → Meets h → find_fork idx chain (suc fuel) h d ≡ ok h
  find_fork-Meets fuel h m = elim (m.common) [
    | inl y ↦ find_fork-none fuel h m.local m.stored y
    | inr n ↦ find_fork-found fuel h m.local m.local m.stored n.0 n.1 (bytes_eq_refl m.local)
  ]

  find_fork-lem :
      (fuel h a : ℕ)
      → a ≤ h
      → h < fuel + a
      → h < 2 ^ 32
      → ((k : ℕ) → a < k → k ≤ h → Differs k)
      → Meets a
      → find_fork idx chain fuel h d ≡ ok a
  find_fork-lem zero h a le lt small f m = absurd (omega (arith, le, lt))
  find_fork-lem (suc fuel) h a le lt small f m = elim (Bool-cases (h == a)) [
    | inl y ↦
        let here : a ≡ h = ground (arith, y) in
        subst (λ k. find_fork idx chain (suc fuel) k d ≡ ok a) here (find_fork-Meets fuel a m)
    | inr n ↦
        let above : a < h = ground (arith, n, le) in
        let x = f h above (omega arith) in
        let down : (h + (2 ^ 32 - 1)) % 2 ^ 32 ≡ h - 1 = omega (arith, above, small) in
        let rest : find_fork idx chain fuel (h - 1) d ≡ ok a =
          find_fork-lem fuel (h - 1) a (omega (arith, above)) (omega (arith, above, lt))
            (omega (arith, small)) (λ k lo hi. f k lo (omega (arith, hi))) m in
        find_fork-next fuel h a x.local x.remote x.stored x.there x.found x.other
          (ap (λ k. find_fork idx chain fuel k d) down ∙ rest)
  ]

  -- For any index and backend: if the index has blocks that the backend does not have at their
  -- heights from behind some height up to the one below its best block, and at that height it has
  -- the block of the backend or none, then with fuel for these heights, which are below 2 ^ 32, the
  -- handling of a fork disconnects just the blocks behind that height up to the best one.
  pub undo_fork-disconnect_blocks :
      (fuel best a : ℕ)
      → a < best
      → best ≤ fuel + a
      → best < 2 ^ 32
      → ((h : ℕ) → a < h → h < best → Differs h)
      → Meets a
      → undo_fork idx chain fuel best d ≡ disconnect_blocks idx chain (a + 1) best d
  unfolding undo_fork
  undo_fork-disconnect_blocks fuel best a lt long small f m =
      let down : (best + (2 ^ 32 - 1)) % 2 ^ 32 ≡ best - 1 = omega (arith, lt, small) in
      let up : (a + 1) % 2 ^ 32 ≡ a + 1 = omega (arith, lt, small) in
      let found : find_fork idx chain fuel (best - 1) d ≡ ok a =
        find_fork-lem fuel (best - 1) a (omega (arith, lt)) (omega (arith, lt, long))
          (omega (arith, small)) (λ h lo hi. f h lo (omega (arith, lt, hi))) m in
      rw down (rw found (rw up refl))
