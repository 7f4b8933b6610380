-- ===== src/Db/Lookup/Heights.antt =====
-- db/rocksdb.go, writeHeight and GetBlockHash: on the hash at a height.
use mathlib.Core.Path.{subst}
use skyr_block_explorer.Prelude.{
  ℕ, ◌+◌, ◌^◌, ◌<◌, ◌≡◌, refl, sym, ap, ◌∙◌, true, some, [], ◌∷◌, append-nil, arith, ltb, ◌==◌,
  if◌then◌else◌, Bool-cases, inl, inr,
}
use skyr_block_explorer.Prelude.Bytes.{Bytes, bytes_eq, bytes_eq_iff}
use skyr_block_explorer.Prelude.Result.{Result, ok, ◌>>=◌, Ensures, Ensures-bind, Ensures-refl}
use skyr_block_explorer.Db.Vlq.{VlqLaws}
use skyr_block_explorer.Db.Keys.{pack_uint, unpack_uint}
use skyr_block_explorer.Db.Keys.RoundTrip.{unpack_uint-pack_uint}
use skyr_block_explorer.Db.Types.{BlockInfo}
use skyr_block_explorer.Db.BlockInfo.{pack_block_info, unpack_block_info}
use skyr_block_explorer.Db.BlockInfo.RoundTrip.{
  HashReads, FitsBlockInfo, unpack_block_info-pack_block_info,
}
use skyr_block_explorer.Db.Connect.{Column, Env, cf_height}
use skyr_block_explorer.Db.Store.{Op, HeightOp, op_insert, op_delete, write_height}
use skyr_block_explorer.Db.Store.Batch.{Writes, after_op, after_ops}
use skyr_block_explorer.Db.Store.Balances.{over}
use skyr_block_explorer.Db.Lookup.{hash_of, get_block_hash}

-- Keys of different heights differ.
bytes_eq-pack_uint :
    (h k : ℕ) → h < 2 ^ 32 → k < 2 ^ 32 → bytes_eq (pack_uint h) (pack_uint k) ≡ (h == k)
bytes_eq-pack_uint h k p q =
    let read : (n : ℕ) → n < 2 ^ 32 → unpack_uint (pack_uint n) ≡ some n =
      λ n r. rw append-nil at (unpack_uint-pack_uint n [] r) in
    elim (Bool-cases (h == k)) [
      | inl s ↦
          let e : h ≡ k = ground (arith, s) in
          rw s ((bytes_eq_iff (pack_uint h) (pack_uint k)).1 (ap pack_uint e))
      | inr s ↦ elim (Bool-cases (bytes_eq (pack_uint h) (pack_uint k))) [
        | inr n ↦ rw s n
        | inl y ↦
            let same : pack_uint h ≡ pack_uint k = (bytes_eq_iff (pack_uint h) (pack_uint k)).0 y in
            let some_e : some h ≡ some k = sym (read h p) ∙ ap unpack_uint same ∙ read k q in
            let e : h ≡ k = cc some_e in absurd (ground (arith, s, e))
      ]
    ]

-- What the two operations leave as the hash at their height.
abbrev pub hash_left : HeightOp → BlockInfo → Bytes
hash_left op_insert bi = bi.hash
hash_left op_delete bi = []

module _ (env : Env) (laws : VlqLaws env.vlq) where
  open env use {vlq, parser, get_cf}

  -- The hash that is read of given bytes.
  hash_read : Bytes → Result Bytes
  hash_read val = unpack_block_info vlq parser val >>= λ info. ok (hash_of env info)

  -- What the operation leaves at its height, and the hash that is read of it.
  abbrev Leaves : ℕ → HeightOp → BlockInfo → Op × ℕ → Type 0
  Leaves h op bi w =
      (r : Result Bytes) × ((k : ℕ) (before : Result Bytes)
        → after_op cf_height (pack_uint k) w.0 before
          ≡ (if bytes_eq (pack_uint h) (pack_uint k) then r else before))
      × ((r >>= hash_read) ≡ ok (hash_left op bi))

  hash_read-pack_block_info :
      (bi : BlockInfo) (b val : Bytes)
      → HashReads parser bi.hash b
      → FitsBlockInfo bi
      → pack_block_info vlq parser bi ≡ ok val
      → hash_read val ≡ ok bi.hash
  unfolding hash_read hash_of
  hash_read-pack_block_info bi b val reads fits e =
      let read = rw e at (unpack_block_info-pack_block_info laws parser bi b reads fits) in
      rw read refl

  hash_read-nil : hash_read [] ≡ ok []
  unfolding hash_read unpack_block_info hash_of
  hash_read-nil =
      let short : ltb 0 (parser.packed_txid_len + 4 + 2) ≡ true = ground arith in
      rw (short, unpack_block_info) refl

  write_height-Leaves :
      (h : ℕ) (bi : BlockInfo) (b : Bytes) (op : HeightOp)
      → HashReads parser bi.hash b
      → FitsBlockInfo bi
      → Ensures (Leaves h op bi) (write_height env h bi op)
  unfolding write_height
  write_height-Leaves h bi b op_insert reads fits =
      Ensures-bind (λ val. pack_block_info vlq parser bi ≡ ok val) (Leaves h op_insert bi)
        (pack_block_info vlq parser bi) _ (Ensures-refl (pack_block_info vlq parser bi))
        λ val e. (
          ok val,
          λ k before. unfold after_op in refl,
          hash_read-pack_block_info bi b val reads fits e,
        )
  write_height-Leaves h bi b op_delete reads fits =
      (ok [], λ k before. unfold after_op in refl, hash_read-nil)

  -- For a codec with its laws, heights below 2 ^ 32, a hash that the parser of the coin reads back
  -- and a record whose numbers fit: behind the writing of what writeHeight gives for a height, the
  -- hash found at that height is the hash of the block if it was inserted and empty if it was
  -- deleted, and at any other height it is what was found before.
  pub get_block_hash-write_height :
      (h k : ℕ) (bi : BlockInfo) (b : Bytes) (op : HeightOp) (w : Op × ℕ)
      (after : Column → Bytes → Result Bytes)
      → h < 2 ^ 32
      → k < 2 ^ 32
      → HashReads parser bi.hash b
      → FitsBlockInfo bi
      → write_height env h bi op ≡ ok w
      → Writes (w.0 ∷ []) get_cf after
      → get_block_hash (over env after) k
        ≡ (if h == k then ok (hash_left op bi) else get_block_hash env k)
  get_block_hash-write_height h k bi b op w after p q reads fits e wr =
      let (r, left, hash) =
        subst (Ensures (Leaves h op bi)) e (write_height-Leaves h bi b op reads fits) in
      let bytes : after cf_height (pack_uint k)
          ≡ (if h == k then r else get_cf cf_height (pack_uint k)) =
        wr.get cf_height (pack_uint k)
        ∙ one k
        ∙ left k (get_cf cf_height (pack_uint k))
        ∙ ap (λ t. if t then r else get_cf cf_height (pack_uint k)) (bytes_eq-pack_uint h k p q) in
      let here : get_block_hash (over env after) k ≡ (after cf_height (pack_uint k) >>= hash_read) =
        unfold get_block_hash hash_read in refl in
      here ∙ ap (λ t. t >>= hash_read) bytes ∙ elim (Bool-cases (h == k)) [
        | inl s ↦ rw s hash
        | inr s ↦ rw s (unfold get_block_hash hash_read in refl)
      ]
    where
      one :
          (k : ℕ)
          → after_ops cf_height (pack_uint k) (w.0 ∷ []) (get_cf cf_height (pack_uint k))
            ≡ after_op cf_height (pack_uint k) w.0 (get_cf cf_height (pack_uint k))
      one k = unfold after_ops in refl
