-- ===== src/Db/TxIndexes/RoundTrip.antt =====
-- db/rocksdb.go, packTxIndexes: on reading the indexes of a transaction back.
use mathlib.Core.List.{reverse, reverse-cons}
use skyr_block_explorer.Prelude.{
  ℕ, zero, suc, ◌+◌, ◌≤◌, ◌≡◌, refl, ap, ◌∙◌, ◌≢◌, some, List, [], ◌∷◌, ◌++◌, append_assoc, length,
  length-append, All, All-append, arith,
}
use skyr_block_explorer.Prelude.Int.{ℤ, pos, negsuc, FitsInt, shl1, or1, and1, shr1}
use skyr_block_explorer.Prelude.Bytes.{Bytes, slice_from-append}
use skyr_block_explorer.Db.Vlq.{Vlq, VlqLaws, pack_varint32}
use skyr_block_explorer.Db.Reader.Fields.{Reads-varint32}
use skyr_block_explorer.Db.Types.{TxIndexes}
use skyr_block_explorer.Db.TxIndexes.{pack_indexes, unpack_indexes}

-- The bits of a shifted index, with and without the end mark.
shifted : (i : ℤ) → FitsInt 30 i → FitsInt 31 (shl1 i) × (and1 (shl1 i) ≡ 0) × (shr1 (shl1 i) ≡ i)
shifted (pos n) h = ground arith
shifted (negsuc n) h = ground arith

marked :
    (i : ℤ)
    → FitsInt 30 i
    → FitsInt 31 (or1 (shl1 i)) × (and1 (or1 (shl1 i)) ≡ 1) × (shr1 (or1 (shl1 i)) ≡ i)
marked (pos n) h = ground arith
marked (negsuc n) h = ground arith

-- An index of an output is not negative and one of an input is, and both have 30 bits at most.
pub record FitsIndexes (txid_len : ℕ) (t : TxIndexes) : Type 0 where
  pub id : length t.btx_id ≡ txid_len
  pub some_index : t.indexes ≢ []
  pub each : All (FitsInt 30) t.indexes

pub All-reverse : (P : TxIndexes → Type 0) (xs : List TxIndexes) → All P xs → All P (reverse xs)
All-reverse P [] h = h
All-reverse P (x ∷ xs) h =
    rw reverse-cons (All-append P (reverse xs) (x ∷ []) (All-reverse P xs h.1) (h.0, tt))

module _ {v : Vlq} (laws : VlqLaws v) where
  length-pack_varint32 : (z : ℤ) → 1 ≤ length (pack_varint32 v z)
  unfolding pack_varint32
  length-pack_varint32 z = laws.put_int-pos z

  unpack_last :
      (i : ℤ) (fuel : ℕ) (rest : Bytes)
      → FitsInt 30 i
      → unpack_indexes v (suc fuel) (pack_varint32 v (or1 (shl1 i)) ++ rest) ≡ some (i ∷ [], rest)
  unfolding unpack_indexes
  unpack_last i fuel rest h =
      let a = pack_varint32 v (or1 (shl1 i)) in
      ground (
        arith,
        Reads-varint32 laws (or1 (shl1 i)) (marked i h).0 rest,
        slice_from-append a rest,
        marked i h,
      )

  unpack_more :
      (i : ℤ) (fuel : ℕ) (rest : Bytes) (is : List ℤ) (left : Bytes)
      → FitsInt 30 i
      → 1 ≤ length rest
      → unpack_indexes v fuel rest ≡ some (is, left)
      → unpack_indexes v (suc fuel) (pack_varint32 v (shl1 i) ++ rest) ≡ some (i ∷ is, left)
  unfolding unpack_indexes
  unpack_more i fuel rest is left h ne e =
      let a = pack_varint32 v (shl1 i) in
      ground (
        arith,
        Reads-varint32 laws (shl1 i) (shifted i h).0 rest,
        slice_from-append a rest,
        shifted i h,
        e,
      )

  length-pack_indexes : (i : ℤ) (is : List ℤ) → 1 ≤ length (pack_indexes v (i ∷ is))
  unfolding pack_indexes
  length-pack_indexes i [] = length-pack_varint32 (or1 (shl1 i))
  length-pack_indexes i (j ∷ is) = omega (
    arith,
    length-pack_varint32 (shl1 i),
    length-append (pack_varint32 v (shl1 i)) (pack_indexes v (j ∷ is)),
  )

  pub unpack_indexes-pack_indexes :
      (is : List ℤ) (fuel : ℕ) (rest : Bytes)
      → is ≢ []
      → All (FitsInt 30) is
      → length (pack_indexes v is) ≤ fuel
      → unpack_indexes v fuel (pack_indexes v is ++ rest) ≡ some (is, rest)
  unpack_indexes-pack_indexes [] fuel rest ne h lt = absurd (ne refl)
  unpack_indexes-pack_indexes (i ∷ is) zero rest ne h lt =
      absurd (omega (arith, length-pack_indexes i is))
  unpack_indexes-pack_indexes (i ∷ []) (suc fuel) rest ne h lt =
      unfold pack_indexes in unpack_last i fuel rest h.0
  unpack_indexes-pack_indexes (i ∷ j ∷ is) (suc fuel) rest ne h lt =
      let a = pack_varint32 v (shl1 i) in
      let b = pack_indexes v (j ∷ is) in
      let size : length a + length b ≤ suc fuel =
        unfold pack_indexes in omega (arith, length-append a b) in
      let e : pack_indexes v (i ∷ j ∷ is) ++ rest ≡ a ++ (b ++ rest) =
        unfold pack_indexes in append_assoc a b rest in
      ap (unpack_indexes v (suc fuel)) e
      ∙ unpack_more i fuel (b ++ rest) (j ∷ is) rest h.0
          (omega (arith, length-append b rest, length-pack_indexes j is))
          (unpack_indexes-pack_indexes (j ∷ is) fuel rest (λ e. cc) h.1
            (omega (arith, length-pack_varint32 (shl1 i))))

  pack_one : TxIndexes → Bytes
  pack_one t = t.btx_id ++ pack_indexes v t.indexes

  pub length-indexes :
      (txid_len : ℕ) (t : TxIndexes)
      → FitsIndexes txid_len t
      → 1 ≤ length (pack_indexes v t.indexes)
  length-indexes txid_len t h = go t.indexes h.some_index
    where
      go : (is : List ℤ) → is ≢ [] → 1 ≤ length (pack_indexes v is)
      go [] ne = absurd (ne refl)
      go (i ∷ is) ne = length-pack_indexes i is
