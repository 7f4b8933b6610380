-- ===== src/Db/BlockTxs/RoundTrip.antt =====
-- db/rocksdb.go, the blockTxs column: on reading it back.
use skyr_block_explorer.Prelude.{
  ℕ, zero, suc, ◌+◌, ◌-◌, ◌^◌, ◌≤◌, ◌<◌, ◌≡◌, refl, ap, true, false, List, [], ◌∷◌, ◌++◌,
  append_assoc, length, length-append, All, arith, leb, ltb, some,
}
use mathlib.Core.Path.{subst}
use skyr_block_explorer.Prelude.Int.{FitsInt}
use skyr_block_explorer.Prelude.Bytes.{Bytes}
use skyr_block_explorer.Prelude.Result.{ok}
use skyr_block_explorer.Db.Vlq.{Vlq, VlqLaws, pack_varuint, pack_varint32, unpack_varint32}
use skyr_block_explorer.Db.Reader.{read_bytes, read_at}
use skyr_block_explorer.Db.Reader.Laws.{
  At, At-start, At-next, slice_from-At, Reads-read_bytes, read_at-lem,
}
use skyr_block_explorer.Db.Reader.Fields.{Reads-varuint, Reads-varint32, At-first}
use skyr_block_explorer.Db.Types.{BtxOutpoint, BlockTxs}
use skyr_block_explorer.Db.BlockTxs.{
  pack_outpoints, pack_block_txs, unpack_outpoints, unpack_n_outpoints, as_inconsistent,
  unpack_block_txs_from, unpack_block_txs,
}

pub record FitsOutpoint (txid_len : ℕ) (o : BtxOutpoint) : Type 0 where
  pub id : length o.btx_id ≡ txid_len
  pub index : FitsInt 31 o.index

pub record FitsBlockTxs (txid_len : ℕ) (t : BlockTxs) : Type 0 where
  pub id : length t.btx_id ≡ txid_len
  pub number : length t.inputs < 2 ^ 63
  pub inputs : All (FitsOutpoint txid_len) t.inputs

-- The same offset, where the bytes there are written otherwise.
pub At-rewrite : (buf : Bytes) (l : ℕ) {a b : Bytes} → a ≡ b → At buf l a → At buf l b
At-rewrite buf l e at = subst (At buf l) e at

pub length-At : (buf : Bytes) (l : ℕ) (rest : Bytes) → At buf l rest → length buf ≡ l + length rest
length-At buf l rest (before, e, el) =
    omega (arith, ap (λ (b : Bytes). length b) e, length-append before rest)

module _ {v : Vlq} (laws : VlqLaws v) (txid_len : ℕ) where
  length-index : (o : BtxOutpoint) → 1 ≤ length (pack_varint32 v o.index)
  unfolding pack_varint32
  length-index o = laws.put_int-pos o.index

  read_id :
      (buf : Bytes) (p : ℕ) (id rest : Bytes)
      → length id ≡ txid_len
      → At buf p (id ++ rest)
      → read_at (read_bytes txid_len) buf p ≡ some (id, p + length id)
  read_id buf p id rest e at =
      rw (← e) (read_at-lem (read_bytes (length id)) buf p id rest id at (Reads-read_bytes id))

  unpack_outpoints-pack_outpoints :
      (os : List BtxOutpoint) (buf : Bytes) (p : ℕ) (rest : Bytes)
      → All (FitsOutpoint txid_len) os
      → At buf p (pack_outpoints v os ++ rest)
      → unpack_outpoints v txid_len (length os) buf p ≡ ok (os, p + length (pack_outpoints v os))
  unfolding unpack_outpoints pack_outpoints
  unpack_outpoints-pack_outpoints [] buf p rest h at = ap (λ n. ok ([], n)) (omega arith)
  unpack_outpoints-pack_outpoints (o ∷ os) buf p rest h at =
      let a = o.btx_id in
      let b = pack_varint32 v o.index in
      let c = pack_outpoints v os in
      let at1 : At buf p (a ++ (b ++ (c ++ rest))) = At-rewrite buf p (simp append_assoc) at in
      let at2 = At-next buf p a (b ++ (c ++ rest)) at1 in
      let at3 = At-next buf (p + length a) b (c ++ rest) at2 in
      let inside : leb (length buf) (p + txid_len) ≡ false = ground (
        arith,
        length-At buf (p + length a) (b ++ (c ++ rest)) at2,
        h.0.id,
        length-append b (c ++ rest),
        length-index o,
      ) in
      let size : p + length a + length b + length c ≡ p + length (a ++ (b ++ c)) =
        omega (arith, length-append a (b ++ c), length-append b c) in
      rw (inside, unpack_outpoints)
        (rw (read_id buf p a (b ++ (c ++ rest)) h.0.id at1) (
          rw
            (read_at-lem (unpack_varint32 v) buf (p + length a) b (c ++ rest) o.index at2
              (Reads-varint32 laws o.index h.0.index))
            (rw (unpack_outpoints-pack_outpoints os buf (p + length a + length b) rest h.1 at3)
              (ap (λ n. ok (o ∷ os, n)) size))))

  unpack_n_outpoints-pack_outpoints :
      (os : List BtxOutpoint) (rest : Bytes)
      → length os < 2 ^ 63
      → All (FitsOutpoint txid_len) os
      → unpack_n_outpoints v txid_len (pack_varuint v (length os) ++ (pack_outpoints v os ++ rest))
        ≡ ok (os, length (pack_varuint v (length os)) + length (pack_outpoints v os))
  unfolding unpack_n_outpoints
  unpack_n_outpoints-pack_outpoints os rest n h =
      let a = pack_varuint v (length os) in
      let b = pack_outpoints v os in
      rw (Reads-varuint laws (length os) (omega arith) (b ++ rest)) (
        unpack_outpoints-pack_outpoints os (a ++ (b ++ rest)) (length a) rest h
          (At-first a (b ++ rest)))

  unpack_last :
      (fuel : ℕ) (buf : Bytes) (i : ℕ)
      → At buf i []
      → unpack_block_txs_from v txid_len (suc fuel) buf i ≡ ok []
  unfolding unpack_block_txs_from
  unpack_last fuel buf i at =
      let e : ltb i (length buf) ≡ false = ground (arith, length-At buf i [] at) in
      rw (e, unpack_block_txs_from) refl

  length-number : (t : BlockTxs) → 1 ≤ length (pack_varuint v (length t.inputs))
  unfolding pack_varuint
  length-number t = laws.put_uint-pos (length t.inputs)

  unpack_next :
      (fuel : ℕ) (buf : Bytes) (i : ℕ) (t : BlockTxs) (ts : List BlockTxs) (rest : Bytes)
      → FitsBlockTxs txid_len t
      → At buf i
          (t.btx_id ++ (pack_varuint v (length t.inputs) ++ (pack_outpoints v t.inputs ++ rest)))
      → unpack_block_txs_from v txid_len fuel buf (
          i
          + length t.btx_id
          + (length (pack_varuint v (length t.inputs)) + length (pack_outpoints v t.inputs)))
        ≡ ok ts
      → unpack_block_txs_from v txid_len (suc fuel) buf i ≡ ok (t ∷ ts)
  unfolding unpack_block_txs_from as_inconsistent
  unpack_next fuel buf i t ts rest h at e =
      let a = t.btx_id in
      let b = pack_varuint v (length t.inputs) in
      let c = pack_outpoints v t.inputs in
      let at1 = At-next buf i a (b ++ (c ++ rest)) at in
      let size = length-At buf (i + length a) (b ++ (c ++ rest)) at1 in
      let inside : ltb i (length buf) ≡ true =
        ground (arith, size, length-append b (c ++ rest), length-number t) in
      let long : ltb (length buf - i) txid_len ≡ false = ground (arith, size, h.id) in
      rw (inside, long, unpack_block_txs_from)
        ((rw (read_id buf i a (b ++ (c ++ rest)) h.id at) (
          rw (slice_from-At buf (i + length a) (b ++ (c ++ rest)) at1)
            (rw (unpack_n_outpoints-pack_outpoints t.inputs rest h.number h.inputs) (rw e refl)))))

  unpack_block_txs_from-pack_block_txs :
      (ts : List BlockTxs) (fuel : ℕ) (buf : Bytes) (i : ℕ)
      → All (FitsBlockTxs txid_len) ts
      → At buf i (pack_block_txs v ts)
      → length (pack_block_txs v ts) < fuel
      → unpack_block_txs_from v txid_len fuel buf i ≡ ok ts
  unpack_block_txs_from-pack_block_txs ts zero buf i h at lt = elim lt [ ]
  unpack_block_txs_from-pack_block_txs [] (suc fuel) buf i h at lt =
      unpack_last fuel buf i (unfold pack_block_txs in at)
  unpack_block_txs_from-pack_block_txs (t ∷ ts) (suc fuel) buf i h at lt =
      let a = t.btx_id in
      let b = pack_varuint v (length t.inputs) in
      let c = pack_outpoints v t.inputs in
      let r = pack_block_txs v ts in
      let at1 : At buf i (a ++ (b ++ (c ++ r))) = unfold pack_block_txs in at in
      let whole : length a + (length b + (length c + length r)) < suc fuel =
        unfold pack_block_txs in
        omega
          (arith, length-append a (b ++ (c ++ r)), length-append b (c ++ r), length-append c r) in
      let at2 : At buf (i + length a + (length b + length c)) r =
        subst (λ n. At buf n r) (omega arith)
          (At-next buf (i + length a + length b) c r
            (At-next buf (i + length a) b (c ++ r) (At-next buf i a (b ++ (c ++ r)) at1))) in
      unpack_next fuel buf i t ts r h.0 at1 (
        unpack_block_txs_from-pack_block_txs ts fuel buf (i + length a + (length b + length c)) h.1
          at2 (omega (arith, length-number t)))

  -- For a codec with its laws, the transactions of a block, whose ids have the packed length, whose
  -- indexes fit 32 bits and whose numbers of inputs fit 63 bits, are read back from what was packed
  -- for the disconnection of the block.
  pub unpack_block_txs-pack_block_txs :
      (ts : List BlockTxs)
      → All (FitsBlockTxs txid_len) ts
      → unpack_block_txs v txid_len (pack_block_txs v ts) ≡ ok ts
  unfolding unpack_block_txs
  unpack_block_txs-pack_block_txs ts h =
      unpack_block_txs_from-pack_block_txs ts (suc (length (pack_block_txs v ts)))
        (pack_block_txs v ts) 0 h (At-start (pack_block_txs v ts)) (omega arith)
