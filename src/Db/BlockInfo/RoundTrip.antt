-- ===== src/Db/BlockInfo/RoundTrip.antt =====
-- db/rocksdb.go, packBlockInfo and unpackBlockInfo: on reading records back.
use native.Mathlib.Nat.{mod-eq_of_lt}
use mathlib.Core.Path.{subst}
use skyr_block_explorer.Prelude.{
  ℕ, ◌+◌, ◌^◌, ◌≤◌, ◌<◌, ◌≡◌, refl, false, some, [], ◌++◌, append-nil, length, length-append, arith,
  ltb,
}
use skyr_block_explorer.Prelude.Int.{pos, to_uint32}
use skyr_block_explorer.Prelude.Bytes.{Bytes, slice_from-append, slice_to-append}
use skyr_block_explorer.Prelude.Result.{ok, ◌>>=◌}
use skyr_block_explorer.Chain.{ChainParser}
use skyr_block_explorer.Db.Vlq.{Vlq, VlqLaws, pack_varuint, unpack_varuint}
use skyr_block_explorer.Db.Keys.{pack_uint}
use skyr_block_explorer.Db.Keys.RoundTrip.{unpack_uint-pack_uint, length-pack_uint}
use skyr_block_explorer.Db.Reader.Laws.{At, At-next, read_at-lem}
use skyr_block_explorer.Db.Reader.Fields.{Reads-varuint, At-first}
use skyr_block_explorer.Db.Types.{BlockInfo}
use skyr_block_explorer.Db.BlockInfo.{pack_block_info, unpack_block_info}

-- What the parser of a coin does for a hash: it packs it into as many bytes as an id has, and reads
-- them back.
pub record HashReads (parser : ChainParser) (hash b : Bytes) : Type 0 where
  pub packs : parser.pack_block_hash hash ≡ ok b
  pub size : length b ≡ parser.packed_txid_len
  pub unpacks : parser.unpack_block_hash b ≡ ok hash

pub record FitsBlockInfo (block : BlockInfo) : Type 0 where
  pub time : to_uint32 block.time < 2 ^ 32
  pub txs : block.txs < 2 ^ 32
  pub size : block.size < 2 ^ 32

module _ {v : Vlq} (laws : VlqLaws v) (parser : ChainParser) where
  length-number : (n : ℕ) → 1 ≤ length (pack_varuint v n)
  unfolding pack_varuint
  length-number n = laws.put_uint-pos n

  -- For a codec with its laws and a parser that packs the hash of a block into as many bytes as an
  -- id has and reads it back, the record of a block whose numbers fit 32 bits is read back, with
  -- the low 32 bits of its time and without its height.
  pub unpack_block_info-pack_block_info :
      (block : BlockInfo) (b : Bytes)
      → HashReads parser block.hash b
      → FitsBlockInfo block
      → (pack_block_info v parser block >>= unpack_block_info v parser)
        ≡ ok (some (record block { time = pos (to_uint32 block.time); height = 0 }))
  unfolding pack_block_info unpack_block_info
  unpack_block_info-pack_block_info block b p h =
      let t = pack_uint (to_uint32 block.time) in
      let c = pack_varuint v block.txs in
      let d = pack_varuint v block.size in
      let buf = b ++ (t ++ (c ++ d)) in
      let at1 : At buf (length b + 4) (c ++ d) =
        subst (λ n. At buf (length b + n) (c ++ d)) (length-pack_uint (to_uint32 block.time))
          (At-next buf (length b) t (c ++ d) (At-first b (t ++ (c ++ d)))) in
      let at2 : At buf (length b + 4) (c ++ (d ++ [])) = rw append-nil at1 in
      let at3 = At-next buf (length b + 4) c (d ++ []) at2 in
      let long : ltb (length buf) (length b + 4 + 2) ≡ false = ground (
        arith,
        length-append b (t ++ (c ++ d)),
        length-append t (c ++ d),
        length-append c d,
        length-pack_uint (to_uint32 block.time),
        length-number block.txs,
        length-number block.size,
      ) in
      rw (p.packs, ← p.size)
        (rw (long, unpack_block_info)
          (rw (slice_to-append b (t ++ (c ++ d))) (
            rw p.unpacks (
              rw (slice_from-append b (t ++ (c ++ d))) (
                rw (unpack_uint-pack_uint (to_uint32 block.time) (c ++ d) h.time) (
                  rw
                    (read_at-lem (unpack_varuint v) buf (length b + 4) c (d ++ []) block.txs at2
                      (Reads-varuint laws block.txs (omega (arith, h.txs))))
                    (rw
                      (read_at-lem (unpack_varuint v) buf (length b + 4 + length c) d [] block.size
                        at3 (Reads-varuint laws block.size (omega (arith, h.size))))
                      (rw (mod-eq_of_lt h.txs, mod-eq_of_lt h.size) refl))))))))
