-- ===== src/Db/TxCache/Kept.antt =====
-- db/txcache.go with the parser of bchain/baseparser.go: a transaction that was fetched and stored,
-- asked for again.
use mathlib.Core.Path.{subst}
use skyr_block_explorer.Prelude.{
  ℕ, ◌+◌, ◌-◌, ◌%◌, ◌^◌, ◌≤◌, ◌<◌, ◌≡◌, refl, ap, ◌∙◌, true, none, [], ◌∷◌, length, ltb, arith,
}
use skyr_block_explorer.Prelude.Bytes.{Bytes, bytes_eq_refl}
use skyr_block_explorer.Prelude.Result.{Result, ok, ◌>>=◌, Returns-ok}
use skyr_block_explorer.Chain.{Tx}
use skyr_block_explorer.Chain.Parser.{Proto, ProtoTransaction, to_proto, pack_tx, unpack_tx}
use skyr_block_explorer.Chain.Parser.RoundTrip.{FitsTx, IsInt64, kept_tx, to_proto-round}
use skyr_block_explorer.Db.Connect.{Column, Env, cf_transactions}
use skyr_block_explorer.Db.Store.{put_cf}
use skyr_block_explorer.Db.Store.Batch.{Writes, after_ops, after_op}
use skyr_block_explorer.Db.Store.Balances.{over}
use skyr_block_explorer.Db.TxCache.{
  CacheBackend, Fetched, get_tx, put_packed, put_tx, with_confirmations, height_of,
  or_nothing_stored, stored_if, fetch_transaction, found_or_fetched, get_transaction,
}

-- The backend of a coin whose parser packs transactions as the base parser does.
abbrev pub with_base_parser : Proto → CacheBackend → CacheBackend
with_base_parser proto backend = record backend {
  pack_tx = pack_tx proto;
  unpack_tx = unpack_tx proto;
}

-- A message is read back, and has more than four bytes.
abbrev pub IsPacked : Proto → ProtoTransaction → Type 0
IsPacked proto pt =
    (buf : Bytes) × (proto.marshal pt ≡ ok buf) × (proto.unmarshal buf ≡ ok pt) × (4 < length buf)

module _ (env : Env) (proto : Proto) (backend : CacheBackend) (txid key : Bytes) (tx : Tx) (h : ℕ)
    (packs : env.parser.pack_txid txid ≡ ok key)
    (same_id : env.parser.pack_txid tx.txid ≡ ok key) where
  packed_bytes :
      FitsTx tx
      → IsInt64 tx.blocktime
      → ((pt : ProtoTransaction) → to_proto tx h tx.blocktime ≡ ok pt → IsPacked proto pt)
      → (buf : Bytes) × (pack_tx proto tx h tx.blocktime ≡ ok buf)
        × (unpack_tx proto buf ≡ ok (kept_tx tx tx.blocktime, h))
        × (4 < length buf)
  unfolding pack_tx unpack_tx
  packed_bytes fits t codec =
      let (pt, e, back) =
        Returns-ok _ (to_proto tx h tx.blocktime) (to_proto-round tx h tx.blocktime fits t) in
      let (buf, em, eu, long) = codec pt e in
      let packed : pack_tx proto tx h tx.blocktime ≡ ok buf =
        ap (λ r. r >>= proto.marshal) e ∙ em in
      (buf, packed, rw eu back, long)

  -- The first call.
  fetched :
      (best : ℕ) (buf : Bytes)
      → get_tx env (with_base_parser proto backend) txid ≡ ok none
      → backend.get_transaction txid ≡ ok tx
      → 0 < tx.confirmations
      → height_of env (with_base_parser proto backend) txid tx ≡ ok h
      → pack_tx proto tx h tx.blocktime ≡ ok buf
      → get_transaction env (with_base_parser proto backend) true best txid
        ≡ ok (record { tx = tx; height = h; stored = put_cf cf_transactions key buf ∷ [] })
  unfolding get_transaction found_or_fetched fetch_transaction stored_if put_tx put_packed
      or_nothing_stored
  fetched best buf miss given confirmed height packed =
      let c : ltb 0 tx.confirmations ≡ true = ground (arith, confirmed) in
      rw miss (
        rw (given, ◌>>=◌)
          (rw c (rw (height, ◌>>=◌) (rw (same_id, put_packed) (rw (packed, put_packed) refl)))))

  -- What is left at the key.
  stored_bytes :
      (buf : Bytes) (after : Column → Bytes → Result Bytes)
      → Writes (put_cf cf_transactions key buf ∷ []) env.get_cf after
      → after cf_transactions key ≡ ok buf
  unfolding after_ops after_op
  stored_bytes buf after w = w.get cf_transactions key ∙ rw (bytes_eq_refl key) refl

  -- The second call.
  found_again :
      (best : ℕ) (buf : Bytes) (tx' : Tx) (after : Column → Bytes → Result Bytes)
      → after cf_transactions key ≡ ok buf
      → unpack_tx proto buf ≡ ok (tx', h)
      → 4 < length buf
      → h ≤ best
      → best + 1 < 2 ^ 32
      → get_transaction (over env after) (with_base_parser proto backend) true best txid
        ≡ ok (record { tx = record tx' { confirmations = best - h + 1 }; height = h; stored = [] })
  unfolding get_transaction get_tx found_or_fetched with_confirmations
  found_again best buf tx' after left read long le small =
      let l : ltb 4 (length buf) ≡ true = ground (arith, long) in
      let count : (best + (2 ^ 32 - h) + 1) % 2 ^ 32 ≡ best - h + 1 = omega (arith, le, small) in
      rw (packs, ◌>>=◌) (rw (left, ◌>>=◌) (rw l (rw (read, ◌>>=◌) (rw count refl))))

  -- For a coin whose parser packs transactions as the base parser does, and a protobuf codec that
  -- writes the message of the transaction into more than four bytes and reads it back: if
  -- GetTransaction with the cache on is asked for a transaction that is not in the data base, and
  -- the backend gives a transaction with the key of that id, confirmed, with ids and scripts that
  -- fit and a height that is found, then what the call returns is the transaction with that height;
  -- and behind the writing of what the call stores, a call with a best height that is not below the
  -- height and less than 2 ^ 32 - 1 returns what the base parser keeps of the transaction, with the
  -- height and with one confirmation more than the difference of the heights, and stores nothing.
  pub get_transaction_again :
      (best best' : ℕ) (f : Fetched) (after : Column → Bytes → Result Bytes)
      → get_tx env (with_base_parser proto backend) txid ≡ ok none
      → backend.get_transaction txid ≡ ok tx
      → 0 < tx.confirmations
      → height_of env (with_base_parser proto backend) txid tx ≡ ok h
      → FitsTx tx
      → IsInt64 tx.blocktime
      → ((pt : ProtoTransaction) → to_proto tx h tx.blocktime ≡ ok pt → IsPacked proto pt)
      → get_transaction env (with_base_parser proto backend) true best txid ≡ ok f
      → Writes f.stored env.get_cf after
      → h ≤ best'
      → best' + 1 < 2 ^ 32
      → (f.tx ≡ tx)
        × (f.height ≡ h)
        × (get_transaction (over env after) (with_base_parser proto backend) true best' txid
            ≡ ok (record {
              tx = record (kept_tx tx tx.blocktime) { confirmations = best' - h + 1 };
              height = h;
              stored = [];
            }))
  get_transaction_again best best' f after miss given confirmed height fits t codec first w le
        small =
      let (buf, packed, back, long) = packed_bytes fits t codec in
      let r : Fetched = record {
        tx = tx;
        height = h;
        stored = put_cf cf_transactions key buf ∷ [];
      } in
      let same : f ≡ r = cc (fetched best buf miss given confirmed height packed, first) in
      let writes : Writes r.stored env.get_cf after =
        subst (λ (x : Fetched). Writes x.stored env.get_cf after) (same) w in
      (
        ap (λ (x : Fetched). x.tx) same,
        ap (λ (x : Fetched). x.height) same,
        found_again best' buf (kept_tx tx tx.blocktime) after (stored_bytes buf after writes) back
            long le small,
      )
