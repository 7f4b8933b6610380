-- ===== src/Db/TxIndexes/Scan/Entry.antt =====
-- db/rocksdb.go, GetAddrDescTransactions: the transactions of one stored entry.
use skyr_block_explorer.Prelude.{
  ℕ, zero, suc, ◌+◌, ◌<◌, ◌≡◌, refl, Bool, true, false, some, List, [], ◌∷◌, ◌++◌, length,
  length-append, All, arith, ltb,
}
use skyr_block_explorer.Prelude.Int.{ℤ}
use skyr_block_explorer.Prelude.Bytes.{
  Bytes, slice_from, slice_to, slice_from-append, slice_to-append,
}
use skyr_block_explorer.Prelude.Result.{Result, ok, err, run, ◌>>=◌, bind_same}
use skyr_block_explorer.Chain.{ChainParser}
use skyr_block_explorer.Db.Vlq.{Vlq, VlqLaws}
use skyr_block_explorer.Db.Types.{TxIndexes}
use skyr_block_explorer.Db.TxIndexes.{pack_indexes, pack_each, unpack_indexes}
use skyr_block_explorer.Db.TxIndexes.RoundTrip.{
  FitsIndexes, length-indexes, unpack_indexes-pack_indexes,
}
use skyr_block_explorer.Db.TxIndexes.Scan.{
  Signal, go_on, stop_iteration, callback_error, scan_entry,
}

module _ {S : Type 0} (parser : ChainParser) (fn : S → Bytes → ℕ → List ℤ → Signal S) where
  -- The callback called with one transaction after the other, until it asks to stop.
  pub deliver_txs : ℕ → List TxIndexes → S → Result (S × Bool)
  deliver_txs height [] s = ok (s, false)
  deliver_txs height (t ∷ ts) s = do
    tx ← parser.unpack_txid t.btx_id
    elim (fn s tx height t.indexes) [
      | go_on s' ↦ deliver_txs height ts s'
      | stop_iteration s' ↦ ok (s', true)
      | callback_error e ↦ err e
    ]

  module _ {v : Vlq} (laws : VlqLaws v) where
    signalled :
        (height : ℕ) (fuel : ℕ) (rest : Bytes) (ts : List TxIndexes) (r : Signal S)
        → ((s : S) → scan_entry v parser fn fuel height rest s ≡ deliver_txs height ts s)
        → (elim r as (λ _. Result (S × Bool)) [
          | go_on s' ↦ scan_entry v parser fn fuel height rest s'
          | stop_iteration s' ↦ ok (s', true)
          | callback_error e ↦ err e
        ])
          ≡ (elim r as (λ _. Result (S × Bool)) [
            | go_on s' ↦ deliver_txs height ts s'
            | stop_iteration s' ↦ ok (s', true)
            | callback_error e ↦ err e
          ])
    signalled height fuel rest ts (go_on s') h = h s'
    signalled height fuel rest ts (stop_iteration s') h = refl
    signalled height fuel rest ts (callback_error e) h = refl

    scan_one :
        (height fuel : ℕ) (t : TxIndexes) (rest : Bytes) (ts : List TxIndexes) (s : S)
        → FitsIndexes parser.packed_txid_len t
        → ((s : S) → scan_entry v parser fn fuel height rest s ≡ deliver_txs height ts s)
        → scan_entry v parser fn
            (suc fuel)
            height
            (t.btx_id ++ (pack_indexes v t.indexes ++ rest))
            s
          ≡ deliver_txs height (t ∷ ts) s
    unfolding scan_entry deliver_txs
    scan_one height fuel t rest ts s h k =
        let a = t.btx_id in
        let b = pack_indexes v t.indexes in
        let long : ltb parser.packed_txid_len (length (a ++ (b ++ rest))) ≡ true = ground (
          arith,
          h.id,
          length-append a (b ++ rest),
          length-append b rest,
          length-indexes laws parser.packed_txid_len t h,
        ) in
        let id : slice_to (a ++ (b ++ rest)) parser.packed_txid_len ≡ some a =
          rw (← h.id) (slice_to-append a (b ++ rest)) in
        let behind : slice_from (a ++ (b ++ rest)) parser.packed_txid_len ≡ some (b ++ rest) =
          rw (← h.id) (slice_from-append a (b ++ rest)) in
        let indexes : unpack_indexes v (suc (length (b ++ rest))) (b ++ rest)
            ≡ some (t.indexes, rest) =
          unpack_indexes-pack_indexes laws t.indexes (suc (length (b ++ rest))) rest h.some_index
            h.each (omega (arith, length-append b rest)) in
        rw (long, scan_entry)
          (rw (id, run)
            (bind_same (parser.unpack_txid a) _ _ λ tx.
              rw (behind, run)
                (rw (indexes, run) (signalled height fuel rest ts (fn s tx height t.indexes) k))))

    pub scan_entry-pack_each :
        (height : ℕ) (ts : List TxIndexes) (fuel : ℕ) (s : S)
        → All (FitsIndexes parser.packed_txid_len) ts
        → length (pack_each v ts) < fuel
        → scan_entry v parser fn fuel height (pack_each v ts) s ≡ deliver_txs height ts s
    scan_entry-pack_each height ts zero s h lt = elim lt [ ]
    scan_entry-pack_each height [] (suc fuel) s h lt =
        unfold scan_entry deliver_txs pack_each in ground arith
    scan_entry-pack_each height (t ∷ ts) (suc fuel) s h lt =
        let a = t.btx_id in
        let b = pack_indexes v t.indexes in
        let r = pack_each v ts in
        let size : length a + length b + length r < suc fuel =
          unfold pack_each in omega (arith, length-append a (b ++ r), length-append b r) in
        let e : pack_each v (t ∷ ts) ≡ a ++ (b ++ r) = unfold pack_each in refl in
        rw e (
          scan_one height fuel t r ts s h.0 (λ s'.
            scan_entry-pack_each height ts fuel s' h.1
              (omega (arith, length-indexes laws parser.packed_txid_len t h.0))))
