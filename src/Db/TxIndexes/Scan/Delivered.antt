-- ===== src/Db/TxIndexes/Scan/Delivered.antt =====
-- db/rocksdb.go, GetAddrDescTransactions: what the callback is given, over a column in the order of
-- its keys.
use mathlib.Core.List.{reverse}
use skyr_block_explorer.Prelude.{
  ℕ, suc, ◌+◌, ◌^◌, ◌≤◌, ◌<◌, ◌≡◌, refl, ◌∙◌, Bool, true, false, ◌&&◌, List, [], ◌∷◌, ◌++◌, map,
  length, All, arith, ltb, leb, Bool-cases, inl, inr,
}
use skyr_block_explorer.Prelude.Int.{ℤ}
use skyr_block_explorer.Prelude.Bytes.{Bytes}
use skyr_block_explorer.Prelude.Result.{Result, ok, ◌>>=◌, bind_same}
use skyr_block_explorer.Chain.{ChainParser}
use skyr_block_explorer.Db.Vlq.{Vlq, VlqLaws}
use skyr_block_explorer.Db.Keys.{pack_address_key, unpack_address_key, bytes_ltb}
use skyr_block_explorer.Db.Keys.Order.{pack_address_key_order}
use skyr_block_explorer.Db.Keys.RoundTrip.{unpack_address_key-pack_address_key}
use skyr_block_explorer.Db.TxIndexes.{pack_each, pack_tx_indexes}
use skyr_block_explorer.Db.TxIndexes.RoundTrip.{FitsIndexes, All-reverse}
use skyr_block_explorer.Db.TxIndexes.Scan.{
  Signal, scan_entry, scan_entries, get_addr_desc_transactions,
}
use skyr_block_explorer.Db.TxIndexes.Scan.Column.{
  BlockEntry, IsDescending, FitsEntry, entry_of, in_range, seek_in, in_range-below, All-below,
  seek_in-before, seek_in-All,
}
use skyr_block_explorer.Db.TxIndexes.Scan.Entry.{deliver_txs, scan_entry-pack_each}

module _ {S : Type 0} (parser : ChainParser) (fn : S → Bytes → ℕ → List ℤ → Signal S) where
  -- The transactions of the blocks given to the callback, those of a block from the last one on.
  pub deliver : List BlockEntry → S → Result S
  deliver [] s = ok s
  deliver (b ∷ bs) s = do
    (s', stopped) ← deliver_txs parser fn b.0 (reverse b.1) s
    elim stopped [ true ↦ ok s' | false ↦ deliver bs s' ]

  module _ {v : Vlq} (laws : VlqLaws v) (addr_desc : Bytes) (some_desc : 1 ≤ length addr_desc) where
    ended :
        (stopped : Bool) (x y z : Result S)
        → y ≡ z
        → (elim stopped as (λ _. Result S) [ true ↦ x | false ↦ y ])
          ≡ (elim stopped as (λ _. Result S) [ true ↦ x | false ↦ z ])
    ended true x y z h = refl
    ended false x y z h = h

    scan_above :
        (stop_key : Bytes) (es : List (Bytes × Bytes)) (s : S)
        → All (λ (e : Bytes × Bytes). bytes_ltb stop_key e.0 ≡ true) es
        → scan_entries v parser fn stop_key es s ≡ ok s
    unfolding scan_entries
    scan_above stop_key [] s h = refl
    scan_above stop_key ((key, val) ∷ es) s h = rw (h.0, scan_entries) refl

    scan_block :
        (stop_key : Bytes) (b : BlockEntry) (es : List (Bytes × Bytes)) (s : S)
        → FitsEntry parser.packed_txid_len b
        → bytes_ltb stop_key (pack_address_key addr_desc b.0) ≡ false
        → scan_entries v parser fn stop_key (entry_of v addr_desc b ∷ es) s ≡ (
            deliver_txs parser fn b.0 (reverse b.1) s >>= λ r. elim r.1 as (λ _. Result S) [
              | true ↦ ok r.0
              | false ↦ scan_entries v parser fn stop_key es r.0
            ])
    unfolding scan_entries
    scan_block stop_key b es s h above =
        let key : unpack_address_key (pack_address_key addr_desc b.0) ≡ ok (addr_desc, b.0) =
          unpack_address_key-pack_address_key addr_desc b.0 h.0 ∙ ground (arith, some_desc) in
        let entry : scan_entry v parser fn (suc (length (pack_tx_indexes v b.1))) b.0
              (pack_tx_indexes v b.1) s
            ≡ deliver_txs parser fn b.0 (reverse b.1) s =
          unfold pack_tx_indexes in
          scan_entry-pack_each parser fn laws b.0 (reverse b.1)
            (suc (length (pack_each v (reverse b.1)))) s
            (All-reverse (FitsIndexes parser.packed_txid_len) b.1 h.1) (omega arith) in
        rw (above, scan_entries) (rw (key, ◌>>=◌) (rw entry refl))

    -- From a key of the descriptor on, whose height is not above the higher one.
    scan_from :
        (lower higher : ℕ) (bs : List BlockEntry) (after : List (Bytes × Bytes)) (s : S)
        → lower < 2 ^ 32
        → All (FitsEntry parser.packed_txid_len) bs
        → IsDescending bs
        → All (λ (b : BlockEntry). b.0 < higher + 1) bs
        → All (λ (e : Bytes × Bytes). bytes_ltb (pack_address_key addr_desc lower) e.0 ≡ true) after
        → scan_entries v parser fn
            (pack_address_key addr_desc lower)
            (map (entry_of v addr_desc) bs ++ after)
            s
          ≡ deliver (in_range lower higher bs) s
    unfolding in_range deliver scan_entries
    scan_from lower higher [] after s p h d le ha =
        scan_above (pack_address_key addr_desc lower) after s ha
    scan_from lower higher (b ∷ bs) after s p h d le ha =
        let order = pack_address_key_order addr_desc lower b.0 p h.0.0 in
        elim (Bool-cases (ltb b.0 lower)) [
          | inl y ↦
              let none_left =
                in_range-below lower higher bs (All-below b.0 lower bs (ground (arith, y)) d.0) in
              let outside : (leb lower b.0 && leb b.0 higher) ≡ false = ground (arith, y) in
              rw (outside, none_left) (rw (order ∙ y, scan_entries) refl)
          | inr n ↦
              let inside : (leb lower b.0 && leb b.0 higher) ≡ true = ground (arith, n, le.0) in
              rw inside (
                scan_block (pack_address_key addr_desc lower) b
                  (map (entry_of v addr_desc) bs ++ after) s h.0 (order ∙ n)
                ∙ bind_same (deliver_txs parser fn b.0 (reverse b.1) s) _ _
                    λ r. ended r.1 _ _ _ (scan_from lower higher bs after r.0 p h.1 d.1 le.1 ha))
        ]

    seek_from :
        (lower higher : ℕ) (bs : List BlockEntry) (after : List (Bytes × Bytes)) (s : S)
        → lower < 2 ^ 32
        → higher < 2 ^ 32
        → All (FitsEntry parser.packed_txid_len) bs
        → IsDescending bs
        → All (λ (e : Bytes × Bytes). bytes_ltb (pack_address_key addr_desc lower) e.0 ≡ true) after
        → scan_entries v parser fn
            (pack_address_key addr_desc lower)
            (seek_in (map (entry_of v addr_desc) bs ++ after) (pack_address_key addr_desc higher))
            s
          ≡ deliver (in_range lower higher bs) s
    unfolding in_range seek_in deliver
    seek_from lower higher [] after s p q h d ha =
        scan_above (pack_address_key addr_desc lower)
          (seek_in after (pack_address_key addr_desc higher)) s
          (seek_in-All
            (λ (e : Bytes × Bytes). bytes_ltb (pack_address_key addr_desc lower) e.0 ≡ true)
            (pack_address_key addr_desc higher) after ha)
    seek_from lower higher (b ∷ bs) after s p q h d ha =
        let order = pack_address_key_order addr_desc b.0 higher h.0.0 q in
        elim (Bool-cases (ltb higher b.0)) [
          | inl y ↦
              let outside : (leb lower b.0 && leb b.0 higher) ≡ false = ground (arith, y) in
              rw (outside, order ∙ y) (seek_from lower higher bs after s p q h.1 d.1 ha)
          | inr n ↦
              let top : b.0 < higher + 1 = ground (arith, n) in
              rw (order ∙ n) (
                scan_from lower higher (b ∷ bs) after s p h d
                  (top, All-below b.0 (higher + 1) bs (omega (arith, top)) d.0) ha)
        ]

    -- For a codec with its laws, a descriptor that is not empty, bounds below 2 ^ 32 and a column
    -- in the order of its keys that has, between entries with keys below the start key and entries
    -- with keys above the stop key, the entries of the descriptor for blocks in descending order,
    -- which fit: whatever the callback does, the call gives it the transactions of the blocks from
    -- the lower to the higher bound and no others, from the newest block to the oldest and the last
    -- one of a block first, until it asks to stop or returns an error or the parser does not read
    -- an id, and returns as the calls of the callback in that order do.
    pub get_addr_desc_transactions_lem :
        (lower higher : ℕ) (before : List (Bytes × Bytes)) (bs : List BlockEntry)
        (after : List (Bytes × Bytes)) (s : S)
        → lower < 2 ^ 32
        → higher < 2 ^ 32
        → All (FitsEntry parser.packed_txid_len) bs
        → IsDescending bs
        → All
            (λ (e : Bytes × Bytes). bytes_ltb e.0 (pack_address_key addr_desc higher) ≡ true)
            before
        → All (λ (e : Bytes × Bytes). bytes_ltb (pack_address_key addr_desc lower) e.0 ≡ true) after
        → get_addr_desc_transactions v parser fn
            (seek_in (before ++ (map (entry_of v addr_desc) bs ++ after)))
            addr_desc
            lower
            higher
            s
          ≡ deliver (in_range lower higher bs) s
    unfolding get_addr_desc_transactions
    get_addr_desc_transactions_lem lower higher before bs after s p q h d hb ha =
        rw
          (seek_in-before (pack_address_key addr_desc higher) before
            (map (entry_of v addr_desc) bs ++ after) hb)
          (seek_from lower higher bs after s p q h d ha)

  module _ {v : Vlq} (laws : VlqLaws v) where
    -- For a codec with its laws, if the entry of some other descriptor, which is not empty, fits
    -- and has a key that is neither below the start key nor above the stop key, stands between
    -- entries with keys below the start key and entries with keys above the stop key, then its
    -- transactions are given to the callback.
    pub get_addr_desc_transactions_mixed :
        (addr_desc other : Bytes) (lower higher : ℕ) (before : List (Bytes × Bytes))
        (b : BlockEntry) (after : List (Bytes × Bytes)) (s : S)
        → 1 ≤ length other
        → FitsEntry parser.packed_txid_len b
        → bytes_ltb (pack_address_key other b.0) (pack_address_key addr_desc higher) ≡ false
        → bytes_ltb (pack_address_key addr_desc lower) (pack_address_key other b.0) ≡ false
        → All
            (λ (e : Bytes × Bytes). bytes_ltb e.0 (pack_address_key addr_desc higher) ≡ true)
            before
        → All (λ (e : Bytes × Bytes). bytes_ltb (pack_address_key addr_desc lower) e.0 ≡ true) after
        → get_addr_desc_transactions v parser fn
            (seek_in (before ++ (entry_of v other b ∷ after)))
            addr_desc
            lower
            higher
            s
          ≡ deliver (b ∷ []) s
    unfolding get_addr_desc_transactions deliver
    get_addr_desc_transactions_mixed addr_desc other lower higher before b after s ne h start stop
          hb ha =
        let stop_key = pack_address_key addr_desc lower in
        let here : seek_in (entry_of v other b ∷ after) (pack_address_key addr_desc higher)
            ≡ entry_of v other b ∷ after =
          unfold seek_in in rw start refl in
        rw
          (seek_in-before (pack_address_key addr_desc higher) before (entry_of v other b ∷ after)
            hb)
          (rw here (
            scan_block laws other ne stop_key b after s h stop
            ∙ bind_same (deliver_txs parser fn b.0 (reverse b.1) s) _ _ λ r.
              ended laws other ne r.1 _ _ _ (scan_above laws other ne stop_key after r.0 ha)))
