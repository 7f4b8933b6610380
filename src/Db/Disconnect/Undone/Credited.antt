-- ===== src/Db/Disconnect/Undone/Credited.antt =====
-- db/rocksdb.go, disconnectTxAddresses: the balance that an output was taken from.
use skyr_block_explorer.Prelude.{
  ◌^◌, ◌<◌, ◌≡◌, refl, ap, ◌∙◌, Bool, false, some, List, [], ◌∷◌, ◌++◌, All, All-append,
  append_assoc, append-nil,
}
use skyr_block_explorer.Prelude.Int.{is_neg, ◌+ℤ◌, ◌-ℤ◌}
use skyr_block_explorer.Db.Types.{TxOutput, Utxo, AddrBalance}
use skyr_block_explorer.Db.Utxos.{add_utxo, mark_utxo_as_spent}
use skyr_block_explorer.Db.Utxos.Index.{IsIndexed, add_utxo-IsIndexed}
use skyr_block_explorer.Db.Utxos.Spend.{OfTx, NotOfTx, mark_utxo_as_spent_together}
use skyr_block_explorer.Db.Connect.{count_tx, credited}
use skyr_block_explorer.Db.Disconnect.{uncount_tx, or_zero, withdraw, unspent, settle}
use skyr_block_explorer.Db.Disconnect.Undone.{
  OtherOf, marked_away, or_zero-added, settle-same, IsIndexed-same, uncount_tx-IsIndexed,
  count_tx-IsIndexed, of_tx, count_tx_rest, uncount_tx_rest, uncount_tx-count_tx,
}

module _ (counted : Bool) (b : AddrBalance) (before block : List Utxo) (u : Utxo) (t : TxOutput)
    (w : IsIndexed b) (e : b.utxos ≡ before ++ block) (hb : All (NotOfTx u.btx_id) before)
    (hk : All (OtherOf u.btx_id u.vout) block) where
  taken_outputs :
      unspent (withdraw counted u.btx_id u.vout t (credited u counted b)).utxos
      ≡ unspent (before ++ block)
  unfolding withdraw
  taken_outputs =
      let more = record b { balance_sat = b.balance_sat +ℤ u.value_sat } in
      let added = add_utxo more u in
      let start = uncount_tx counted (count_tx counted added) in
      let indexed = uncount_tx-IsIndexed counted (count_tx counted added) (
        count_tx-IsIndexed counted added
          (add_utxo-IsIndexed more u (IsIndexed-same more b refl refl w))) in
      let outputs : start.utxos ≡ before ++ ((block ++ u ∷ []) ++ []) =
        (uncount_tx_rest counted (count_tx counted added)).0
        ∙ (count_tx_rest counted added).0
        ∙ unfold add_utxo in ap (λ r. r ++ u ∷ []) e ∙ simp (append_assoc, append-nil) in
      ap unspent (
        mark_utxo_as_spent_together
          (record start { balance_sat = or_zero (start.balance_sat -ℤ t.value_sat) }) u.btx_id
          u.vout before (block ++ u ∷ []) [] (IsIndexed-same _ start refl refl indexed) outputs hb
          (All-append (OfTx u.btx_id) block (u ∷ []) (of_tx u.btx_id u.vout block hk) (refl, tt))
          tt)
      ∙ marked_away u.btx_id u.vout before block u [] [] hk refl refl
      ∙ simp append-nil

  taken_totals :
      b.txs < 2 ^ 32
      → is_neg b.balance_sat ≡ false
      → t.value_sat ≡ u.value_sat
      → ((withdraw counted u.btx_id u.vout t (credited u counted b)).txs ≡ b.txs)
        × ((withdraw counted u.btx_id u.vout t (credited u counted b)).sent_sat ≡ b.sent_sat)
        × ((withdraw counted u.btx_id u.vout t (credited u counted b)).balance_sat ≡ b.balance_sat)
  unfolding withdraw mark_utxo_as_spent add_utxo
  taken_totals h n v =
      let more = record b { balance_sat = b.balance_sat +ℤ u.value_sat } in
      let added = add_utxo more u in
      let r = count_tx_rest counted added in
      let r' = uncount_tx_rest counted (count_tx counted added) in
      let total : (uncount_tx counted (count_tx counted added)).balance_sat
          ≡ b.balance_sat +ℤ u.value_sat =
        r'.1 ∙ r.1 in
      (
        uncount_tx-count_tx counted (count_tx counted added) added refl h,
        r'.2 ∙ r.2,
        rw (total, v) (or_zero-added b.balance_sat u.value_sat n),
      )

  -- If a transaction of a block gave an output to an address, taking it back leaves the balance as
  -- it was.
  pub settle-withdraw-credited :
      b.txs < 2 ^ 32
      → is_neg b.balance_sat ≡ false
      → t.value_sat ≡ u.value_sat
      → settle (some (withdraw counted u.btx_id u.vout t (credited u counted b)))
        ≡ settle (
            some (record b {
              utxos_map = (withdraw counted u.btx_id u.vout t (credited u counted b)).utxos_map;
            }))
  settle-withdraw-credited h n v =
      let r = taken_totals h n v in
      settle-same (withdraw counted u.btx_id u.vout t (credited u counted b)) b b.utxos r.0 r.1 r.2
        (taken_outputs ∙ rw e refl)
