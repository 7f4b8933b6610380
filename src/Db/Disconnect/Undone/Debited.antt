-- ===== src/Db/Disconnect/Undone/Debited.antt =====
-- db/rocksdb.go, disconnectTxAddresses: the balance that an output was put back to.
use skyr_block_explorer.Prelude.{
  ◌^◌, ◌<◌, ◌≡◌, refl, sym, ap, ◌∙◌, Bool, true, false, some, List, [], ◌∷◌, ◌++◌, All, All-append,
}
use skyr_block_explorer.Prelude.Int.{ℤ, is_neg, ◌+ℤ◌, ◌-ℤ◌}
use skyr_block_explorer.Prelude.Bytes.{Bytes}
use skyr_block_explorer.Db.Types.{TxInput, Utxo, AddrBalance}
use skyr_block_explorer.Db.Utxos.{mark_linear, mark_utxo_as_spent}
use skyr_block_explorer.Db.Utxos.Index.{IsIndexed}
use skyr_block_explorer.Db.Utxos.Spend.{OfTx, NotOfTx, mark_utxo_as_spent_together}
use skyr_block_explorer.Db.Connect.{count_tx, debited}
use skyr_block_explorer.Db.Disconnect.{restore, unspent, settle}
use skyr_block_explorer.Db.Disconnect.Undone.{
  OtherOf, marked_away, or_zero-added, -ℤ-+ℤ, settle-same, IsIndexed-same, count_tx-IsIndexed,
  of_tx, unspent-append, count_tx_rest, uncount_tx_rest, uncount_tx-count_tx,
}

-- What spending leaves of a balance that can pay.
debited_lem :
    (id : Bytes) (vout value : ℤ) (counted : Bool) (b : AddrBalance)
    → is_neg (b.balance_sat -ℤ value) ≡ false
    → debited id vout value counted b ≡ (
        let less = count_tx counted b in
        let marked =
          mark_utxo_as_spent (record less { balance_sat = b.balance_sat -ℤ value }) id vout in
        record marked { sent_sat = b.sent_sat +ℤ value })
unfolding mark_utxo_as_spent count_tx
debited_lem id vout value true b h = rw h refl
debited_lem id vout value false b h = rw h refl

module _ (counted : Bool) (b : AddrBalance) (before p : List Utxo) (u : Utxo) (q after : List Utxo)
    (t : TxInput) (w : IsIndexed b) (e : b.utxos ≡ before ++ ((p ++ u ∷ q) ++ after))
    (hb : All (NotOfTx u.btx_id) before) (hp : All (OtherOf u.btx_id u.vout) p)
    (hq : All (OfTx u.btx_id) q) (ha : All (NotOfTx u.btx_id) after)
    (pays : is_neg (b.balance_sat -ℤ u.value_sat) ≡ false) where
  returned_outputs :
      unspent (restore counted t u (debited u.btx_id u.vout u.value_sat counted b)).utxos
      ≡ unspent ((before ++ ((p ++ q) ++ after)) ++ u ∷ [])
  unfolding restore
  returned_outputs =
      let less = count_tx counted b in
      let start = record less { balance_sat = b.balance_sat -ℤ u.value_sat } in
      let marked = mark_utxo_as_spent start u.btx_id u.vout in
      let spent = record marked { sent_sat = b.sent_sat +ℤ u.value_sat } in
      let outputs : marked.utxos ≡ before ++ (mark_linear u.btx_id u.vout (p ++ u ∷ q) ++ after) =
        mark_utxo_as_spent_together start u.btx_id u.vout before (p ++ u ∷ q) after
          (IsIndexed-same start less refl refl (count_tx-IsIndexed counted b w))
          ((count_tx_rest counted b).0 ∙ e) hb
          (All-append (OfTx u.btx_id) p (u ∷ q) (of_tx u.btx_id u.vout p hp) (refl, hq)) ha in
      rw (debited_lem u.btx_id u.vout u.value_sat counted b pays) (
        rw ((uncount_tx_rest counted spent).0, outputs)
          (unspent-append (before ++ (mark_linear u.btx_id u.vout (p ++ u ∷ q) ++ after)) (u ∷ [])
            ∙ ap (λ r. r ++ unspent (u ∷ []))
                (marked_away u.btx_id u.vout before p u q after hp refl refl)
            ∙ sym (unspent-append (before ++ ((p ++ q) ++ after)) (u ∷ []))))

  returned_totals :
      b.txs < 2 ^ 32
      → is_neg b.sent_sat ≡ false
      → t.value_sat ≡ u.value_sat
      → ((restore counted t u (debited u.btx_id u.vout u.value_sat counted b)).txs ≡ b.txs)
        × ((restore counted t u (debited u.btx_id u.vout u.value_sat counted b)).sent_sat
            ≡ b.sent_sat)
        × ((restore counted t u (debited u.btx_id u.vout u.value_sat counted b)).balance_sat
            ≡ b.balance_sat)
  unfolding restore mark_utxo_as_spent
  returned_totals h n v =
      let marked =
        mark_utxo_as_spent
          (record (count_tx counted b) { balance_sat = b.balance_sat -ℤ u.value_sat }) u.btx_id
          u.vout in
      let spent = record marked { sent_sat = b.sent_sat +ℤ u.value_sat } in
      let r = uncount_tx_rest counted spent in
      rw (debited_lem u.btx_id u.vout u.value_sat counted b pays) (
        uncount_tx-count_tx counted spent b refl h,
        rw (r.2, v) (or_zero-added b.sent_sat u.value_sat n),
        rw (r.1, v) (-ℤ-+ℤ b.balance_sat u.value_sat),
      )

  -- If a transaction of a block spent an output of an address, taking it back puts the output behind
  -- the others, and leaves the balance as it was apart from that.
  pub settle-restore-debited :
      b.txs < 2 ^ 32
      → is_neg b.sent_sat ≡ false
      → t.value_sat ≡ u.value_sat
      → settle (some (restore counted t u (debited u.btx_id u.vout u.value_sat counted b)))
        ≡ settle (
            some (record b {
              utxos = (before ++ ((p ++ q) ++ after)) ++ u ∷ [];
              utxos_map =
                  (restore counted t u (debited u.btx_id u.vout u.value_sat counted b)).utxos_map;
            }))
  settle-restore-debited h n v =
      let r = returned_totals h n v in
      settle-same (restore counted t u (debited u.btx_id u.vout u.value_sat counted b)) b
        ((before ++ ((p ++ q) ++ after)) ++ u ∷ []) r.0 r.1 r.2 returned_outputs
