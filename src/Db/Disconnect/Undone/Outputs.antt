-- ===== src/Db/Disconnect/Undone/Outputs.antt =====
-- db/rocksdb.go, processAddressesBitcoinType and disconnectTxAddresses: an output of a block that is
-- taken back.
use skyr_block_explorer.Prelude.{
  ℕ, ◌+◌, ◌^◌, ◌<◌, ◌≡◌, refl, ap, ◌∙◌, true, false, Option, some, List, [], ◌∷◌, ◌++◌, All, length,
  ◌==◌,
}
use skyr_block_explorer.Prelude.Int.{pos, is_neg, to_int32}
use skyr_block_explorer.Prelude.Bytes.{Bytes, bytes_eq_refl}
use skyr_block_explorer.Prelude.GoMap.{lookup, insert, lookup-insert}
use skyr_block_explorer.Prelude.Result.{ok, ◌>>=◌}
use skyr_block_explorer.Db.Types.{TxOutput, Utxo, AddrBalance}
use skyr_block_explorer.Db.Utxos.{has_utxo}
use skyr_block_explorer.Db.Utxos.Index.{IsIndexed}
use skyr_block_explorer.Db.Utxos.Spend.{NotOfTx}
use skyr_block_explorer.Db.TxIndexes.{add_to_addresses_map}
use skyr_block_explorer.Db.Connect.{Env, Maps, credited, credit, load_balance}
use skyr_block_explorer.Db.Disconnect.{
  Undo, is_in, include, withdraw, undo_output_at, store_balances_disconnect,
}
use skyr_block_explorer.Db.Disconnect.Undone.{OtherOf, change_loaded, stored_same}
use skyr_block_explorer.Db.Disconnect.Undone.Credited.{settle-withdraw-credited}

module _ (env : Env) (s : Bytes) (indexable : env.parser.is_addr_desc_indexable s ≡ true) where
  -- Crediting a balance that is loaded.
  credit_loaded :
      (u : Utxo) (m m' : Maps) (b : AddrBalance)
      → lookup s m.balances ≡ some b
      → has_utxo b u.btx_id u.vout ≡ false
      → credit env u m s ≡ ok m'
      → lookup s m'.balances
        ≡ some (credited u (add_to_addresses_map m.addresses s u.btx_id u.vout).1 b)
  unfolding credit load_balance
  credit_loaded u m m' b l d e =
      let counting = add_to_addresses_map m.addresses s u.btx_id u.vout in
      let after : Maps = record m {
        addresses = counting.0;
        balances = insert s (credited u counting.1 b) m.balances;
        cbs = record m.cbs { balances_hit = m.cbs.balances_hit + 1 };
      } in
      let run : credit env u m s ≡ ok after =
        rw (indexable, credit) (rw (l, load_balance) (rw (d, ◌>>=◌) refl)) in
      let same : m' ≡ after = cc in
      ap (λ (x : Maps). lookup s x.balances) same
      ∙ lookup-insert s s (credited u counting.1 b) m.balances
      ∙ rw (bytes_eq_refl s) refl

  module _ (u : Utxo) (m m' : Maps) (b : AddrBalance) (before block : List Utxo)
      (loaded : lookup s m.balances ≡ some b) (new : has_utxo b u.btx_id u.vout ≡ false)
      (connected : credit env u m s ≡ ok m') (w : IsIndexed b) (e : b.utxos ≡ before ++ block)
      (hb : All (NotOfTx u.btx_id) before) (hk : All (OtherOf u.btx_id u.vout) block) where
    -- For a descriptor that is indexable and not empty, whose balance is loaded, has an index that
    -- fits, is not negative and has fewer than 2 ^ 32 transactions, and an output that the balance
    -- does not have, whose transaction has only other output indexes there, behind all other
    -- outputs: if the output was connected at the descriptor, then disconnecting it, with the
    -- balance that connecting left, its amount and its place in the transaction, and the descriptor
    -- in the set of addresses just if the transaction was counted before, returns with the
    -- descriptor in the set and with a balance there that is stored as the balance from before the
    -- connecting.
    pub undo_output_at-credit :
        (i : ℕ) (t : TxOutput) (addresses : List Bytes) (undo : Undo)
        → (length s == 0) ≡ false
        → lookup s undo.balances ≡ some (lookup s m'.balances)
        → is_in s addresses ≡ (add_to_addresses_map m.addresses s u.btx_id u.vout).1
        → u.vout ≡ to_int32 (pos i)
        → t.value_sat ≡ u.value_sat
        → b.txs < 2 ^ 32
        → is_neg b.balance_sat ≡ false
        → (undo' : Undo) × (x : Option AddrBalance) × (undo_output_at env u.btx_id i t
              (addresses, undo)
              s
            ≡ ok (include s addresses, undo'))
          × (lookup s undo'.balances ≡ some x)
          × (store_balances_disconnect env ((s, x) ∷ [])
              ≡ store_balances_disconnect env ((s, some b) ∷ []))
    unfolding undo_output_at
    undo_output_at-credit i t addresses undo l k seen at same h n =
        let counted = (add_to_addresses_map m.addresses s u.btx_id u.vout).1 in
        let f = withdraw counted u.btx_id u.vout t in
        let x = withdraw counted u.btx_id u.vout t (credited u counted b) in
        let known : lookup s undo.balances ≡ some (some (credited u counted b)) =
          k ∙ ap some (credit_loaded u m m' b loaded new connected) in
        (
          record undo { balances = insert s (some x) undo.balances },
          some x,
          rw (l, undo_output_at)
              (rw (indexable, seen, ← at)
                (rw (change_loaded env s f undo (credited u counted b) known) refl)),
          lookup-insert s s (some x) undo.balances ∙ rw (bytes_eq_refl s) refl,
          stored_same env s x b x.utxos_map
              (settle-withdraw-credited counted b before block u t w e hb hk h n same),
        )
