-- ===== src/Db/Disconnect/Undone/Inputs.antt =====
-- db/rocksdb.go, processAddressesBitcoinType and disconnectTxAddresses: an input of a block that is
-- taken back.
use skyr_block_explorer.Prelude.{
  ℕ, ◌+◌, ◌^◌, ◌<◌, ◌≡◌, refl, ap, ◌∙◌, true, false, Option, some, List, [], ◌∷◌, ◌++◌, All, length,
  get_elem?, set, ◌==◌, if◌then◌else◌,
}
use skyr_block_explorer.Prelude.Int.{ℤ, pos, is_neg, ◌-ℤ◌, complement, to_int32}
use skyr_block_explorer.Prelude.Bytes.{Bytes, bytes_eq_refl}
use skyr_block_explorer.Prelude.GoMap.{lookup, insert, lookup-insert}
use skyr_block_explorer.Prelude.Result.{ok, run}
use skyr_block_explorer.Db.Types.{TxInput, TxOutput, TxAddresses, Utxo, AddrBalance, BtxOutpoint}
use skyr_block_explorer.Db.Utxos.Index.{IsIndexed}
use skyr_block_explorer.Db.Utxos.Spend.{OfTx, NotOfTx}
use skyr_block_explorer.Db.TxIndexes.{add_to_addresses_map}
use skyr_block_explorer.Db.Connect.{Env, Maps, debited, debit, load_balance}
use skyr_block_explorer.Db.Disconnect.{
  Undo, is_in, include, restore, unspend, spent_of, set_unspent, undo_input_at,
  store_balances_disconnect,
}
use skyr_block_explorer.Db.Disconnect.Undone.{OtherOf, change_loaded, stored_same}
use skyr_block_explorer.Db.Disconnect.Undone.Debited.{settle-restore-debited}

-- The transaction `sa` with its output `k`, which is `o`, not spent.
abbrev pub with_unspent : TxAddresses → ℕ → TxOutput → TxAddresses
with_unspent sa k o = record sa { outputs = set sa.outputs k (record o { spent = false }) }

-- The outpoint of an output.
abbrev pub outpoint_of : Utxo → BtxOutpoint
outpoint_of u = record { btx_id = u.btx_id; index = u.vout }

unspend_loaded :
    (env : Env) (undo : Undo) (u : Utxo) (sa : TxAddresses) (k : ℕ) (o : TxOutput)
    → lookup u.btx_id undo.tx_addresses_to_update ≡ some sa
    → u.vout ≡ pos k
    → get_elem? sa.outputs k ≡ some o
    → unspend env undo (outpoint_of u)
      ≡ ok (
        sa.height,
        record undo {
          tx_addresses_to_update =
              insert u.btx_id (with_unspent sa k o) undo.tx_addresses_to_update;
        },
      )
unfolding unspend spent_of set_unspent
unspend_loaded env undo u sa k o l v g = rw (l, spent_of) (rw (v, set_unspent) (rw (g, run) refl))

module _ (env : Env) (s : Bytes) (indexable : env.parser.is_addr_desc_indexable s ≡ true) where
  -- Debiting a balance that is loaded.
  debit_loaded :
      (spending_txid : Bytes) (i : ℕ) (u : Utxo) (m m' : Maps) (b : AddrBalance)
      → lookup s m.balances ≡ some b
      → debit env spending_txid i u.btx_id u.vout u.value_sat m s ≡ ok m'
      → lookup s m'.balances
        ≡ some (
            debited u.btx_id u.vout u.value_sat
              (add_to_addresses_map m.addresses s spending_txid (complement (to_int32 (pos i)))).1
              b)
  unfolding debit load_balance
  debit_loaded spending_txid i u m m' b l e =
      let counting =
        add_to_addresses_map m.addresses s spending_txid (complement (to_int32 (pos i))) in
      let x = debited u.btx_id u.vout u.value_sat counting.1 b in
      let after : Maps = record m {
        addresses = counting.0;
        balances = insert s x m.balances;
        cbs = record m.cbs { balances_hit = m.cbs.balances_hit + 1 };
      } in
      let run : debit env spending_txid i u.btx_id u.vout u.value_sat m s ≡ ok after =
        rw (indexable, debit) (rw (l, load_balance) refl) in
      let same : m' ≡ after = cc in
      ap (λ (y : Maps). lookup s y.balances) same
      ∙ lookup-insert s s x m.balances
      ∙ rw (bytes_eq_refl s) refl

  module _ (spending_txid : Bytes) (i : ℕ) (u : Utxo) (m m' : Maps) (b : AddrBalance)
      (before p q after : List Utxo) (loaded : lookup s m.balances ≡ some b)
      (connected : debit env spending_txid i u.btx_id u.vout u.value_sat m s ≡ ok m')
      (w : IsIndexed b) (e : b.utxos ≡ before ++ ((p ++ u ∷ q) ++ after))
      (hb : All (NotOfTx u.btx_id) before) (hp : All (OtherOf u.btx_id u.vout) p)
      (hq : All (OfTx u.btx_id) q) (ha : All (NotOfTx u.btx_id) after)
      (can_pay : is_neg (b.balance_sat -ℤ u.value_sat) ≡ false) where
    -- For a descriptor that is indexable and not empty, whose balance is loaded, has an index that
    -- fits, can pay the amount, was not sent less than nothing and has fewer than 2 ^ 32
    -- transactions, and an output of the balance, where the outputs of its transaction stand
    -- together and those before it have other output indexes: if the output was spent at the
    -- descriptor, then disconnecting the input that spent it, with the balance that connecting
    -- left, its amount, its transaction among those to update, and the descriptor in the set of
    -- addresses just if the spending transaction was counted before, returns with the descriptor in
    -- the set, with the output marked as not spent in its transaction, and with a balance there
    -- that is stored as the balance from before the connecting with the output moved behind all
    -- others before they are sorted.
    pub undo_input_at-debit :
        (inputs : List BtxOutpoint) (t : TxInput) (addresses : List Bytes) (undo : Undo)
        (sa : TxAddresses) (k : ℕ) (o : TxOutput)
        → (length s == 0) ≡ false
        → get_elem? inputs i ≡ some (outpoint_of u)
        → lookup s undo.balances ≡ some (lookup s m'.balances)
        → lookup u.btx_id undo.tx_addresses_to_update ≡ some sa
        → u.vout ≡ pos k
        → get_elem? sa.outputs k ≡ some o
        → sa.height ≡ u.height
        → is_in s addresses
          ≡ (add_to_addresses_map m.addresses s spending_txid (complement (to_int32 (pos i)))).1
        → t.value_sat ≡ u.value_sat
        → b.txs < 2 ^ 32
        → is_neg b.sent_sat ≡ false
        → (undo' : Undo) × (x : Option AddrBalance) × (undo_input_at env inputs i t
              (addresses, undo)
              s
            ≡ ok (include s addresses, undo'))
          × (lookup s undo'.balances ≡ some x)
          × (store_balances_disconnect env ((s, x) ∷ [])
              ≡ store_balances_disconnect env
                  ((s, some (record b { utxos = (before ++ ((p ++ q) ++ after)) ++ u ∷ [] })) ∷ []))
          × (lookup u.btx_id undo'.tx_addresses_to_update ≡ some (with_unspent sa k o))
    unfolding undo_input_at
    undo_input_at-debit inputs t addresses undo sa k o l g known to_update v out height seen same h
          n =
        let counted =
          (add_to_addresses_map m.addresses s spending_txid (complement (to_int32 (pos i)))).1 in
        let paid = debited u.btx_id u.vout u.value_sat counted b in
        let x = restore counted t u paid in
        let found : lookup s undo.balances ≡ some (some paid) =
          known ∙ ap some (debit_loaded spending_txid i u m m' b loaded connected) in
        let unspent_tx = insert u.btx_id (with_unspent sa k o) undo.tx_addresses_to_update in
        let undo1 : Undo = record undo { tx_addresses_to_update = unspent_tx } in
        let back = λ (height : ℕ) (value : ℤ).
          restore counted t (record u { height = height; value_sat = value }) in
        let undone = λ (height : ℕ) (value : ℤ). record undo1 {
          balances = insert s (some (back height value paid)) undo.balances;
        } in
        (
          record undo1 { balances = insert s (some x) undo.balances },
          some x,
          rw (l, undo_input_at)
              (rw (g, run)
                (rw (unspend_loaded env undo u sa k o to_update v out) (
                  rw (indexable, seen)
                    (rw (change_loaded env s (back sa.height t.value_sat) undo1 paid found) (
                      ap (λ (r : Undo). ok (if counted then addresses else addresses ++ s ∷ [], r))
                        (ap (λ (z : ℕ). undone z t.value_sat) height
                          ∙ ap (λ (z : ℤ). undone u.height z) same)))))),
          lookup-insert s s (some x) undo.balances ∙ rw (bytes_eq_refl s) refl,
          stored_same env s x (record b { utxos = (before ++ ((p ++ q) ++ after)) ++ u ∷ [] })
              x.utxos_map
              (settle-restore-debited counted b before p u q after t w e hb hp hq ha can_pay h n
                same),
          lookup-insert u.btx_id u.btx_id (with_unspent sa k o) undo.tx_addresses_to_update
              ∙ rw (bytes_eq_refl u.btx_id) refl,
        )
