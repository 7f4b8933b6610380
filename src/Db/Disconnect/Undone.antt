-- ===== src/Db/Disconnect/Undone.antt =====
-- db/rocksdb.go, disconnectTxAddresses: what it does to a balance takes back what
-- processAddressesBitcoinType did.
pub mod Credited
pub mod Debited
pub mod Outputs
pub mod Inputs
use skyr_block_explorer.Prelude.{
  ℕ, ◌+◌, ◌-◌, ◌%◌, ◌^◌, ◌<◌, ◌≡◌, ◌≢◌, refl, sym, ap, ◌∙◌, Bool, true, false, Option, none, some,
  List, [], ◌∷◌, ◌++◌, All, All-append, arith, append_assoc, append-nil, not, if◌then◌else◌,
  Bool-cases, inl, inr,
}
use skyr_block_explorer.Prelude.Int.{
  ℤ, pos, is_neg, eq_ℤ, eq_ℤ→eq, eq_ℤ-refl, ◌+ℤ◌, ◌-ℤ◌, +ℤ_parts, -ℤ_parts, eq_of_parts,
}
use skyr_block_explorer.Prelude.Bytes.{Bytes, bytes_eq_iff}
use skyr_block_explorer.Prelude.GoMap.{GoMap, lookup, insert}
use skyr_block_explorer.Prelude.Result.{Result, ok}
use skyr_block_explorer.Db.Types.{TxInput, TxOutput, Utxo, AddrBalance}
use skyr_block_explorer.Db.Utxos.{add_utxo, spent_mark, mark_linear, mark_utxo_as_spent}
use skyr_block_explorer.Db.Utxos.Index.{IsIndexed, add_utxo-IsIndexed}
use skyr_block_explorer.Db.Utxos.Spend.{OfTx, NotOfTx, mark_utxo_as_spent_together}
use skyr_block_explorer.Db.AddrBalance.{pack_addr_balance}
use skyr_block_explorer.Db.Store.{store_balances, ops_of, balance_value}
use skyr_block_explorer.Db.Connect.{Env, count_tx, credited, debited}
use skyr_block_explorer.Db.Disconnect.{
  Undo, balance_at, change_balance, settle_all, store_balances_disconnect, uncount_tx, or_zero,
  restore, withdraw, unspent, sort_by_height, settle,
}

-- The outputs of a transaction before the one that is looked for.
abbrev pub OtherOf : Bytes → ℤ → Utxo → Type 0
OtherOf id vout u = OfTx id u × (u.vout ≢ vout)

unspent-append : (us ws : List Utxo) → unspent (us ++ ws) ≡ unspent us ++ unspent ws
unfolding unspent
unspent-append [] ws = refl
unspent-append (u ∷ us) ws = ground (arith, unspent-append us ws)

mark_linear-found :
    (id : Bytes) (vout : ℤ) (p : List Utxo) (u : Utxo) (q : List Utxo)
    → All (OtherOf id vout) p
    → OfTx id u
    → u.vout ≡ vout
    → mark_linear id vout (p ++ u ∷ q) ≡ p ++ spent_mark u ∷ q
unfolding mark_linear
mark_linear-found id vout [] u q h k e =
    ground (arith, bytes_eq_iff u.btx_id id, eq_ℤ-refl vout, k, e)
mark_linear-found id vout (w ∷ p) u q h k e =
    ground (arith, h.0, eq_ℤ→eq w.vout vout, mark_linear-found id vout p u q h.1 k e)

uncount_tx-count_tx :
    (counted : Bool) (x b : AddrBalance)
    → x.txs ≡ (count_tx counted b).txs
    → b.txs < 2 ^ 32
    → (uncount_tx counted x).txs ≡ b.txs
unfolding uncount_tx count_tx
uncount_tx-count_tx true x b e h = e
uncount_tx-count_tx false x b e h = omega (arith, e, h)

or_zero-nonneg : (z : ℤ) → is_neg z ≡ false → or_zero z ≡ z
unfolding or_zero
or_zero-nonneg z h = rw h refl

or_zero-added : (a b : ℤ) → is_neg a ≡ false → or_zero ((a +ℤ b) -ℤ b) ≡ a
or_zero-added a b h =
    let back : (a +ℤ b) -ℤ b ≡ a =
      eq_of_parts ((a +ℤ b) -ℤ b) a (omega (arith, +ℤ_parts a b, -ℤ_parts (a +ℤ b) b)) in
    rw back (or_zero-nonneg a h)

-ℤ-+ℤ : (a b : ℤ) → (a -ℤ b) +ℤ b ≡ a
-ℤ-+ℤ a b = eq_of_parts ((a -ℤ b) +ℤ b) a (omega (arith, -ℤ_parts a b, +ℤ_parts (a -ℤ b) b))

-- Two balances with the same totals, whose outputs that are not spent are the same, are settled to
-- the same but for the index.
settle-same :
    (x b : AddrBalance) (us : List Utxo)
    → x.txs ≡ b.txs
    → x.sent_sat ≡ b.sent_sat
    → x.balance_sat ≡ b.balance_sat
    → unspent x.utxos ≡ unspent us
    → settle (some x) ≡ settle (some (record b { utxos = us; utxos_map = x.utxos_map }))
unfolding settle
settle-same x b us t s a u = cc

-- Only the outputs and their index count.
IsIndexed-same :
    (x b : AddrBalance) → x.utxos ≡ b.utxos → x.utxos_map ≡ b.utxos_map → IsIndexed b → IsIndexed x
IsIndexed-same x b e f w = record {
  none_below = λ h. f ∙ w.none_below (rw (← e) h);
  first = λ h id. rw (e, f) (w.first (rw (← e) h) id);
}

uncount_tx-IsIndexed :
    (counted : Bool) (b : AddrBalance) → IsIndexed b → IsIndexed (uncount_tx counted b)
unfolding uncount_tx
uncount_tx-IsIndexed true b w = w
uncount_tx-IsIndexed false b w = IsIndexed-same _ b refl refl w

count_tx-IsIndexed :
    (counted : Bool) (b : AddrBalance) → IsIndexed b → IsIndexed (count_tx counted b)
unfolding count_tx
count_tx-IsIndexed true b w = w
count_tx-IsIndexed false b w = IsIndexed-same _ b refl refl w

of_tx : (id : Bytes) (vout : ℤ) (us : List Utxo) → All (OtherOf id vout) us → All (OfTx id) us
of_tx id vout [] h = tt
of_tx id vout (u ∷ us) h = (h.0.0, of_tx id vout us h.1)

unspent-marked : (u : Utxo) (q : List Utxo) → unspent (spent_mark u ∷ q) ≡ unspent q
unfolding unspent
unspent-marked u q = refl

-- Of the outputs that are not spent, the marked one goes.
marked_away :
    (id : Bytes) (vout : ℤ) (before p : List Utxo) (u : Utxo) (q after : List Utxo)
    → All (OtherOf id vout) p
    → OfTx id u
    → u.vout ≡ vout
    → unspent (before ++ (mark_linear id vout (p ++ u ∷ q) ++ after))
      ≡ unspent (before ++ ((p ++ q) ++ after))
marked_away id vout before p u q after h k e =
    rw (mark_linear-found id vout p u q h k e)
      (simp (unspent-append, append_assoc) (rw (unspent-marked u q) refl))

-- Balances that are settled to the same but for the index are stored as the same.
stored_same :
    (env : Env) (s : Bytes) (x b : AddrBalance) (m : GoMap ℕ)
    → settle (some x) ≡ settle (some (record b { utxos_map = m }))
    → store_balances_disconnect env ((s, some x) ∷ [])
      ≡ store_balances_disconnect env ((s, some b) ∷ [])
unfolding store_balances_disconnect settle_all
stored_same env s x b m e =
    ap (λ (o : Option AddrBalance). store_balances env.vlq ((s, o) ∷ [])) e
    ∙ unfold store_balances ops_of balance_value settle pack_addr_balance in refl

-- Changing a balance that is loaded.
change_loaded :
    (env : Env) (s : Bytes) (f : AddrBalance → AddrBalance) (m : Undo) (x : AddrBalance)
    → lookup s m.balances ≡ some (some x)
    → change_balance env f m s ≡ ok (record m { balances = insert s (some (f x)) m.balances })
unfolding change_balance balance_at
change_loaded env s f m x l = rw (l, balance_at) refl

-- What the counting leaves alone.
count_tx_rest :
    (counted : Bool) (b : AddrBalance)
    → ((count_tx counted b).utxos ≡ b.utxos)
      × ((count_tx counted b).balance_sat ≡ b.balance_sat)
      × ((count_tx counted b).sent_sat ≡ b.sent_sat)
unfolding count_tx
count_tx_rest true b = (refl, refl, refl)
count_tx_rest false b = (refl, refl, refl)

uncount_tx_rest :
    (counted : Bool) (b : AddrBalance)
    → ((uncount_tx counted b).utxos ≡ b.utxos)
      × ((uncount_tx counted b).balance_sat ≡ b.balance_sat)
      × ((uncount_tx counted b).sent_sat ≡ b.sent_sat)
unfolding uncount_tx
uncount_tx_rest true b = (refl, refl, refl)
uncount_tx_rest false b = (refl, refl, refl)
