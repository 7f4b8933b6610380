-- ===== src/Db/Connect/Invariant.antt =====
-- db/rocksdb.go, processAddressesBitcoinType: the invariant of the maps of a block, for one output
-- and one input.
use skyr_block_explorer.Prelude.{
  ℕ, ◌+◌, ◌%◌, ◌^◌, ◌≡◌, refl, Bool, true, false, Option, none, some, List, [], ◌∷◌, All, arith,
  if◌then◌else◌, Bool-cases, Option-cases, inl, inr,
}
use skyr_block_explorer.Prelude.Int.{ℤ, pos, is_neg, ◌+ℤ◌, ◌-ℤ◌}
use skyr_block_explorer.Prelude.Bytes.{Bytes}
use skyr_block_explorer.Prelude.GoMap.{Distinct, Distinct-insert, lookup, insert}
use skyr_block_explorer.Prelude.Each.{AllValues, AllValues-lookup, AllValues-insert}
use skyr_block_explorer.Prelude.Result.{Result, Ensures, Ensures-bind}
use skyr_block_explorer.Db.Types.{Utxo, AddrBalance}
use skyr_block_explorer.Db.AddrBalance.{empty_balance, utxo_indexed}
use skyr_block_explorer.Db.AddrBalance.Order.{IsInOrder, IsIndexed-nil, add_utxo-IsInOrder}
use skyr_block_explorer.Db.TxAddresses.Amounts.{HasAmounts}
use skyr_block_explorer.Db.Utxos.{has_utxo, mark_utxo_as_spent}
use skyr_block_explorer.Db.Utxos.Index.{mark_utxo_as_spent-IsIndexed, IsIndexed}
use skyr_block_explorer.Db.TxIndexes.Counted.{add_to_addresses_map-Distinct}
use skyr_block_explorer.Db.Connect.{
  Env, Maps, get_addr_desc_balance, or_empty, load_balance, count_tx, credit, debit, for_each,
}
use skyr_block_explorer.Db.Connect.Loaded.{OfOption, get_addr_desc_balance-IsInOrder}

pub record IsSound (m : Maps) : Type 0 where
  pub balances : AllValues IsInOrder m.balances
  pub heap : All HasAmounts m.heap
  pub distinct : Distinct m.balances
  pub keys : Distinct m.tx_addresses_map
  pub addresses : Distinct m.addresses

empty-IsInOrder : IsInOrder empty_balance
empty-IsInOrder = record {
  indexed = IsIndexed-nil empty_balance refl refl;
  balance = refl;
  sent = refl;
}

+ℤ-nonneg : (a b : ℤ) → is_neg a ≡ false → is_neg b ≡ false → is_neg (a +ℤ b) ≡ false
unfolding ◌+ℤ◌
+ℤ-nonneg a b h k = ground arith

-- A change of the totals keeps the order, where the new ones are not negative.
with_totals :
    (ab : AddrBalance) (txs : ℕ) (sent balance : ℤ)
    → IsIndexed ab
    → is_neg sent ≡ false
    → is_neg balance ≡ false
    → IsInOrder (record ab { txs = txs; sent_sat = sent; balance_sat = balance })
with_totals ab txs sent balance w h k = record {
  indexed = record { none_below = w.none_below; first = w.first };
  balance = k;
  sent = h;
}

count_tx-IsInOrder :
    (counted : Bool) (ab : AddrBalance) → IsInOrder ab → IsInOrder (count_tx counted ab)
unfolding count_tx
count_tx-IsInOrder true ab w = w
count_tx-IsInOrder false ab w =
    with_totals ab ((ab.txs + 1) % 2 ^ 32) ab.sent_sat ab.balance_sat w.indexed w.sent w.balance

or_empty-IsInOrder : (o : Option AddrBalance) → OfOption IsInOrder o → IsInOrder (or_empty o)
unfolding or_empty
or_empty-IsInOrder none h = empty-IsInOrder
or_empty-IsInOrder (some b) h = h

abbrev Loaded : AddrBalance × Maps → Type 0
Loaded r = IsInOrder r.0 × IsSound r.1

-- Putting a balance that is in order into the map.
put_balance :
    (m m' : Maps) (s : Bytes) (b : AddrBalance)
    → IsSound m
    → IsInOrder b
    → m'.balances ≡ insert s b m.balances
    → m'.heap ≡ m.heap
    → m'.tx_addresses_map ≡ m.tx_addresses_map
    → Distinct m'.addresses
    → IsSound m'
put_balance m m' s b w h e k t a = record {
  balances = rw e (AllValues-insert IsInOrder m.balances s b w.balances h);
  heap = rw k w.heap;
  distinct = rw e (Distinct-insert m.balances s b w.distinct);
  keys = rw t w.keys;
  addresses = a;
}

spent_back :
    (ab : AddrBalance) (value : ℤ)
    → IsIndexed ab
    → is_neg ab.sent_sat ≡ false
    → is_neg value ≡ false
    → let reset = if is_neg ab.balance_sat then record ab { balance_sat = pos 0 } else ab in
      IsInOrder (record reset { sent_sat = reset.sent_sat +ℤ value })
spent_back ab value w h k = elim (Bool-cases (is_neg ab.balance_sat)) [
  | inl e ↦ rw e (
      with_totals ab ab.txs (ab.sent_sat +ℤ value) (pos 0) w (+ℤ-nonneg ab.sent_sat value h k) refl)
  | inr e ↦ rw e (
      with_totals ab ab.txs (ab.sent_sat +ℤ value) ab.balance_sat w
        (+ℤ-nonneg ab.sent_sat value h k) e)
]

module _ (env : Env) where
  open env use {parser}

  load_balance-IsSound : (m : Maps) (s : Bytes) → IsSound m → Ensures Loaded (load_balance env m s)
  unfolding load_balance
  load_balance-IsSound m s w = elim (Option-cases (lookup s m.balances)) [
    | inr (b, e) ↦
        rw (e, load_balance)
          (
            AllValues-lookup IsInOrder m.balances s w.balances e,
            record {
              balances = w.balances;
              heap = w.heap;
              distinct = w.distinct;
              keys = w.keys;
              addresses = w.addresses;
            },
          )
    | inl e ↦
        rw (e, load_balance)
          (Ensures-bind (OfOption IsInOrder) Loaded (get_addr_desc_balance env s utxo_indexed) _
            (get_addr_desc_balance-IsInOrder env s)
            λ found h.
              let b = or_empty-IsInOrder found h in
              (b, put_balance m _ s (or_empty found) w b refl refl refl w.addresses))
  ]

  pub credit-IsSound :
      (u : Utxo) (m : Maps) (s : Bytes)
      → is_neg u.value_sat ≡ false
      → IsSound m
      → Ensures IsSound (credit env u m s)
  unfolding credit
  credit-IsSound u m s hu w = elim (Bool-cases (parser.is_addr_desc_indexable s)) [
    | inr e ↦ rw (e, credit) w
    | inl e ↦
        rw (e, credit)
          (Ensures-bind Loaded IsSound (load_balance env m s) _ (load_balance-IsSound m s w) λ r h.
            elim (Bool-cases (has_utxo r.0 u.btx_id u.vout)) [
              | inl d ↦ rw d h.1
              | inr d ↦
                  let more =
                    with_totals r.0 r.0.txs r.0.sent_sat (r.0.balance_sat +ℤ u.value_sat)
                      h.0.indexed h.0.sent (+ℤ-nonneg r.0.balance_sat u.value_sat h.0.balance hu) in
                  let b = count_tx-IsInOrder _ _ (add_utxo-IsInOrder _ u more) in
                  rw d (
                    put_balance r.1 _ s _ h.1 b refl refl refl
                      (add_to_addresses_map-Distinct r.1.addresses s u.btx_id u.vout h.1.addresses))
            ])
  ]

  pub debit-IsSound :
      (spending_txid : Bytes) (i : ℕ) (btx_id : Bytes) (vout value : ℤ) (m : Maps) (s : Bytes)
      → is_neg value ≡ false
      → IsSound m
      → Ensures IsSound (debit env spending_txid i btx_id vout value m s)
  unfolding debit
  debit-IsSound spending_txid i btx_id vout value m s hv w =
      elim (Bool-cases (parser.is_addr_desc_indexable s)) [
        | inr e ↦ rw (e, debit) w
        | inl e ↦
            rw (e, debit)
              (Ensures-bind Loaded IsSound (load_balance env m s) _ (load_balance-IsSound m s w)
                λ r h.
                  put_balance r.1 _ s _ h.1 (after r.0 _ h.0) refl refl refl
                    (add_to_addresses_map-Distinct r.1.addresses s spending_txid _ h.1.addresses))
      ]
    where
      after :
          (b : AddrBalance) (counted : Bool)
          → IsInOrder b
          → let less = count_tx counted b in
            let marked =
              mark_utxo_as_spent
                (record less { balance_sat = less.balance_sat -ℤ value })
                btx_id
                vout in
            let reset =
              if is_neg marked.balance_sat then record marked { balance_sat = pos 0 } else marked in
            IsInOrder (record reset { sent_sat = reset.sent_sat +ℤ value })
      after b counted h =
          let k = count_tx-IsInOrder counted b h in
          let less = count_tx counted b in
          let start = record less { balance_sat = less.balance_sat -ℤ value } in
          let indexed : IsIndexed start = record {
            none_below = k.indexed.none_below;
            first = k.indexed.first;
          } in
          spent_back (mark_utxo_as_spent start btx_id vout) value
            (mark_utxo_as_spent-IsIndexed start btx_id vout indexed)
            (unfold mark_utxo_as_spent in k.sent) hv

  pub for_each-IsSound :
      (f : Maps → Bytes → Result Maps)
      → ((m : Maps) (s : Bytes) → IsSound m → Ensures IsSound (f m s))
      → (m : Maps) (ss : List Bytes) → IsSound m
      → Ensures IsSound (for_each env f m ss)
  unfolding for_each
  for_each-IsSound f h m [] w = w
  for_each-IsSound f h m (s ∷ ss) w =
      Ensures-bind IsSound IsSound (f m s) _ (h m s w) (λ m' w'. for_each-IsSound f h m' ss w')
