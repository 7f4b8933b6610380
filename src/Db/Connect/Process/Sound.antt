-- ===== src/Db/Connect/Process/Sound.antt =====
-- db/rocksdb.go, processAddressesBitcoinType: the invariant of the maps, for a whole block.
use skyr_block_explorer.Prelude.{
  ℕ, ◌+◌, ◌≡◌, refl, false, Option, none, some, List, [], ◌∷◌, length, get_elem?, All, All-append,
  ◌==◌, Bool-cases, Option-cases, inl, inr,
}
use skyr_block_explorer.Prelude.Int.{is_neg}
use skyr_block_explorer.Prelude.Bytes.{Bytes}
use skyr_block_explorer.Prelude.GoMap.{lookup, Distinct-insert}
use skyr_block_explorer.Prelude.Each.{All-get_elem?, All-set, All-replicate}
use skyr_block_explorer.Prelude.Result.{
  Result, ok, err, panic, txid_missing, Ensures, Ensures-bind, Ensures-after,
}
use skyr_block_explorer.Chain.{Vin, Vout, Tx, Block}
use skyr_block_explorer.Db.Types.{TxInput, TxOutput, TxAddresses}
use skyr_block_explorer.Db.TxAddresses.Amounts.{HasAmounts}
use skyr_block_explorer.Db.Connect.{Env, Maps, empty_output, get_tx_addresses, with_owner}
use skyr_block_explorer.Db.Connect.Loaded.{OfOption, get_tx_addresses-HasAmounts}
use skyr_block_explorer.Db.Connect.Invariant.{
  IsSound, credit-IsSound, debit-IsSound, for_each-IsSound,
}
use skyr_block_explorer.Db.Connect.Process.{
  object, write_object, set_output, set_input, allocate, usable_desc, process_output,
  process_outputs, first_loop, put_fetched, spent_tx, spend_output, spend_found, process_packed,
  process_input, process_inputs, set_shield, second_loop, process_addresses_bitcoin_type,
}

-- The amounts of the outputs of a transaction that comes from the chain.
abbrev pub PaysAmounts : Tx → Type 0
PaysAmounts tx = All (λ (o : Vout). is_neg o.value_sat ≡ false) tx.vout

object-HasAmounts : (m : Maps) (ref : ℕ) → IsSound m → Ensures HasAmounts (object m ref)
unfolding object
object-HasAmounts m ref w = elim (Option-cases (get_elem? m.heap ref)) [
  | inl e ↦ rw (e, object) tt
  | inr (ta, e) ↦ rw (e, object) (All-get_elem? HasAmounts m.heap ref w.heap e)
]

write_object-IsSound :
    (m : Maps) (ref : ℕ) (ta : TxAddresses)
    → IsSound m
    → HasAmounts ta
    → IsSound (write_object m ref ta)
unfolding write_object
write_object-IsSound m ref ta w h = record {
  balances = w.balances;
  distinct = w.distinct;
  keys = w.keys;
  addresses = w.addresses;
  heap = All-set HasAmounts m.heap ref ta w.heap h;
}

set_output-IsSound :
    (m : Maps) (ref i : ℕ) (o : TxOutput)
    → IsSound m
    → is_neg o.value_sat ≡ false
    → Ensures IsSound (set_output m ref i o)
unfolding set_output
set_output-IsSound m ref i o w h =
    Ensures-bind HasAmounts IsSound (object m ref) _ (object-HasAmounts m ref w) λ ta k.
      write_object-IsSound m ref _ w
        (All-set (λ (o : TxOutput). is_neg o.value_sat ≡ false) ta.outputs i o k h)

set_input-IsSound :
    (m : Maps) (ref i : ℕ) (x : TxInput) → IsSound m → Ensures IsSound (set_input m ref i x)
unfolding set_input
set_input-IsSound m ref i x w =
    Ensures-bind HasAmounts IsSound (object m ref) _ (object-HasAmounts m ref w)
      λ ta k. write_object-IsSound m ref _ w k

allocate-IsSound :
    (m : Maps) (id : Bytes) (ta : TxAddresses)
    → IsSound m
    → HasAmounts ta
    → IsSound (allocate m id ta).0
unfolding allocate
allocate-IsSound m id ta w h = record {
  balances = w.balances;
  distinct = w.distinct;
  keys = Distinct-insert m.tx_addresses_map id (length m.heap) w.keys;
  addresses = w.addresses;
  heap = All-append HasAmounts m.heap (ta ∷ []) w.heap (h, tt);
}

module _ (env : Env) where
  open env use {parser}

  process_output-IsSound :
      (height : ℕ) (id : Bytes) (ref : ℕ) (m : Maps) (i : ℕ) (o : Vout)
      → is_neg o.value_sat ≡ false
      → IsSound m
      → Ensures IsSound (process_output env height id ref m i o)
  unfolding process_output
  process_output-IsSound height id ref m i o h w =
      elim (Option-cases (usable_desc (parser.get_addr_desc_from_vout o))) [
        | inl e ↦ rw (e, process_output) (set_output-IsSound m ref i _ w h)
        | inr (desc, e) ↦
            rw (e, process_output)
              (Ensures-bind IsSound IsSound (set_output m ref i _) _
                (set_output-IsSound m ref i _ w h)
                λ m' w'.
                  for_each-IsSound env _ (λ m s k. credit-IsSound env _ m s h k) m'
                    (with_owner env desc) w')
      ]

  process_outputs-IsSound :
      (height : ℕ) (id : Bytes) (ref : ℕ) (m : Maps) (i : ℕ) (os : List Vout)
      → All (λ (o : Vout). is_neg o.value_sat ≡ false) os
      → IsSound m
      → Ensures IsSound (process_outputs env height id ref m i os)
  unfolding process_outputs
  process_outputs-IsSound height id ref m i [] h w = w
  process_outputs-IsSound height id ref m i (o ∷ os) h w =
      Ensures-bind IsSound IsSound (process_output env height id ref m i o) _
        (process_output-IsSound height id ref m i o h.0 w)
        (λ m' w'. process_outputs-IsSound height id ref m' (i + 1) os h.1 w')

  first_loop-IsSound :
      (height : ℕ) (m : Maps) (txs : List Tx)
      → All PaysAmounts txs
      → IsSound m
      → Ensures (λ r. IsSound r.0) (first_loop env height m txs)
  unfolding first_loop
  first_loop-IsSound height m [] h w = w
  first_loop-IsSound height m (tx ∷ txs) h w =
      let P = λ (r : Maps × List (Bytes × ℕ)). IsSound r.0 in
      Ensures-after P (parser.pack_txid tx.txid) _ λ id.
        let new = allocate-IsSound m id _ w (
          All-replicate (λ (o : TxOutput). is_neg o.value_sat ≡ false) (length tx.vout) empty_output
            refl) in
        Ensures-bind IsSound P _ _
          (process_outputs-IsSound height id (allocate m id _).1 (allocate m id _).0 0 tx.vout h.0
            new)
          λ m' w'.
            Ensures-bind P P (first_loop env height m' txs) _
              (first_loop-IsSound height m' txs h.1 w') (λ r k. k)

  put_fetched-IsSound :
      (m : Maps) (id : Bytes) (o : Option TxAddresses)
      → IsSound m
      → OfOption HasAmounts o
      → IsSound (put_fetched env m id o).1
  unfolding put_fetched
  put_fetched-IsSound m id none w h = w
  put_fetched-IsSound m id (some ta) w h =
      let k = allocate-IsSound m id ta w h in
      record {
        balances = k.balances;
        heap = k.heap;
        distinct = k.distinct;
        keys = k.keys;
        addresses = k.addresses;
      }

  spent_tx-IsSound :
      (m : Maps) (id : Bytes)
      → IsSound m
      → Ensures (λ (r : Option ℕ × Maps). IsSound r.1) (spent_tx env m id)
  unfolding spent_tx
  spent_tx-IsSound m id w = elim (Option-cases (lookup id m.tx_addresses_map)) [
    | inr (ref, e) ↦
        rw (e, spent_tx)
          (record {
            balances = w.balances;
            heap = w.heap;
            distinct = w.distinct;
            keys = w.keys;
            addresses = w.addresses;
          })
    | inl e ↦
        rw (e, spent_tx)
          (Ensures-bind (OfOption HasAmounts) (λ (r : Option ℕ × Maps). IsSound r.1)
            (get_tx_addresses env id) _ (get_tx_addresses-HasAmounts env id)
            (λ o h. put_fetched-IsSound m id o w h))
  ]

  spend_output-IsSound :
      (spending : Bytes) (ref i from : ℕ) (m : Maps) (id : Bytes) (vout : ℕ)
      → IsSound m
      → Ensures IsSound (spend_output env spending ref i from m id vout)
  unfolding spend_output
  spend_output-IsSound spending ref i from m id vout w =
      Ensures-bind HasAmounts IsSound (object m from) _ (object-HasAmounts m from w) λ ta h.
        elim (Option-cases (get_elem? ta.outputs vout)) [
          | inl e ↦ rw e w
          | inr (o, e) ↦
              let amount =
                All-get_elem? (λ (o : TxOutput). is_neg o.value_sat ≡ false) ta.outputs vout h e in
              rw e (
                Ensures-bind IsSound IsSound _ _ (set_input-IsSound m ref i _ w) λ m1 w1.
                  Ensures-bind IsSound IsSound _ _ (set_output-IsSound m1 from vout _ w1 amount)
                    λ m2 w2. elim (Bool-cases (length o.addr_desc == 0)) [
                      | inl z ↦ rw z w2
                      | inr z ↦ rw z (
                          for_each-IsSound env _
                            (λ m s k. debit-IsSound env spending i id _ o.value_sat m s amount k) m2
                            _ w2)
                    ])
        ]

  process_packed-IsSound :
      (tx : Tx) (spending : Bytes) (ref : ℕ) (m : Maps) (i : ℕ) (x : Vin) (r : Result Bytes)
      → IsSound m
      → Ensures IsSound (process_packed env tx spending ref m i x r)
  unfolding process_packed spend_found
  process_packed-IsSound tx spending ref m i x panic w = tt
  process_packed-IsSound tx spending ref m i x (err txid_missing) w = w
  process_packed-IsSound tx spending ref m i x (err _) w = tt
  process_packed-IsSound tx spending ref m i x (ok id) w =
      Ensures-bind (λ (r : Option ℕ × Maps). IsSound r.1) IsSound (spent_tx env m id) _
        (spent_tx-IsSound m id w) λ r k. found r.0 r.1 k
    where
      found :
          (o : Option ℕ) (m : Maps)
          → IsSound m
          → Ensures IsSound (spend_found env tx spending ref i x id o m)
      found none m k = set_input-IsSound m ref i _ k
      found (some from) m k = spend_output-IsSound spending ref i from m id x.vout k

  process_inputs-IsSound :
      (tx : Tx) (spending : Bytes) (ref : ℕ) (m : Maps) (i : ℕ) (xs : List Vin)
      → IsSound m
      → Ensures IsSound (process_inputs env tx spending ref m i xs)
  unfolding process_inputs process_input
  process_inputs-IsSound tx spending ref m i [] w = w
  process_inputs-IsSound tx spending ref m i (x ∷ xs) w =
      Ensures-bind IsSound IsSound _ _
        (process_packed-IsSound tx spending ref m i x (parser.pack_txid x.txid) w)
        (λ m' w'. process_inputs-IsSound tx spending ref m' (i + 1) xs w')

  set_shield-IsSound :
      (m : Maps) (ref : ℕ) (tx : Tx) → IsSound m → Ensures IsSound (set_shield env m ref tx)
  unfolding set_shield
  set_shield-IsSound m ref tx w =
      Ensures-bind HasAmounts IsSound (object m ref) _ (object-HasAmounts m ref w)
        λ ta k. write_object-IsSound m ref _ w k

  second_loop-IsSound :
      (m : Maps) (txs : List Tx) (ids : List (Bytes × ℕ))
      → IsSound m
      → Ensures IsSound (second_loop env m txs ids)
  unfolding second_loop
  second_loop-IsSound m [] ids w = w
  second_loop-IsSound m (tx ∷ txs) [] w = w
  second_loop-IsSound m (tx ∷ txs) ((spending, ref) ∷ ids) w =
      Ensures-bind HasAmounts IsSound (object m ref) _ (object-HasAmounts m ref w) λ ta k.
        Ensures-bind IsSound IsSound _ _
          (process_inputs-IsSound tx spending ref _ 0 tx.vin (write_object-IsSound m ref _ w k))
          λ m1 w1.
            Ensures-bind IsSound IsSound _ _ (set_shield-IsSound m1 ref tx w1)
              (λ m2 w2. second_loop-IsSound m2 txs ids w2)

  -- Whatever the data base holds, if the outputs of a block have no negative amounts and the maps
  -- are in order, then processing the block, where it gives a result, leaves the keys of the
  -- balances, of the transactions and of the addresses distinct, and every balance in the map with
  -- an index that fits its outputs and without negative balance or sent amount, and no output in
  -- the heap of transactions with a negative amount.
  pub process_addresses_bitcoin_type-IsSound :
      (block : Block) (m : Maps)
      → All PaysAmounts block.txs
      → IsSound m
      → Ensures IsSound (process_addresses_bitcoin_type env block m)
  process_addresses_bitcoin_type-IsSound block m h w =
      unfold process_addresses_bitcoin_type in
      Ensures-bind (λ (r : Maps × List (Bytes × ℕ)). IsSound r.0) IsSound
        (first_loop env block.height m block.txs) _
        (first_loop-IsSound block.height m block.txs h w)
        (λ r k. second_loop-IsSound r.0 block.txs r.1 k)
