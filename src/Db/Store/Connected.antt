-- ===== src/Db/Store/Connected.antt =====
-- db/rocksdb.go, ConnectBlock: on the balances behind the write of its batch.
use mathlib.Core.Path.{subst}
use skyr_block_explorer.Prelude.{
  ℕ, ◌≡◌, refl, ap, ◌∙◌, none, some, List, [], ◌∷◌, ◌++◌, All, Option-cases, inl, inr, arith,
}
use skyr_block_explorer.Prelude.Bytes.{Bytes}
use skyr_block_explorer.Prelude.GoMap.{GoMap, lookup, Distinct}
use skyr_block_explorer.Prelude.Each.{AllValues}
use skyr_block_explorer.Prelude.Result.{Result, ok, Ensures}
use skyr_block_explorer.Chain.{Block}
use skyr_block_explorer.Db.Vlq.{Vlq, VlqLaws}
use skyr_block_explorer.Db.Types.{AddrBalance}
use skyr_block_explorer.Db.AddrBalance.{AddressBalanceDetail}
use skyr_block_explorer.Db.AddrBalance.RoundTrip.{FitsAddrBalance}
use skyr_block_explorer.Db.TxIndexes.{AddressesMap}
use skyr_block_explorer.Db.Connect.{
  Column, Env, ConnectBlockStats, Maps, cf_address_balance, cf_tx_addresses, get_addr_desc_balance,
}
use skyr_block_explorer.Db.Connect.Loaded.{OfOption}
use skyr_block_explorer.Db.Connect.Invariant.{IsSound}
use skyr_block_explorer.Db.Connect.Process.{process_addresses_bitcoin_type}
use skyr_block_explorer.Db.Connect.Process.Sound.{
  PaysAmounts, process_addresses_bitcoin_type-IsSound,
}
use skyr_block_explorer.Db.Store.{
  Op, Written, empty_maps, not_nil, store_addresses, store_tx_addresses, tx_addresses_value,
  store_balances, connect_block,
}
use skyr_block_explorer.Db.Store.Batch.{Writes, after_ops, after_ops-others}
use skyr_block_explorer.Db.Store.Parts.{
  LeavesColumn, after_shape, after_store_addresses_others, Parts, connect_block-Parts,
}
use skyr_block_explorer.Db.Store.Balances.{over, kept_balance, read_stored}

-- The entries of the map without the nil of the other side.
lookup-not_nil :
    (m : GoMap AddrBalance) (s : Bytes)
    → lookup s (not_nil m) ≡ (elim (lookup s m) [ none ↦ none | some ab ↦ some (some ab) ])
unfolding lookup not_nil
lookup-not_nil [] s = refl
lookup-not_nil ((j, ab) ∷ m) s = ground (arith, lookup-not_nil m s)

not_nil-Distinct : (m : GoMap AddrBalance) → Distinct m → Distinct (not_nil m)
unfolding not_nil
not_nil-Distinct [] h = tt
not_nil-Distinct ((j, ab) ∷ m) h = (lookup-not_nil m j ∙ rw h.0 refl, not_nil-Distinct m h.1)

not_nil-AllValues :
    (P : AddrBalance → Type 0) (m : GoMap AddrBalance)
    → AllValues P m
    → AllValues (OfOption P) (not_nil m)
unfolding not_nil
not_nil-AllValues P [] h = tt
not_nil-AllValues P ((j, ab) ∷ m) h = (h.0, not_nil-AllValues P m h.1)

-- A batch of the shape that ConnectBlock builds touches the balances by their own operations only.
pub after_batch :
    (v : Vlq) (op1 op2 : Op) (tas : _) (bals : List Op) (height : ℕ) (m : AddressesMap) (s : Bytes)
    (r : Result Bytes)
    → LeavesColumn cf_address_balance op1
    → LeavesColumn cf_address_balance op2
    → after_ops cf_address_balance s
        (op1 ∷ (store_tx_addresses v tas ++ (bals ++ (op2 ∷ store_addresses v height m))))
        r
      ≡ after_ops cf_address_balance s bals r
after_batch v op1 op2 tas bals height m s r h1 h2 =
    let c = cf_address_balance in
    let e1 : after_ops c s (store_tx_addresses v tas) r ≡ r =
      unfold store_tx_addresses in
      after_ops-others (tx_addresses_value v) c cf_tx_addresses s tas r refl in
    let rest = store_addresses v height m in
    after_shape c s op1 op2 (store_tx_addresses v tas) bals rest r h1 h2
    ∙ ap (λ q. after_ops c s rest (after_ops c s bals q)) e1
    ∙ after_store_addresses_others v c height m s (after_ops c s bals r) refl

pub empty_maps-IsSound : (cbs : ConnectBlockStats) → IsSound (empty_maps cbs)
empty_maps-IsSound cbs = record {
  balances = tt;
  heap = tt;
  distinct = tt;
  keys = tt;
  addresses = tt;
}

module _ (env : Env) where
  open env use {vlq, parser, get_cf}

  -- For a codec with its laws, a block whose outputs have no negative amounts, processed to the
  -- maps m and connected to what is written, with balances in m that fit: behind the writing of the
  -- batch, the balance that is read at an address with a balance in m is its stored form, or none
  -- without transactions, and at any other address it is what was read before.
  pub connect_block-get_addr_desc_balance :
      (laws : VlqLaws vlq) (block : Block) (cbs : ConnectBlockStats) (m : Maps) (w : Written)
      (after : Column → Bytes → Result Bytes) (s : Bytes) (detail : AddressBalanceDetail)
      → All PaysAmounts block.txs
      → process_addresses_bitcoin_type env block (empty_maps cbs) ≡ ok m
      → connect_block env block cbs ≡ ok w
      → AllValues (FitsAddrBalance parser.packed_txid_len) m.balances
      → Writes w.batch get_cf after
      → get_addr_desc_balance (over env after) s detail ≡ (elim (lookup s m.balances) [
        | none ↦ get_addr_desc_balance env s detail
        | some ab ↦ ok (kept_balance (some ab) detail)
      ])
  connect_block-get_addr_desc_balance laws block cbs m w after s detail pays e ew fits wr =
      let parts = subst (Ensures (Parts env block cbs)) ew (connect_block-Parts env block cbs) in
      let c = cf_address_balance in
      let same : parts.maps ≡ m = cc (e, parts.maps_eq) in
      let sound : IsSound m = subst (Ensures IsSound) e (
        process_addresses_bitcoin_type-IsSound env block (empty_maps cbs) pays
          (empty_maps-IsSound cbs)) in
      let stored : after cf_address_balance s
          ≡ after_ops cf_address_balance s (store_balances vlq (not_nil m.balances))
              (get_cf cf_address_balance s) =
        wr.get cf_address_balance s
        ∙ ap (λ (ops : List Op). after_ops c s ops (get_cf c s)) parts.batch_eq
        ∙ after_batch vlq parts.height_op parts.block_op parts.tas
            (store_balances vlq (not_nil parts.maps.balances)) block.height parts.maps.addresses s
            (get_cf c s) (parts.height_leaves c refl) (parts.block_leaves c refl)
        ∙ ap
            (λ (x : Maps).
              after_ops cf_address_balance s (store_balances vlq (not_nil x.balances))
                (get_cf cf_address_balance s))
            same in
      read_stored env laws (not_nil m.balances) after s detail
        (not_nil-Distinct m.balances sound.distinct)
        (not_nil-AllValues (FitsAddrBalance parser.packed_txid_len) m.balances fits) stored
      ∙ found m
    where
      found :
          (m : Maps)
          → (elim (lookup s (not_nil m.balances)) [
            | none ↦ get_addr_desc_balance env s detail
            | some o ↦ ok (kept_balance o detail)
          ])
            ≡ (elim (lookup s m.balances) [
              | none ↦ get_addr_desc_balance env s detail
              | some ab ↦ ok (kept_balance (some ab) detail)
            ])
      found m = elim (Option-cases (lookup s m.balances)) [
        | inl n ↦ rw (lookup-not_nil m.balances s, n) refl
        | inr (ab, n) ↦ rw (lookup-not_nil m.balances s, n) refl
      ]
