-- ===== src/Db/Store/Transactions.antt =====
-- db/rocksdb.go, ConnectBlock: on the transactions behind the write of its batch.
use mathlib.Core.Path.{subst}
use skyr_block_explorer.Prelude.{
  ℕ, ◌≡◌, refl, ap, ◌∙◌, false, Option, none, some, List, [], ◌∷◌, ◌++◌, All, get_elem?, length,
  ltb, arith, append-nil,
}
use skyr_block_explorer.Prelude.Bytes.{Bytes}
use skyr_block_explorer.Prelude.GoMap.{GoMap, lookup}
use skyr_block_explorer.Prelude.Each.{All-get_elem?}
use skyr_block_explorer.Prelude.Result.{Result, ok, Ensures}
use skyr_block_explorer.Chain.{Block}
use skyr_block_explorer.Db.Vlq.{Vlq, VlqLaws}
use skyr_block_explorer.Db.Types.{TxAddresses}
use skyr_block_explorer.Db.TxAddresses.{pack_tx_addresses, unpack_tx_addresses}
use skyr_block_explorer.Db.TxAddresses.Size.{length-pack_tx_addresses}
use skyr_block_explorer.Db.TxAddresses.RoundTrip.{
  FitsTxAddresses, stored, unpack_tx_addresses-pack_tx_addresses,
}
use skyr_block_explorer.Db.TxIndexes.{AddressesMap}
use skyr_block_explorer.Db.Connect.{
  Column, Env, ConnectBlockStats, Maps, cf_address_balance, cf_tx_addresses, get_tx_addresses,
}
use skyr_block_explorer.Db.Connect.Invariant.{IsSound}
use skyr_block_explorer.Db.Connect.Process.{process_addresses_bitcoin_type}
use skyr_block_explorer.Db.Connect.Process.Sound.{
  PaysAmounts, process_addresses_bitcoin_type-IsSound,
}
use skyr_block_explorer.Db.Store.{
  Op, Written, empty_maps, follow, not_nil, store_addresses, store_tx_addresses, tx_addresses_value,
  store_balances, balance_value, connect_block,
}
use skyr_block_explorer.Db.Store.Batch.{
  Writes, after_ops, after_ops-others, after_ops-ops_of, left_by,
}
use skyr_block_explorer.Db.Store.Balances.{over}
use skyr_block_explorer.Db.Store.Connected.{empty_maps-IsSound}
use skyr_block_explorer.Db.Store.Parts.{
  LeavesColumn, after_shape, after_store_addresses_others, Parts, connect_block-Parts,
}
use skyr_block_explorer.Db.Store.Followed.{FollowsAt, Follows, follow-Follows}

-- A batch of the shape that ConnectBlock builds touches the transactions by their own operations only.
txs_of_batch :
    (v : Vlq) (op1 op2 : Op) (txs : List Op) (bals : _) (height : ℕ) (m : AddressesMap) (s : Bytes)
    (r : Result Bytes)
    → LeavesColumn cf_tx_addresses op1
    → LeavesColumn cf_tx_addresses op2
    → after_ops cf_tx_addresses s
        (op1 ∷ (txs ++ (store_balances v bals ++ (op2 ∷ store_addresses v height m))))
        r
      ≡ after_ops cf_tx_addresses s txs r
txs_of_batch v op1 op2 txs bals height m s r h1 h2 =
    let c = cf_tx_addresses in
    let q = after_ops c s txs r in
    let rest = store_addresses v height m in
    let balances : after_ops c s (store_balances v bals) q ≡ q =
      unfold store_balances in
      after_ops-others (balance_value v) c cf_address_balance s bals q refl in
    after_shape c s op1 op2 txs (store_balances v bals) rest r h1 h2
    ∙ ap (after_ops c s rest) balances
    ∙ after_store_addresses_others v c height m s q refl

module _ (env : Env) where
  open env use {vlq, parser, get_cf}

  -- What is read of a transaction where the bytes are those of a record.
  read_record :
      (laws : VlqLaws vlq) (after : Column → Bytes → Result Bytes) (s : Bytes) (ta : TxAddresses)
      → FitsTxAddresses ta
      → after cf_tx_addresses s ≡ ok (pack_tx_addresses vlq ta)
      → get_tx_addresses (over env after) s ≡ ok (some (stored ta))
  unfolding get_tx_addresses
  read_record laws after s ta fits e =
      let long : ltb (length (pack_tx_addresses vlq ta)) 3 ≡ false =
        ground (arith, length-pack_tx_addresses laws ta) in
      let whole : unpack_tx_addresses vlq (pack_tx_addresses vlq ta) ≡ some (stored ta) =
        rw append-nil at (unpack_tx_addresses-pack_tx_addresses laws ta [] fits) in
      ground (arith, e, long, whole)

  -- What is read at a key behind the batch, by the map of the transactions.
  abbrev pub ReadsTx : (Column → Bytes → Result Bytes) → Maps → Bytes → Option ℕ → Type 0
  ReadsTx after m s none = get_tx_addresses (over env after) s ≡ get_tx_addresses env s
  ReadsTx after m s (some ref) =
      (ta : TxAddresses) × (get_elem? m.heap ref ≡ some ta)
      × (get_tx_addresses (over env after) s ≡ ok (some (stored ta)))

  read_followed :
      (laws : VlqLaws vlq) (m : Maps) (tas : GoMap TxAddresses)
      (after : Column → Bytes → Result Bytes) (s : Bytes)
      → All FitsTxAddresses m.heap
      → (o : Option ℕ) → FollowsAt m.heap o (lookup s tas)
      → after cf_tx_addresses s ≡ (elim (lookup s tas) [
        | none ↦ get_cf cf_tx_addresses s
        | some ta ↦ left_by (tx_addresses_value vlq ta)
      ])
      → ReadsTx after m s o
  unfolding tx_addresses_value
  read_followed laws m tas after s fits none f e =
      let same : after cf_tx_addresses s ≡ get_cf cf_tx_addresses s = e ∙ rw f refl in
      unfold get_tx_addresses in rw same refl
  read_followed laws m tas after s fits (some ref) (ta, at, found) e = (
    ta,
    at,
    read_record laws after s ta (All-get_elem? FitsTxAddresses m.heap ref fits at)
        (e ∙ rw found refl),
  )

  -- For a codec with its laws, a block whose outputs have no negative amounts, processed to the
  -- maps m and connected to what is written, with transactions in m that fit: behind the writing of
  -- the batch, the record that is read at the id of a transaction in the map is the object that the
  -- map points to, its amounts without their signs, and at any other id it is what was read before.
  pub connect_block-get_tx_addresses :
      (laws : VlqLaws vlq) (block : Block) (cbs : ConnectBlockStats) (m : Maps) (w : Written)
      (after : Column → Bytes → Result Bytes) (s : Bytes)
      → All PaysAmounts block.txs
      → process_addresses_bitcoin_type env block (empty_maps cbs) ≡ ok m
      → connect_block env block cbs ≡ ok w
      → All FitsTxAddresses m.heap
      → Writes w.batch get_cf after
      → ReadsTx after m s (lookup s m.tx_addresses_map)
  connect_block-get_tx_addresses laws block cbs m w after s pays e ew fits wr =
      let parts = subst (Ensures (Parts env block cbs)) ew (connect_block-Parts env block cbs) in
      let tas = parts.tas in
      let same : parts.maps ≡ m = cc (e, parts.maps_eq) in
      let sound : IsSound m = subst (Ensures IsSound) e (
        process_addresses_bitcoin_type-IsSound env block (empty_maps cbs) pays
          (empty_maps-IsSound cbs)) in
      let qf' : follow m.heap m.tx_addresses_map ≡ ok tas =
        subst (λ (x : Maps). follow x.heap x.tx_addresses_map ≡ ok tas) same parts.tas_eq in
      let f : Follows m.heap m.tx_addresses_map tas =
        subst (Ensures (Follows m.heap m.tx_addresses_map)) qf'
          (follow-Follows m.heap m.tx_addresses_map sound.keys) in
      let left : after cf_tx_addresses s ≡ (elim (lookup s tas) [
        | none ↦ get_cf cf_tx_addresses s
        | some ta ↦ left_by (tx_addresses_value vlq ta)
      ]) =
        wr.get cf_tx_addresses s
        ∙ ap (λ (ops : List Op). after_ops cf_tx_addresses s ops (get_cf cf_tx_addresses s))
            parts.batch_eq
        ∙ txs_of_batch vlq parts.height_op parts.block_op (store_tx_addresses vlq tas)
            (not_nil parts.maps.balances) block.height parts.maps.addresses s
            (get_cf cf_tx_addresses s) (parts.height_leaves cf_tx_addresses refl)
            (parts.block_leaves cf_tx_addresses refl)
        ∙ (unfold store_tx_addresses in
            after_ops-ops_of (tx_addresses_value vlq) cf_tx_addresses s tas
              (get_cf cf_tx_addresses s) f.distinct) in
      read_followed laws m tas after s fits (lookup s m.tx_addresses_map) (f.at s) left
