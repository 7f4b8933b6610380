-- ===== src/Db/Store/Addresses.antt =====
-- db/rocksdb.go, ConnectBlock and storeAddresses: on the column of addresses behind the write of its
-- batch.
use mathlib.Core.Path.{subst}
use skyr_block_explorer.Prelude.{
  ℕ, ◌^◌, ◌<◌, ◌≡◌, refl, sym, ap, ◌∙◌, Bool, true, false, ◌&&◌, Option, none, some, List, [], ◌∷◌,
  ◌++◌, All, length, length-append, ◌==◌, if◌then◌else◌, arith, append-nil, Bool-cases, inl, inr,
}
use skyr_block_explorer.Prelude.Bytes.{Bytes, bytes_eq, bytes_eq_iff}
use skyr_block_explorer.Prelude.GoMap.{lookup, Distinct}
use skyr_block_explorer.Prelude.Result.{Result, ok, Ensures}
use skyr_block_explorer.Chain.{Block}
use skyr_block_explorer.Db.Vlq.{Vlq}
use skyr_block_explorer.Db.Keys.{pack_uint, unpack_uint, pack_address_key, complement32}
use skyr_block_explorer.Db.Keys.RoundTrip.{unpack_uint-pack_uint, length-pack_uint}
use skyr_block_explorer.Db.Types.{TxIndexes}
use skyr_block_explorer.Db.TxIndexes.{AddressesMap, pack_tx_indexes}
use skyr_block_explorer.Db.Connect.{
  Column, Env, ConnectBlockStats, Maps, cf_addresses, cf_address_balance, cf_tx_addresses,
}
use skyr_block_explorer.Db.Connect.Invariant.{IsSound}
use skyr_block_explorer.Db.Connect.Process.{process_addresses_bitcoin_type}
use skyr_block_explorer.Db.Connect.Process.Sound.{
  PaysAmounts, process_addresses_bitcoin_type-IsSound,
}
use skyr_block_explorer.Db.Store.{
  Op, Written, empty_maps, not_nil, store_addresses, store_tx_addresses, tx_addresses_value,
  store_balances, balance_value, connect_block,
}
use skyr_block_explorer.Db.Store.Batch.{Writes, after_op, after_ops, after_ops-others}
use skyr_block_explorer.Db.Store.Connected.{empty_maps-IsSound}
use skyr_block_explorer.Db.Store.Parts.{LeavesColumn, after_shape, Parts, connect_block-Parts}

-- Two keys with suffixes of one length are equal by their parts.
append-cancel : (xs ys a b : Bytes) → length a ≡ length b → xs ++ a ≡ ys ++ b → (xs ≡ ys) × (a ≡ b)
append-cancel [] [] a b n e = (refl, e)
append-cancel [] (y ∷ ys) a b n e = absurd (omega (arith, n, ap length e, length-append ys b))
append-cancel (x ∷ xs) [] a b n e = absurd (omega (arith, n, ap length e, length-append xs a))
append-cancel (x ∷ xs) (y ∷ ys) a b n e =
    let r = append-cancel xs ys a b n (grind (arith, e)) in (grind (arith, e, r.0), r.1)

pack_height_eq :
    (h1 h2 : ℕ)
    → h1 < 2 ^ 32
    → h2 < 2 ^ 32
    → pack_uint (complement32 h1) ≡ pack_uint (complement32 h2)
    → h1 ≡ h2
pack_height_eq h1 h2 p1 p2 e =
    let u1 : unpack_uint (pack_uint (complement32 h1)) ≡ some (complement32 h1) =
      rw append-nil at (unpack_uint-pack_uint (complement32 h1) [] (omega arith)) in
    let u2 : unpack_uint (pack_uint (complement32 h2)) ≡ some (complement32 h2) =
      rw append-nil at (unpack_uint-pack_uint (complement32 h2) [] (omega arith)) in
    let same : some (complement32 h1) ≡ some (complement32 h2) = sym u1 ∙ ap unpack_uint e ∙ u2 in
    grind (arith, same)

same_key :
    (j s : Bytes) (h1 h2 : ℕ)
    → h1 < 2 ^ 32
    → h2 < 2 ^ 32
    → pack_address_key j h1 ≡ pack_address_key s h2
    → (j ≡ s) × (h1 ≡ h2)
unfolding pack_address_key
same_key j s h1 h2 p1 p2 e =
    let parts =
      append-cancel j s (pack_uint (complement32 h1)) (pack_uint (complement32 h2))
        (length-pack_uint _ ∙ sym (length-pack_uint _)) e in
    (parts.0, pack_height_eq h1 h2 p1 p2 parts.1)

key_eq :
    (j s : Bytes) (h1 h2 : ℕ)
    → h1 < 2 ^ 32
    → h2 < 2 ^ 32
    → bytes_eq (pack_address_key j h1) (pack_address_key s h2) ≡ ((h1 == h2) && bytes_eq j s)
key_eq j s h1 h2 p1 p2 =
    let k1 = pack_address_key j h1 in
    let k2 = pack_address_key s h2 in
    elim (Bool-cases (bytes_eq k1 k2)) [
      | inl e ↦
          let parts = same_key j s h1 h2 p1 p2 ((bytes_eq_iff k1 k2).0 e) in
          let js = (bytes_eq_iff j s).1 parts.0 in ground (arith, e, js, parts.1)
      | inr n ↦ elim (Bool-cases ((h1 == h2) && bytes_eq j s)) [
        | inr m ↦ n ∙ sym m
        | inl m ↦
            let hs : h1 ≡ h2 = ground (arith, m) in
            let bs : bytes_eq j s ≡ true = ground (arith, m) in
            let js : j ≡ s = (bytes_eq_iff j s).0 bs in
            let ks : bytes_eq k1 k2 ≡ true =
              (bytes_eq_iff k1 k2).1
                (ap (λ d. pack_address_key d h1) js ∙ ap (pack_address_key s) hs) in
            ks ∙ sym m
      ]
    ]

-- What storeAddresses leaves at the key of a descriptor and a height, behind r.
abbrev pub entry_left : Vlq → Bool → Option (List TxIndexes) → Result Bytes → Result Bytes
entry_left v same none r = r
entry_left v same (some txi) r = if same then ok (pack_tx_indexes v txi) else r

after_store_addresses_step :
    (v : Vlq) (height : ℕ) (m : AddressesMap) (j s : Bytes) (txi : List TxIndexes) (h : ℕ)
    (r : Result Bytes)
    → height < 2 ^ 32
    → h < 2 ^ 32
    → after_ops cf_addresses (pack_address_key s h) (store_addresses v height ((j, txi) ∷ m)) r
      ≡ after_ops cf_addresses
          (pack_address_key s h)
          (store_addresses v height m)
          (if (height == h) && bytes_eq j s then ok (pack_tx_indexes v txi) else r)
unfolding after_ops after_op store_addresses
after_store_addresses_step v height m j s txi h r p1 p2 =
    ap
      (λ (b : Bool).
        after_ops cf_addresses (pack_address_key s h) (store_addresses v height m)
          (if b then ok (pack_tx_indexes v txi) else r))
      (key_eq j s height h p1 p2)

entry_left-step :
    (v : Vlq) (txi : List TxIndexes) (same b : Bool) (o : Option (List TxIndexes))
    (r : Result Bytes)
    → (b ≡ true → o ≡ none)
    → entry_left v same o (if same && b then ok (pack_tx_indexes v txi) else r)
      ≡ entry_left v same (if b then some txi else o) r
entry_left-step v txi true true o r n = rw (n refl) refl
entry_left-step v txi false true o r n = rw (n refl) refl
entry_left-step v txi true false o r n = refl
entry_left-step v txi false false o r n = refl

pub after_store_addresses_at :
    (v : Vlq) (height : ℕ) (m : AddressesMap) (s : Bytes) (h : ℕ) (r : Result Bytes)
    → height < 2 ^ 32
    → h < 2 ^ 32
    → Distinct m
    → after_ops cf_addresses (pack_address_key s h) (store_addresses v height m) r
      ≡ entry_left v (height == h) (lookup s m) r
after_store_addresses_at v height [] s h r p1 p2 d = unfold after_ops store_addresses lookup in refl
after_store_addresses_at v height ((j, txi) ∷ m) s h r p1 p2 d =
    let absent : bytes_eq j s ≡ true → lookup s m ≡ none =
      λ b. ap (λ q. lookup q m) (sym ((bytes_eq_iff j s).0 b)) ∙ d.0 in
    let found : lookup s ((j, txi) ∷ m) ≡ (if bytes_eq j s then some txi else lookup s m) =
      unfold lookup in refl in
    after_store_addresses_step v height m j s txi h r p1 p2
    ∙ after_store_addresses_at v height m s h _ p1 p2 d.1
    ∙ entry_left-step v txi (height == h) (bytes_eq j s) (lookup s m) r absent
    ∙ ap (λ o. entry_left v (height == h) o r) (sym found)

-- A batch of the shape that ConnectBlock builds touches the addresses by their own operations only.
addresses_of_batch :
    (v : Vlq) (op1 op2 : Op) (tas : _) (bals : _) (height : ℕ) (m : AddressesMap) (k : Bytes)
    (r : Result Bytes)
    → LeavesColumn cf_addresses op1
    → LeavesColumn cf_addresses op2
    → after_ops cf_addresses k
        (op1
          ∷ (store_tx_addresses v tas
              ++ (store_balances v bals ++ (op2 ∷ store_addresses v height m))))
        r
      ≡ after_ops cf_addresses k (store_addresses v height m) r
addresses_of_batch v op1 op2 tas bals height m k r h1 h2 =
    let c = cf_addresses in
    let e1 : after_ops c k (store_tx_addresses v tas) r ≡ r =
      unfold store_tx_addresses in
      after_ops-others (tx_addresses_value v) c cf_tx_addresses k tas r refl in
    let e2 : after_ops c k (store_balances v bals) r ≡ r =
      unfold store_balances in
      after_ops-others (balance_value v) c cf_address_balance k bals r refl in
    let rest = store_addresses v height m in
    after_shape c k op1 op2 (store_tx_addresses v tas) (store_balances v bals) rest r h1 h2
    ∙ ap (λ q. after_ops c k rest (after_ops c k (store_balances v bals) q)) e1
    ∙ ap (after_ops c k rest) e2

module _ (env : Env) where
  open env use {vlq, get_cf}

  -- For a block whose outputs have no negative amounts, processed to the maps m and connected to
  -- what is written, and heights below 2 ^ 32: behind the writing of the batch, the column of
  -- addresses holds at the key of a descriptor in the map of addresses and the block's height the
  -- packed records of that descriptor, and at the key of any other descriptor or height what it
  -- held before.
  pub connect_block-get_addresses :
      (block : Block) (cbs : ConnectBlockStats) (m : Maps) (w : Written)
      (after : Column → Bytes → Result Bytes) (s : Bytes) (height : ℕ)
      → All PaysAmounts block.txs
      → process_addresses_bitcoin_type env block (empty_maps cbs) ≡ ok m
      → connect_block env block cbs ≡ ok w
      → block.height < 2 ^ 32
      → height < 2 ^ 32
      → Writes w.batch get_cf after
      → after cf_addresses (pack_address_key s height)
        ≡ entry_left vlq
            (block.height == height)
            (lookup s m.addresses)
            (get_cf cf_addresses (pack_address_key s height))
  connect_block-get_addresses block cbs m w after s height pays e ew p1 p2 wr =
      let parts = subst (Ensures (Parts env block cbs)) ew (connect_block-Parts env block cbs) in
      let same : parts.maps ≡ m = cc (e, parts.maps_eq) in
      let sound : IsSound m = subst (Ensures IsSound) e (
        process_addresses_bitcoin_type-IsSound env block (empty_maps cbs) pays
          (empty_maps-IsSound cbs)) in
      let c = cf_addresses in
      let k = pack_address_key s height in
      let before = get_cf c k in
      wr.get c k
      ∙ ap (λ (ops : List Op). after_ops c k ops before) parts.batch_eq
      ∙ addresses_of_batch vlq parts.height_op parts.block_op parts.tas
          (not_nil parts.maps.balances) block.height parts.maps.addresses k before
          (parts.height_leaves c refl) (parts.block_leaves c refl)
      ∙ ap (λ (x : Maps). after_ops c k (store_addresses vlq block.height x.addresses) before) same
      ∙ after_store_addresses_at vlq block.height m.addresses s height before p1 p2 sound.addresses
