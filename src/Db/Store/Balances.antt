-- ===== src/Db/Store/Balances.antt =====
-- db/rocksdb.go, storeBalances and GetAddrDescBalance: on what is read behind a write.
use skyr_block_explorer.Prelude.{
  ◌≡◌, refl, ◌∙◌, false, Option, none, some, length, arith, ltb, ◌==◌, if◌then◌else◌, Bool-cases,
  Option-cases, inl, inr,
}
use skyr_block_explorer.Prelude.Bytes.{Bytes}
use skyr_block_explorer.Prelude.GoMap.{GoMap, lookup, Distinct}
use skyr_block_explorer.Prelude.Result.{Result, ok}
use skyr_block_explorer.Db.Vlq.{VlqLaws}
use skyr_block_explorer.Db.Types.{AddrBalance}
use skyr_block_explorer.Db.AddrBalance.{AddressBalanceDetail, pack_addr_balance}
use skyr_block_explorer.Db.AddrBalance.Size.{length-pack_addr_balance}
use skyr_block_explorer.Prelude.Each.{AllValues, AllValues-lookup}
use skyr_block_explorer.Db.Connect.Loaded.{OfOption}
use skyr_block_explorer.Db.AddrBalance.RoundTrip.{
  FitsAddrBalance, stored_balance, unpack_addr_balance-pack_addr_balance,
}
use skyr_block_explorer.Db.Connect.{Column, Env, cf_address_balance, get_addr_desc_balance}
use skyr_block_explorer.Db.Store.{balance_value, store_balances}
use skyr_block_explorer.Db.Store.Batch.{after_ops, Writes, left_by, after_ops-ops_of}

-- The same environment over another state of the data base.
abbrev pub over : Env → (Column → Bytes → Result Bytes) → Env
over env after = record env { get_cf = after }

-- What is read of a balance that was stored.
unfoldable pub kept_balance : Option AddrBalance → AddressBalanceDetail → Option AddrBalance
kept_balance none detail = none
kept_balance (some ab) detail = if ab.txs == 0 then none else some (stored_balance ab detail)

module _ (env : Env) (laws : VlqLaws env.vlq) where
  open env use {vlq, parser, get_cf}

  -- What is read where the bytes are those of an entry.
  read_left :
      (after : Column → Bytes → Result Bytes) (s : Bytes) (o : Option AddrBalance)
      (detail : AddressBalanceDetail)
      → OfOption (FitsAddrBalance parser.packed_txid_len) o
      → after cf_address_balance s ≡ left_by (balance_value vlq o)
      → get_addr_desc_balance (over env after) s detail ≡ ok (kept_balance o detail)
  unfolding balance_value kept_balance get_addr_desc_balance
  read_left after s none detail h e = rw e refl
  read_left after s (some ab) detail h e = elim (Bool-cases (ab.txs == 0)) [
    | inl z ↦ rw (e, z) refl
    | inr z ↦
        let long : ltb (length (pack_addr_balance vlq ab)) 3 ≡ false =
          ground (arith, length-pack_addr_balance laws ab) in
        let bytes : after cf_address_balance s ≡ ok (pack_addr_balance vlq ab) = e ∙ rw z refl in
        rw z (
          ground (
            arith,
            bytes,
            long,
            unpack_addr_balance-pack_addr_balance laws parser.packed_txid_len ab detail h,
          ))
  ]

  -- The same for one key, whatever else is written.
  pub read_stored :
      (abm : GoMap (Option AddrBalance)) (after : Column → Bytes → Result Bytes) (s : Bytes)
      (detail : AddressBalanceDetail)
      → Distinct abm
      → AllValues (OfOption (FitsAddrBalance parser.packed_txid_len)) abm
      → after cf_address_balance s
        ≡ after_ops cf_address_balance s (store_balances vlq abm) (get_cf cf_address_balance s)
      → get_addr_desc_balance (over env after) s detail ≡ (elim (lookup s abm) [
        | none ↦ get_addr_desc_balance env s detail
        | some o ↦ ok (kept_balance o detail)
      ])
  read_stored abm after s detail d fits w =
      let left : after cf_address_balance s ≡ (elim (lookup s abm) [
        | none ↦ get_cf cf_address_balance s
        | some o ↦ left_by (balance_value vlq o)
      ]) =
        w
        ∙ (unfold store_balances in
            after_ops-ops_of (balance_value vlq) cf_address_balance s abm
              (get_cf cf_address_balance s) d) in
      elim (Option-cases (lookup s abm)) [
        | inl n ↦
            let same : after cf_address_balance s ≡ get_cf cf_address_balance s =
              left ∙ rw n refl in
            rw n (unfold get_addr_desc_balance in rw same refl)
        | inr (o, e) ↦ rw e (
            read_left after s o detail
              (AllValues-lookup (OfOption (FitsAddrBalance parser.packed_txid_len)) abm s fits e)
              (left ∙ rw e refl))
      ]

  -- For a codec with its laws, if the keys of a map of balances are distinct and its balances fit,
  -- then behind the writing of the operations of the map the balance that is read at a key of the
  -- map is none if the map has none or one without transactions there, and otherwise the stored
  -- form of the one in the map; at any other key it is what was read before.
  pub get_addr_desc_balance-store_balances :
      (abm : GoMap (Option AddrBalance)) (after : Column → Bytes → Result Bytes) (s : Bytes)
      (detail : AddressBalanceDetail)
      → Distinct abm
      → AllValues (OfOption (FitsAddrBalance parser.packed_txid_len)) abm
      → Writes (store_balances vlq abm) get_cf after
      → get_addr_desc_balance (over env after) s detail ≡ (elim (lookup s abm) [
        | none ↦ get_addr_desc_balance env s detail
        | some o ↦ ok (kept_balance o detail)
      ])
  get_addr_desc_balance-store_balances abm after s detail d fits w =
      read_stored abm after s detail d fits (w.get cf_address_balance s)
