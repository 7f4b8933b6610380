-- ===== src/Db/AddrBalance/Order.antt =====
-- db/rocksdb.go, unpackAddrBalance: on balances that are read for an update.
use mathlib.Core.Path.{ap}
use skyr_block_explorer.Prelude.{
  ℕ, zero, suc, ◌+◌, ◌≡◌, refl, false, List, [], length, arith, leb, Bool-cases, inl, inr,
}
use skyr_block_explorer.Prelude.Int.{is_neg}
use skyr_block_explorer.Prelude.Bytes.{Bytes, slice_from}
use skyr_block_explorer.Prelude.Result.{Gives}
use skyr_block_explorer.Db.Vlq.{Vlq, unpack_varuint}
use skyr_block_explorer.Db.Bigint.{unpack_bigint}
use skyr_block_explorer.Db.Reader.{read_at}
use skyr_block_explorer.Db.Reader.Values.{
  Gives-bind, Gives-after, read_at-Gives, unpack_bigint-Gives,
}
use skyr_block_explorer.Db.Types.{Utxo, AddrBalance}
use skyr_block_explorer.Db.AddrBalance.{
  utxo_indexed, add_unpacked, unpack_utxo, unpack_utxos, with_utxos, unpack_addr_balance,
}
use skyr_block_explorer.Db.Utxos.{add_utxo}
use skyr_block_explorer.Db.Utxos.Index.{IsIndexed, add_utxo-IsIndexed}

pub record IsInOrder (ab : AddrBalance) : Type 0 where
  pub indexed : IsIndexed ab
  pub balance : is_neg ab.balance_sat ≡ false
  pub sent : is_neg ab.sent_sat ≡ false

pub IsIndexed-nil : (ab : AddrBalance) → ab.utxos ≡ [] → ab.utxos_map ≡ [] → IsIndexed ab
IsIndexed-nil ab e f = record {
  none_below = λ h. f;
  first = λ h id. absurd (omega (arith, ap (λ (us : List Utxo). length us) e));
}

pub add_utxo-IsInOrder : (ab : AddrBalance) (u : Utxo) → IsInOrder ab → IsInOrder (add_utxo ab u)
add_utxo-IsInOrder ab u w = record {
  indexed = add_utxo-IsIndexed ab u w.indexed;
  balance = unfold add_utxo in w.balance;
  sent = unfold add_utxo in w.sent;
}

module _ (v : Vlq) (txid_len : ℕ) where
  unpack_utxos-IsInOrder :
      (fuel : ℕ) (buf : Bytes) (l : ℕ) (ab : AddrBalance)
      → IsInOrder ab
      → Gives IsInOrder (unpack_utxos v txid_len fuel utxo_indexed buf l ab)
  unfolding unpack_utxos add_unpacked
  unpack_utxos-IsInOrder zero buf l ab w = tt
  unpack_utxos-IsInOrder (suc fuel) buf l ab w = Gives-after IsInOrder (slice_from buf l) _ λ rest.
      elim (Bool-cases (leb (txid_len + 3) (length rest))) [
        | inl e ↦ rw e (
            Gives-after IsInOrder (read_at (unpack_utxo v txid_len) buf l) _ λ r.
              unpack_utxos-IsInOrder fuel buf r.1 (add_utxo ab r.0) (add_utxo-IsInOrder ab r.0 w))
        | inr e ↦ rw e w
      ]

  -- Whatever bytes are stored, a balance that is read for an update, where the reading does not
  -- panic, has an index that fits its outputs, and its balance and sent amount are not negative.
  pub unpack_addr_balance-IsInOrder :
      (buf : Bytes) → Gives IsInOrder (unpack_addr_balance v txid_len buf utxo_indexed)
  unfolding unpack_addr_balance with_utxos
  unpack_addr_balance-IsInOrder buf = Gives-after IsInOrder (unpack_varuint v buf) _ λ a.
      Gives-bind (λ r. is_neg r.0 ≡ false) IsInOrder (read_at unpack_bigint buf a.1) _
        (read_at-Gives (λ z. is_neg z ≡ false) unpack_bigint unpack_bigint-Gives buf a.1)
        λ b hb.
          Gives-bind (λ r. is_neg r.0 ≡ false) IsInOrder (read_at unpack_bigint buf b.1) _
            (read_at-Gives (λ z. is_neg z ≡ false) unpack_bigint unpack_bigint-Gives buf b.1)
            λ c hc.
              unpack_utxos-IsInOrder (suc (length buf)) buf c.1 _
                (record { indexed = IsIndexed-nil _ refl refl; balance = hc; sent = hb })
