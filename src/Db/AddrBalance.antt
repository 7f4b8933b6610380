-- ===== src/Db/AddrBalance.antt =====
-- db/rocksdb.go, packAddrBalance and unpackAddrBalance.
pub mod RoundTrip
pub mod Order
pub mod Size
use skyr_block_explorer.Prelude.{
  ℕ, zero, suc, ◌+◌, ◌%◌, ◌^◌, Bool, true, false, not, Option, none, some, List, [], ◌∷◌, ◌++◌,
  length, leb, if◌then◌else◌,
}
use skyr_block_explorer.Prelude.Int.{ℤ, pos, abs, is_neg, to_int32, ◌+ℤ◌}
use skyr_block_explorer.Prelude.Bytes.{Bytes, slice_from}
use skyr_block_explorer.Db.Vlq.{Vlq, pack_varuint, unpack_varuint}
use skyr_block_explorer.Db.Bigint.{pack_bigint, unpack_bigint}
use skyr_block_explorer.Db.Reader.{Reader, ◌>>=◌, read_bytes, read_at}
use skyr_block_explorer.Db.Types.{Utxo, AddrBalance}
use skyr_block_explorer.Db.Utxos.{add_utxo}

-- How much of a balance is read.
pub data AddressBalanceDetail : Type 0 where
  no_utxo utxo utxo_indexed : AddressBalanceDetail

abbrev pub empty_balance : AddrBalance
empty_balance = record {
  txs = 0;
  sent_sat = pos 0;
  balance_sat = pos 0;
  utxos = [];
  utxos_map = [];
}

unfoldable pub received_sat : AddrBalance → ℤ
received_sat ab = ab.balance_sat +ℤ ab.sent_sat

module _ (v : Vlq) where
  pack_utxo : Utxo → Bytes
  pack_utxo u =
      u.btx_id
      ++ (pack_varuint v (abs u.vout) ++ (pack_varuint v u.height ++ pack_bigint u.value_sat))

  -- Outputs that are marked as spent have a negative index, and are left out.
  pack_utxos : List Utxo → Bytes
  pack_utxos [] = []
  pack_utxos (u ∷ us) = if not (is_neg u.vout) then pack_utxo u ++ pack_utxos us else pack_utxos us

  unfoldable pub pack_addr_balance : AddrBalance → Bytes
  unfolding pack_utxo pack_utxos
  pack_addr_balance ab =
      pack_varuint v ab.txs
      ++ (pack_bigint ab.sent_sat ++ (pack_bigint ab.balance_sat ++ pack_utxos ab.utxos))

  module _ (txid_unpacked_len : ℕ) where
    unpack_utxo : Reader Utxo
    unpack_utxo buf = do
      (id, l) ← read_bytes txid_unpacked_len buf
      (vout, l) ← read_at (unpack_varuint v) buf l
      (height, l) ← read_at (unpack_varuint v) buf l
      (value, l) ← read_at unpack_bigint buf l
      some (
        record {
          btx_id = id;
          vout = to_int32 (pos vout);
          height = height % 2 ^ 32;
          value_sat = value;
        },
        l,
      )

    add_unpacked : AddressBalanceDetail → AddrBalance → Utxo → AddrBalance
    add_unpacked utxo ab u = record ab { utxos = ab.utxos ++ u ∷ [] }
    add_unpacked _ ab u = add_utxo ab u

    -- `for len(buf[l:]) >= txidUnpackedLen+3`. Each round takes an id, so as many rounds as there are
    -- bytes are enough; `none` is a panic or the end of the fuel.
    unpack_utxos : ℕ → AddressBalanceDetail → Bytes → ℕ → AddrBalance → Option AddrBalance
    unpack_utxos zero detail buf l ab = none
    unpack_utxos (suc fuel) detail buf l ab = do
      rest ← slice_from buf l
      elim (leb (txid_unpacked_len + 3) (length rest)) [
        | false ↦ some ab
        | true ↦ do
          (u, l) ← read_at unpack_utxo buf l
          unpack_utxos fuel detail buf l (add_unpacked detail ab u)
      ]

    -- The estimate of the size, which divides by the length of an id, is left out; it is not 0.
    with_utxos : AddressBalanceDetail → Bytes → ℕ → AddrBalance → Option AddrBalance
    with_utxos no_utxo buf l ab = some ab
    with_utxos detail buf l ab = unpack_utxos (suc (length buf)) detail buf l ab

    unfoldable pub unpack_addr_balance : Bytes → AddressBalanceDetail → Option AddrBalance
    unfolding unpack_utxo add_unpacked unpack_utxos with_utxos
    unpack_addr_balance buf detail = do
      (txs, l) ← unpack_varuint v buf
      (sent_sat, l) ← read_at unpack_bigint buf l
      (balance_sat, l) ← read_at unpack_bigint buf l
      with_utxos detail buf l (record {
        txs = txs % 2 ^ 32;
        sent_sat = sent_sat;
        balance_sat = balance_sat;
        utxos = [];
        utxos_map = [];
      })
