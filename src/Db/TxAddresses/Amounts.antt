-- ===== src/Db/TxAddresses/Amounts.antt =====
-- db/rocksdb.go, unpackTxAddresses: on the amounts of the outputs that are read.
use skyr_block_explorer.Prelude.{ℕ, ◌≡◌, false, All}
use skyr_block_explorer.Prelude.Int.{is_neg}
use skyr_block_explorer.Prelude.Bytes.{Bytes}
use skyr_block_explorer.Prelude.Result.{Gives}
use skyr_block_explorer.Db.Vlq.{Vlq, unpack_varint, unpack_varuint}
use skyr_block_explorer.Db.Bigint.{unpack_bigint}
use skyr_block_explorer.Db.Reader.{read_bytes, read_at, read_list}
use skyr_block_explorer.Db.Reader.Values.{
  Gives-bind, Gives-after, read_at-Gives, read_list-Gives, unpack_bigint-Gives,
}
use skyr_block_explorer.Db.Types.{TxOutput, TxAddresses}
use skyr_block_explorer.Db.TxAddresses.{unpack_tx_input, unpack_tx_output, unpack_tx_addresses}

abbrev pub HasAmounts : TxAddresses → Type 0
HasAmounts ta = All (λ (o : TxOutput). is_neg o.value_sat ≡ false) ta.outputs

module _ (v : Vlq) where
  unpack_tx_output-amount :
      (buf : Bytes)
      → Gives (λ (r : TxOutput × ℕ). is_neg r.0.value_sat ≡ false) (unpack_tx_output v buf)
  unfolding unpack_tx_output
  unpack_tx_output-amount buf =
      let P = λ (r : TxOutput × ℕ). is_neg r.0.value_sat ≡ false in
      Gives-after P (unpack_varint v buf) _ λ a.
        Gives-after P (read_at (read_bytes _) buf a.1) _ λ b.
          Gives-bind (λ r. is_neg r.0 ≡ false) P (read_at unpack_bigint buf b.1) _
            (read_at-Gives (λ z. is_neg z ≡ false) unpack_bigint unpack_bigint-Gives buf b.1)
            (λ c hc. hc)

  pub unpack_tx_addresses-HasAmounts : (buf : Bytes) → Gives HasAmounts (unpack_tx_addresses v buf)
  unfolding unpack_tx_addresses
  unpack_tx_addresses-HasAmounts buf = Gives-after HasAmounts (unpack_varuint v buf) _ λ a.
      Gives-after HasAmounts (read_at (unpack_varuint v) buf a.1) _ λ b.
        Gives-after HasAmounts (read_list b.0 (unpack_tx_input v) buf b.1) _ λ c.
          Gives-after HasAmounts (read_at (unpack_varuint v) buf c.1) _ λ d.
            Gives-bind (λ r. All (λ (o : TxOutput). is_neg o.value_sat ≡ false) r.0) HasAmounts
              (read_list d.0 (unpack_tx_output v) buf d.1) _
              (read_list-Gives (λ (o : TxOutput). is_neg o.value_sat ≡ false) (unpack_tx_output v)
                unpack_tx_output-amount d.0 buf d.1)
              λ e he. Gives-after HasAmounts (read_at (unpack_varuint v) buf e.1) _ λ f.
                Gives-after HasAmounts (read_at (unpack_varuint v) buf f.1) _
                  λ g. Gives-after HasAmounts (read_at unpack_bigint buf g.1) _ λ h. he
