-- ===== src/Db/TxAddresses.antt =====
-- db/rocksdb.go, packTxAddresses, unpackTxAddresses and the functions for one input and one output.
pub mod Size
pub mod RoundTrip
pub mod Amounts
use skyr_block_explorer.Prelude.{
  ℕ, ◌+◌, ◌%◌, ◌^◌, Bool, true, false, Option, none, some, List, [], ◌∷◌, ◌++◌, length,
  if◌then◌else◌,
}
use skyr_block_explorer.Prelude.Int.{ℤ, pos, negsuc, complement, is_neg, abs}
use skyr_block_explorer.Prelude.Bytes.{Bytes}
use skyr_block_explorer.Db.Vlq.{Vlq, pack_varint, pack_varuint, unpack_varint, unpack_varuint}
use skyr_block_explorer.Db.Bigint.{pack_bigint, unpack_bigint}
use skyr_block_explorer.Db.Reader.{Reader, ◌>>=◌, read_bytes, read_at, read_list}
use skyr_block_explorer.Db.Types.{TxInput, TxOutput, TxAddresses}

module _ (v : Vlq) where
  -- What is appended to the buffer.
  append_tx_input : TxInput → Bytes
  append_tx_input txi =
      pack_varuint v (length txi.addr_desc) ++ (txi.addr_desc ++ pack_bigint txi.value_sat)

  append_tx_output : TxOutput → Bytes
  append_tx_output txo =
      let la =
        if txo.spent then complement (pos (length txo.addr_desc)) else pos (length txo.addr_desc) in
      pack_varint v la ++ (txo.addr_desc ++ pack_bigint txo.value_sat)

  -- `for i := range xs { buf = append…(&xs[i], buf, varBuf) }`
  append_inputs : List TxInput → Bytes
  append_inputs [] = []
  append_inputs (x ∷ xs) = append_tx_input x ++ append_inputs xs

  append_outputs : List TxOutput → Bytes
  append_outputs [] = []
  append_outputs (x ∷ xs) = append_tx_output x ++ append_outputs xs

  unfoldable pub pack_tx_addresses : TxAddresses → Bytes
  unfolding append_tx_input append_tx_output append_inputs append_outputs
  pack_tx_addresses ta =
      pack_varuint v ta.height
      ++ (pack_varuint v (length ta.inputs)
          ++ (append_inputs ta.inputs
              ++ (pack_varuint v (length ta.outputs)
                  ++ (append_outputs ta.outputs
                      ++ (pack_varuint v ta.shield_ins
                          ++ (pack_varuint v ta.shield_outs ++ pack_bigint ta.shield_val_bal))))))

  unpack_tx_input : Reader TxInput
  unpack_tx_input buf = do
    (al, l) ← unpack_varuint v buf
    (desc, l) ← read_at (read_bytes al) buf l
    (value, l) ← read_at unpack_bigint buf l
    some (record { addr_desc = desc; value_sat = value }, l)

  -- A negative length says that the output is spent, and is complemented.
  unpack_tx_output : Reader TxOutput
  unpack_tx_output buf = do
    (al, l) ← unpack_varint v buf
    let spent = is_neg al
    let len = if spent then abs (complement al) else abs al
    (desc, l) ← read_at (read_bytes len) buf l
    (value, l) ← read_at unpack_bigint buf l
    some (record { addr_desc = desc; spent = spent; value_sat = value }, l)

  unfoldable pub unpack_tx_addresses : Bytes → Option TxAddresses
  unfolding unpack_tx_input unpack_tx_output
  unpack_tx_addresses buf = do
    (height, l) ← unpack_varuint v buf
    (inputs, l) ← read_at (unpack_varuint v) buf l
    (ins, l) ← read_list inputs unpack_tx_input buf l
    (outputs, l) ← read_at (unpack_varuint v) buf l
    (outs, l) ← read_list outputs unpack_tx_output buf l
    (shieldinputs, l) ← read_at (unpack_varuint v) buf l
    (shieldoutputs, l) ← read_at (unpack_varuint v) buf l
    (balance, l) ← read_at unpack_bigint buf l
    some (record {
      height = height % 2 ^ 32;
      inputs = ins;
      outputs = outs;
      shield_ins = shieldinputs % 2 ^ 32;
      shield_outs = shieldoutputs % 2 ^ 32;
      shield_val_bal = balance;
    })
