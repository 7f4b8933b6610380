-- ===== src/Db/Connect/Process.antt =====
-- db/rocksdb.go, processAddressesBitcoinType: the loops over the outputs and over the inputs.
pub mod Sound
use skyr_block_explorer.Prelude.{
  ℕ, zero, suc, ◌+◌, ◌%◌, ◌^◌, ◌≡◌, Bool, true, false, Option, none, some, List, [], ◌∷◌, ◌++◌,
  length, get_elem?, set, replicate, ltb, leb, ◌==◌, ◌||◌, if◌then◌else◌,
}
use skyr_block_explorer.Prelude.Int.{ℤ, pos, to_int32}
use skyr_block_explorer.Prelude.Bytes.{Bytes}
use skyr_block_explorer.Prelude.GoMap.{lookup, insert}
use skyr_block_explorer.Prelude.Result.{Result, Error, ok, err, panic, txid_missing, run, ◌>>=◌}
use skyr_block_explorer.Chain.{ChainParser, Vin, Vout, Tx, Block}
use skyr_block_explorer.Db.Types.{TxInput, TxOutput, TxAddresses, Utxo}
use skyr_block_explorer.Db.Connect.{
  Env, Maps, max_addr_desc_len, empty_output, empty_input, get_tx_addresses, with_owner, credit,
  debit, for_each,
}

-- The object behind a pointer, and a write to it.
object : Maps → ℕ → Result TxAddresses
object m ref = run (get_elem? m.heap ref)

write_object : Maps → ℕ → TxAddresses → Maps
write_object m ref ta = record m { heap = set m.heap ref ta }

set_output : Maps → ℕ → ℕ → TxOutput → Result Maps
set_output m ref i o = do
  ta ← object m ref
  ok (write_object m ref (record ta { outputs = set ta.outputs i o }))

set_input : Maps → ℕ → ℕ → TxInput → Result Maps
set_input m ref i x = do
  ta ← object m ref
  ok (write_object m ref (record ta { inputs = set ta.inputs i x }))

-- `&ta` for a new object, with its place in the map.
allocate : Maps → Bytes → TxAddresses → Maps × ℕ
allocate m btx_id ta =
    let ref = length m.heap in
    (
      record m {
        heap = m.heap ++ ta ∷ [];
        tx_addresses_map = insert btx_id ref m.tx_addresses_map;
      },
      ref,
    )

-- An error of the parser and a descriptor of no length leave the output without a descriptor, and so
-- does one that is too long.
usable_desc : Result Bytes → Option Bytes
usable_desc (ok addr_desc) =
    if length addr_desc == 0 || ltb max_addr_desc_len (length addr_desc)
    then none
    else some addr_desc
usable_desc _ = none

module _ (env : Env) where
  open env use {parser}

  process_output : ℕ → Bytes → ℕ → Maps → ℕ → Vout → Result Maps
  process_output height btx_id ref m i output =
      elim (usable_desc (parser.get_addr_desc_from_vout output)) [
        | none ↦ set_output m ref i (record empty_output { value_sat = output.value_sat })
        | some addr_desc ↦ do
          m ←
              set_output m ref i
                (record { addr_desc = addr_desc; spent = false; value_sat = output.value_sat })
          for_each env
              (credit env (record {
                btx_id = btx_id;
                vout = to_int32 (pos i);
                height = height;
                value_sat = output.value_sat;
              }))
              m (with_owner env addr_desc)
      ]

  process_outputs : ℕ → Bytes → ℕ → Maps → ℕ → List Vout → Result Maps
  process_outputs height btx_id ref m i [] = ok m
  process_outputs height btx_id ref m i (o ∷ os) = do
    m ← process_output height btx_id ref m i o
    process_outputs height btx_id ref m (i + 1) os

  -- The first loop: the outputs of all transactions. It gives `blockTxIDs` and `blockTxAddresses`.
  first_loop : ℕ → Maps → List Tx → Result (Maps × List (Bytes × ℕ))
  first_loop height m [] = ok (m, [])
  first_loop height m (tx ∷ txs) = do
    btx_id ← parser.pack_txid tx.txid
    let ta : TxAddresses = record {
      height = height;
      inputs = [];
      outputs = replicate (length tx.vout) empty_output;
      shield_ins = 0;
      shield_outs = 0;
      shield_val_bal = pos 0;
    }
    let (m, ref) = allocate m btx_id ta
    m ← process_outputs height btx_id ref m 0 tx.vout
    (m, ids) ← first_loop height m txs
    ok (m, (btx_id, ref) ∷ ids)

  -- What was read goes into the map.
  put_fetched : Maps → Bytes → Option TxAddresses → Option ℕ × Maps
  put_fetched m btx_id none = (none, m)
  put_fetched m btx_id (some ta) =
      let (m, ref) = allocate m btx_id ta in
      (
        some ref,
        record m { cbs = record m.cbs { tx_addresses_miss = m.cbs.tx_addresses_miss + 1 } },
      )

  -- The transaction that an input spends: in the map, or read from the data base and put there.
  spent_tx : Maps → Bytes → Result (Option ℕ × Maps)
  spent_tx m btx_id = elim (lookup btx_id m.tx_addresses_map) [
    | some ref ↦ ok (
      some ref,
      record m { cbs = record m.cbs { tx_addresses_hit = m.cbs.tx_addresses_hit + 1 } },
    )
    | none ↦ do found ← get_tx_addresses env btx_id; ok (put_fetched m btx_id found)
  ]

  -- The output with the index `vout` of the object `from` is spent; out of bounds nothing is done. A
  -- second spending is only logged.
  spend_output : Bytes → ℕ → ℕ → ℕ → Maps → Bytes → ℕ → Result Maps
  spend_output spending_txid ref i from m btx_id vout = do
    ita ← object m from
    elim (get_elem? ita.outputs vout) [
      | none ↦ ok m
      | some spent_output ↦ do
        m ←
            set_input m ref i
              (record { addr_desc = spent_output.addr_desc; value_sat = spent_output.value_sat })
        m ← set_output m from vout (record spent_output { spent = true })
        elim (length spent_output.addr_desc == 0) [
          | true ↦ ok m
          | false ↦
              for_each env
                (debit env spending_txid i btx_id (to_int32 (pos vout)) spent_output.value_sat) m
                (with_owner env spent_output.addr_desc)
        ]
    ]

  -- An input whose transaction is not known is left to the parser.
  spend_found : Tx → Bytes → ℕ → ℕ → Vin → Bytes → Option ℕ → Maps → Result Maps
  spend_found tx spending_txid ref i input btx_id none m = set_input m ref i (record {
    addr_desc = parser.get_addr_desc_for_unknown_input tx i;
    value_sat = parser.get_value_sat_for_unknown_input tx i;
  })
  spend_found tx spending_txid ref i input btx_id (some from) m =
      spend_output spending_txid ref i from m btx_id input.vout

  -- An input without a transaction id is passed over; any other error ends the work on the block.
  process_packed : Tx → Bytes → ℕ → Maps → ℕ → Vin → Result Bytes → Result Maps
  process_packed tx spending_txid ref m i input panic = panic
  process_packed tx spending_txid ref m i input (err txid_missing) = ok m
  process_packed tx spending_txid ref m i input (err e) = err e
  process_packed tx spending_txid ref m i input (ok btx_id) = do
    (found, m) ← spent_tx m btx_id
    spend_found tx spending_txid ref i input btx_id found m

  process_input : Tx → Bytes → ℕ → Maps → ℕ → Vin → Result Maps
  process_input tx spending_txid ref m i input =
      process_packed tx spending_txid ref m i input (parser.pack_txid input.txid)

  process_inputs : Tx → Bytes → ℕ → Maps → ℕ → List Vin → Result Maps
  process_inputs tx spending_txid ref m i [] = ok m
  process_inputs tx spending_txid ref m i (x ∷ xs) = do
    m ← process_input tx spending_txid ref m i x
    process_inputs tx spending_txid ref m (i + 1) xs

  -- The shielded data: both counts are those of the shielded inputs.
  set_shield : Maps → ℕ → Tx → Result Maps
  set_shield m ref tx = do
    ta ← object m ref
    ok (
        write_object m ref (record ta {
          shield_ins = length tx.v_shield_in % 2 ^ 32;
          shield_outs = length tx.v_shield_in % 2 ^ 32;
          shield_val_bal = tx.shield_val_bal;
        }))

  -- The second loop: the inputs of all transactions.
  second_loop : Maps → List Tx → List (Bytes × ℕ) → Result Maps
  second_loop m (tx ∷ txs) ((spending_txid, ref) ∷ ids) = do
    ta ← object m ref
    let m = write_object m ref (record ta { inputs = replicate (length tx.vin) empty_input })
    m ← process_inputs tx spending_txid ref m 0 tx.vin
    m ← set_shield m ref tx
    second_loop m txs ids
  second_loop m _ _ = ok m

  unfoldable pub process_addresses_bitcoin_type : Block → Maps → Result Maps
  unfolding object write_object set_output set_input allocate usable_desc first_loop process_outputs
      process_output put_fetched spent_tx spend_output spend_found process_packed process_input
      process_inputs set_shield second_loop
  process_addresses_bitcoin_type block m = do
    (m, ids) ← first_loop block.height m block.txs
    second_loop m block.txs ids
