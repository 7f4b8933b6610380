-- ===== src/Mempool/Workers.antt =====
-- bchain/mempool_bitcoin_type.go, getInputAddress and getTxAddrs: what a worker finds of a transaction.
use skyr_block_explorer.Prelude.{
  Bool, true, false, Option, none, some, List, [], ◌∷◌, ◌++◌, length, get_elem?, ◌==◌,
}
use skyr_block_explorer.Prelude.Int.{ℤ, pos, negsuc, complement, to_int32}
use skyr_block_explorer.Prelude.Bytes.{Bytes}
use skyr_block_explorer.Prelude.Result.{Result, ok, panic, or_skip, ◌>>=◌}
use skyr_block_explorer.Chain.{ChainParser, Outpoint, Vin, Vout, Tx}
use skyr_block_explorer.Mempool.{AddrIndex}

-- The backend, the parser of the coin and the optional callback into the index; a nil descriptor is
-- the empty one.
pub record Source : Type 0 where
  pub get_transaction_for_mempool : Bytes → Result Tx
  pub parser : ChainParser
  pub addr_desc_for_outpoint : Option (Outpoint → Result Bytes)

module _ (s : Source) where
  open s use {parser}

  from_index : Outpoint → Result Bytes
  from_index input = elim (s.addr_desc_for_outpoint) [ none ↦ ok [] | some f ↦ f input ]

  -- The output with the index `vout`: none out of range, a panic below zero.
  output_at : List Vout → ℤ → Result (Option Vout)
  output_at vouts (negsuc _) = panic
  output_at vouts (pos n) = ok (get_elem? vouts n)

  desc_of : Option Vout → Result (Option Bytes)
  desc_of none = ok none
  desc_of (some output) = or_skip (parser.get_addr_desc_from_vout output)

  -- The descriptor of an output of a transaction that the backend has.
  from_backend : Outpoint → Result (Option Bytes)
  from_backend input = do
    itx ← or_skip (s.get_transaction_for_mempool input.txid)
    elim itx [
      | none ↦ ok none
      | some itx ↦ do output ← output_at itx.vout input.vout; desc_of output
    ]

  indexed : Outpoint → Option Bytes → Option AddrIndex
  indexed input none = none
  indexed input (some addr_desc) =
      some (record { addr_desc = addr_desc; n = complement input.vout })

  unfoldable pub get_input_address : Outpoint → Result (Option AddrIndex)
  unfolding from_index output_at desc_of from_backend indexed
  get_input_address input = do
    addr_desc ← from_index input
    found ← elim (length addr_desc == 0) [ false ↦ ok (some addr_desc) | true ↦ from_backend input ]
    ok (indexed input found)

  -- The first loop. The callback OnNewTxAddr is not part of the state.
  output_indexes : List Vout → Result (List AddrIndex)
  output_indexes [] = ok []
  output_indexes (o ∷ os) = do
    addr_desc ← or_skip (parser.get_addr_desc_from_vout o)
    rest ← output_indexes os
    elim addr_desc [
      | none ↦ ok rest
      | some addr_desc ↦ elim (length addr_desc == 0) [
        | true ↦ ok rest
        | false ↦ ok (record { addr_desc = addr_desc; n = to_int32 (pos o.n) } ∷ rest)
      ]
    ]

  -- The results of the inputs, as the sub-workers give them for each; a coinbase is passed over.
  input_results : List Vin → Result (List (Option AddrIndex))
  input_results [] = ok []
  input_results (x ∷ xs) = elim (length x.coinbase == 0) [
    | false ↦ input_results xs
    | true ↦ do
      ai ← get_input_address (record { txid = x.txid; vout = to_int32 (pos x.vout) })
      rest ← input_results xs
      ok (ai ∷ rest)
  ]

  -- `if ai != nil { io = append(io, *ai) }`
  found_inputs : List (Option AddrIndex) → List AddrIndex
  found_inputs [] = []
  found_inputs (none ∷ ais) = found_inputs ais
  found_inputs (some ai ∷ ais) = ai ∷ found_inputs ais

  -- `arrive` is the order in which the results of the sub-workers come back. A transaction that the
  -- backend does not give has no addresses.
  unfoldable pub get_tx_addrs :
      (List (Option AddrIndex) → List (Option AddrIndex)) → Bytes → Result (List AddrIndex × Bool)
  unfolding output_indexes input_results found_inputs
  get_tx_addrs arrive txid = do
    found ← or_skip (s.get_transaction_for_mempool txid)
    elim found [
      | none ↦ ok ([], false)
      | some tx ↦ do
        io ← output_indexes tx.vout
        ais ← input_results tx.vin
        ok (io ++ found_inputs (arrive ais), true)
    ]
