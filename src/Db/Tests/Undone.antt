-- ===== src/Db/Tests/Undone.antt =====
-- Runs of the theorems on what is taken back of a balance.
use native.Mathlib.Omega.{arith}
use skyr_block_explorer.Prelude.{◌≡◌, refl, false, true, Option, some, [], ◌∷◌}
use skyr_block_explorer.Prelude.Int.{pos, negsuc, ◌-ℤ◌}
use skyr_block_explorer.Prelude.Bytes.{Bytes, bytes_eq}
use skyr_block_explorer.Prelude.GoMap.{lookup}
use skyr_block_explorer.Prelude.Result.{Result, ok}
use skyr_block_explorer.Db.Types.{TxInput, TxOutput, TxAddresses, Utxo, AddrBalance}
use skyr_block_explorer.Db.Utxos.{has_utxo}
use skyr_block_explorer.Db.Utxos.Index.{IsIndexed}
use skyr_block_explorer.Db.TxIndexes.{add_to_addresses_map, slice_at, append_index}
use skyr_block_explorer.Db.Connect.{Maps, credit, debit, load_balance}
use skyr_block_explorer.Db.Disconnect.{
  Undo, include, undo_input_at, undo_output_at, store_balances_disconnect,
}
use skyr_block_explorer.Db.Disconnect.Undone.Outputs.{undo_output_at-credit}
use skyr_block_explorer.Db.Disconnect.Undone.Inputs.{undo_input_at-debit, outpoint_of, with_unspent}
use skyr_block_explorer.Db.Tests.{env, out, two_outs, no_maps}

abbrev or_maps : Result Maps → Maps
or_maps (ok m) = m
or_maps _ = no_maps

abbrev address : Bytes
address = 40 ∷ []

abbrev loaded_maps : Maps
loaded_maps = record no_maps { balances = (address, two_outs) ∷ [] }

two_outs-IsIndexed : IsIndexed two_outs
two_outs-IsIndexed = record { none_below = λ h. refl; first = λ h id. absurd (omega arith) }

-- An output that the address is given, and takes back.
abbrev given : Utxo
given = out 3 (pos 0)

abbrev given_maps : Maps
given_maps = or_maps (credit env given loaded_maps address)

given_maps_lem : credit env given loaded_maps address ≡ ok given_maps
unfolding credit load_balance lookup bytes_eq has_utxo
given_maps_lem = refl

abbrev given_output : TxOutput
given_output = record { addr_desc = address; spent = false; value_sat = pos 25 }

abbrev given_undo : Undo
given_undo = record {
  tx_addresses_to_update = [];
  balances = (address, lookup address given_maps.balances) ∷ [];
}

undo_output_at-credit_example :
    (undo' : Undo) × (x : Option AddrBalance) × (undo_output_at env
        (3 ∷ [])
        0
        given_output
        ([], given_undo)
        address
      ≡ ok (include address [], undo'))
    × (lookup address undo'.balances ≡ some x)
    × (store_balances_disconnect env ((address, x) ∷ [])
        ≡ store_balances_disconnect env ((address, some two_outs) ∷ []))
unfolding lookup bytes_eq has_utxo add_to_addresses_map append_index slice_at
undo_output_at-credit_example =
    undo_output_at-credit env address refl given loaded_maps given_maps two_outs two_outs.utxos []
      refl refl given_maps_lem two_outs-IsIndexed refl (λ e. cc, (λ e. cc, tt)) tt 0 given_output []
      given_undo refl refl refl refl refl (omega arith) refl

-- An output of the address that is spent, and is put back.
abbrev used : Utxo
used = out 1 (pos 0)

abbrev used_maps : Maps
used_maps = or_maps (debit env (9 ∷ []) 0 used.btx_id used.vout used.value_sat loaded_maps address)

used_maps_lem :
    debit env (9 ∷ []) 0 used.btx_id used.vout used.value_sat loaded_maps address ≡ ok used_maps
unfolding debit load_balance lookup bytes_eq
used_maps_lem = refl

abbrev used_output : TxOutput
used_output = record { addr_desc = address; spent = true; value_sat = pos 25 }

abbrev used_tx : TxAddresses
used_tx = record {
  height = 500;
  inputs = [];
  outputs = used_output ∷ [];
  shield_ins = 0;
  shield_outs = 0;
  shield_val_bal = pos 0;
}

abbrev used_undo : Undo
used_undo = record {
  tx_addresses_to_update = (used.btx_id, used_tx) ∷ [];
  balances = (address, lookup address used_maps.balances) ∷ [];
}

abbrev used_input : TxInput
used_input = record { addr_desc = address; value_sat = pos 25 }

undo_input_at-debit_example :
    (undo' : Undo) × (x : Option AddrBalance) × (undo_input_at env
        (outpoint_of used ∷ [])
        0
        used_input
        ([], used_undo)
        address
      ≡ ok (include address [], undo'))
    × (lookup address undo'.balances ≡ some x)
    × (store_balances_disconnect env ((address, x) ∷ [])
        ≡ store_balances_disconnect env
            ((address, some (record two_outs { utxos = out 2 (negsuc 0) ∷ used ∷ [] })) ∷ []))
    × (lookup used.btx_id undo'.tx_addresses_to_update ≡ some (with_unspent used_tx 0 used_output))
unfolding lookup bytes_eq add_to_addresses_map slice_at ◌-ℤ◌ append_index
undo_input_at-debit_example =
    undo_input_at-debit env address refl (9 ∷ []) 0 used loaded_maps used_maps two_outs [] [] []
      (out 2 (negsuc 0) ∷ []) refl used_maps_lem two_outs-IsIndexed refl tt tt tt (λ e. cc, tt) refl
      (outpoint_of used ∷ []) used_input [] used_undo used_tx 0 used_output refl refl refl refl refl
      refl refl refl refl (omega arith) refl
