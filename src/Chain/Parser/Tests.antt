-- ===== src/Chain/Parser/Tests.antt =====
-- Runs of the theorem on transactions that are parsed and packed.
use native.Mathlib.Omega.{arith}
use skyr_block_explorer.Prelude.{◌-◌, ◌^◌, ◌≡◌, refl, sym, ◌∙◌, [], ◌∷◌}
use skyr_block_explorer.Prelude.Int.{pos, negsuc}
use skyr_block_explorer.Prelude.Bytes.{Bytes}
use skyr_block_explorer.Prelude.Result.{Result, ok, err, invalid_hex, ◌>>=◌, Returns}
use skyr_block_explorer.Chain.{Tx}
use skyr_block_explorer.Chain.Parser.{
  ProtoTransaction, Proto, to_proto, pack_tx, unpack_tx, parse_tx_from_json, decode_string,
  from_hex_char, map_each, pack_vin, pack_vout, pack_vin_txid, pack_txid, bytes_from, to_uint64,
}
use skyr_block_explorer.Chain.Parser.RoundTrip.{FitsTx, kept_tx}
use skyr_block_explorer.Chain.Parser.Json.{
  tx_as_json, tx_cleared, cleared, unpack_tx-parse_tx_from_json,
}

-- An input with the id "0a", and an output of 300.
abbrev pub coin_tx : Tx
coin_tx = record {
  hex = b'f' ∷ b'f' ∷ [];
  txid = b'1' ∷ b'2' ∷ [];
  version = pos 1;
  lock_time = 7;
  vin =
      record {
        coinbase = [];
        txid = b'0' ∷ b'a' ∷ [];
        vout = 1;
        script_sig_hex = [];
        sequence = 5;
        addresses = [];
      }
      ∷ [];
  vout =
      record {
        value_sat = pos 300;
        json_value = [];
        n = 0;
        script_pub_key_hex = b'7' ∷ b'6' ∷ [];
        addresses = [];
      }
      ∷ [];
  confirmations = 3;
  time = pos 9;
  blocktime = pos 9;
  v_shield_in = [];
  v_shield_out = [];
  shield_val_bal = pos 0;
}

pub coin_tx-Fits : FitsTx coin_tx
coin_tx-Fits = record {
  txid = (refl, refl, tt);
  named = omega arith;
  hex = (refl, refl, tt);
  vin = ((tt, (refl, refl, tt)), tt);
  vout = ((refl, refl, tt), tt);
}

abbrev pub coin_proto : ProtoTransaction
coin_proto = record {
  txid = 0x12 ∷ [];
  hex = 0xff ∷ [];
  blocktime = 2 ^ 64 - 1;
  locktime = 7;
  height = 600;
  vin =
      record {
        coinbase = [];
        txid = 10 ∷ [];
        vout = 1;
        script_sig_hex = [];
        sequence = 5;
        addresses = [];
      }
      ∷ [];
  vout =
      record { value_sat = 1 ∷ 44 ∷ []; n = 0; script_pub_key_hex = 0x76 ∷ []; addresses = [] }
      ∷ [];
  version = pos 1;
}

coin_proto_lem : to_proto (tx_cleared coin_tx) 600 (negsuc 0) ≡ ok coin_proto
unfolding to_proto tx_cleared cleared decode_string from_hex_char map_each pack_vin pack_vout
    pack_vin_txid pack_txid bytes_from to_uint64
coin_proto_lem = refl

-- One message.
abbrev one_message : Proto
one_message = record { marshal = λ pt. ok (1 ∷ []); unmarshal = λ buf. ok coin_proto }

abbrev one_text : Bytes → Result Tx
one_text msg = ok (tx_as_json 8 coin_tx)

unpack_tx_example :
    Returns
      (λ buf. unpack_tx one_message buf ≡ ok (kept_tx coin_tx (negsuc 0), 600))
      (do parsed ← parse_tx_from_json one_text 8 []; pack_tx one_message parsed 600 (negsuc 0))
unpack_tx_example =
    unpack_tx-parse_tx_from_json one_text one_message 8 [] coin_tx 600 (negsuc 0) refl coin_tx-Fits
      (omega arith) (λ pt e. (1 ∷ [], refl, sym coin_proto_lem ∙ e))

odd_test : decode_string (b'1' ∷ []) ≡ err invalid_hex
unfolding decode_string
odd_test = refl
