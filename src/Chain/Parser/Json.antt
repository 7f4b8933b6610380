-- ===== src/Chain/Parser/Json.antt =====
-- bchain/baseparser.go, ParseTxFromJson, PackTx and UnpackTx together.
use mathlib.Core.Path.{subst}
use skyr_block_explorer.Prelude.{ℕ, ◌≡◌, refl, ap, some, List, [], ◌∷◌, map, All}
use skyr_block_explorer.Prelude.Int.{ℤ, pos}
use skyr_block_explorer.Prelude.Bytes.{Bytes}
use skyr_block_explorer.Prelude.Result.{Result, ok, ◌>>=◌, Returns}
use skyr_block_explorer.Chain.{Vout, Tx}
use skyr_block_explorer.Chain.Amount.{amount_to_decimal_string}
use skyr_block_explorer.Chain.Amount.RoundTrip.{amount_to_big_int-amount_to_decimal_string}
use skyr_block_explorer.Chain.Parser.{
  ProtoTransaction, Proto, map_each, to_proto, pack_tx, unpack_tx, value_vout, parse_tx_from_json,
}
use skyr_block_explorer.Chain.Parser.RoundTrip.{
  FitsVout, IsInt64, FitsTx, kept_vout, kept_tx, unpack_tx-pack_tx,
}

-- An output as it stands in the text: the amount is a decimal string.
unfoldable pub as_json : ℕ → Vout → Vout
as_json decimal_point vo = record vo {
  value_sat = pos 0;
  json_value = amount_to_decimal_string (some vo.value_sat) decimal_point;
}

unfoldable pub tx_as_json : ℕ → Tx → Tx
tx_as_json decimal_point tx = record tx { vout = map (as_json decimal_point) tx.vout }

-- The same output once it is parsed.
unfoldable pub cleared : Vout → Vout
cleared vo = record vo { json_value = [] }

unfoldable pub tx_cleared : Tx → Tx
tx_cleared tx = record tx { vout = map cleared tx.vout }

value_vout-as_json : (d : ℕ) (vo : Vout) → value_vout d (as_json d vo) ≡ ok (cleared vo)
unfolding value_vout as_json cleared
value_vout-as_json d vo = rw (amount_to_big_int-amount_to_decimal_string d vo.value_sat) refl

map_each-as_json :
    (d : ℕ) (vos : List Vout) → map_each (value_vout d) (map (as_json d) vos) ≡ ok (map cleared vos)
unfolding map_each
map_each-as_json d [] = refl
map_each-as_json d (vo ∷ vos) = rw (value_vout-as_json d vo, map_each-as_json d vos) refl

pub parse_tx_from_json-tx_as_json :
    (unmarshal : Bytes → Result Tx) (d : ℕ) (msg : Bytes) (tx : Tx)
    → unmarshal msg ≡ ok (tx_as_json d tx)
    → parse_tx_from_json unmarshal d msg ≡ ok (tx_cleared tx)
unfolding parse_tx_from_json tx_as_json tx_cleared
parse_tx_from_json-tx_as_json unmarshal d msg tx e = rw e (rw (map_each-as_json d tx.vout) refl)

cleared-Fits : (vos : List Vout) → All FitsVout vos → All FitsVout (map cleared vos)
unfolding cleared
cleared-Fits [] h = tt
cleared-Fits (vo ∷ vos) h = (h.0, cleared-Fits vos h.1)

tx_cleared-Fits : (tx : Tx) → FitsTx tx → FitsTx (tx_cleared tx)
unfolding tx_cleared
tx_cleared-Fits tx f = record {
  txid = f.txid;
  named = f.named;
  hex = f.hex;
  vin = f.vin;
  vout = cleared-Fits tx.vout f.vout;
}

kept-cleared : (vos : List Vout) → map kept_vout (map cleared vos) ≡ map kept_vout vos
unfolding cleared kept_vout
kept-cleared [] = refl
kept-cleared (vo ∷ vos) = ap (λ l. kept_vout vo ∷ l) (kept-cleared vos)

kept_tx-tx_cleared : (tx : Tx) (t : ℤ) → kept_tx (tx_cleared tx) t ≡ kept_tx tx t
unfolding kept_tx tx_cleared
kept_tx-tx_cleared tx t = rw (kept-cleared tx.vout) refl

-- If a text is unmarshalled to a transaction whose amounts are decimal strings of its values, with
-- as many decimals as the parser has, its ids and scripts are hexadecimal in lower case and it has
-- an id, the time of the block is an int64, and protobuf reads the message of the transaction back:
-- then parsing the text and packing the transaction returns bytes, and these are unpacked to the
-- height and the transaction with the time of the block, every amount without its sign, no
-- confirmations and no shielded data.
pub unpack_tx-parse_tx_from_json :
    (unmarshal : Bytes → Result Tx) (proto : Proto) (decimal_point : ℕ) (msg : Bytes) (tx : Tx)
    (height : ℕ) (block_time : ℤ)
    → unmarshal msg ≡ ok (tx_as_json decimal_point tx)
    → FitsTx tx
    → IsInt64 block_time
    → ((pt : ProtoTransaction)
        → to_proto (tx_cleared tx) height block_time ≡ ok pt
        → (buf : Bytes) × (proto.marshal pt ≡ ok buf) × (proto.unmarshal buf ≡ ok pt))
    → Returns
        (λ buf. unpack_tx proto buf ≡ ok (kept_tx tx block_time, height))
        (do
          parsed ← parse_tx_from_json unmarshal decimal_point msg
          pack_tx proto parsed height block_time)
unpack_tx-parse_tx_from_json unmarshal proto d msg tx height t e fits it codec =
    rw (parse_tx_from_json-tx_as_json unmarshal d msg tx e) (
      subst
        (λ kept.
          Returns (λ buf. unpack_tx proto buf ≡ ok (kept, height))
            (pack_tx proto (tx_cleared tx) height t))
        (kept_tx-tx_cleared tx t)
        (unpack_tx-pack_tx proto (tx_cleared tx) height t (tx_cleared-Fits tx fits) it codec))
