-- ===== src/Chain/Parser/RoundTrip.antt =====
-- bchain/baseparser.go, PackTx and UnpackTx.
use skyr_block_explorer.Prelude.{
  ℕ, suc, ◌^◌, ◌<◌, ◌≡◌, refl, ap, ◌∙◌, List, [], ◌∷◌, map, length, All, arith,
}
use skyr_block_explorer.Prelude.Int.{ℤ, pos, negsuc, abs}
use skyr_block_explorer.Prelude.Bytes.{Bytes}
use skyr_block_explorer.Prelude.Result.{Result, ok, Returns, Returns-ok}
use skyr_block_explorer.Chain.{Vin, Vout, Tx}
use skyr_block_explorer.Chain.Parser.{
  decode_string, encode_to_string, to_uint64, to_int64, pack_txid, unpack_txid, ProtoTransaction,
  Proto, pack_vin_txid, pack_vin, pack_vout, map_each, to_proto, unpack_vin, unpack_vout,
  from_proto, pack_tx, unpack_tx,
}
use skyr_block_explorer.Chain.Parser.Hex.{
  IsHex, encode_to_string-decode_string, set_bytes-bytes_from, to_int64-to_uint64-pos,
  to_int64-to_uint64-negsuc,
}

abbrev pub FitsVin : Vin → Type 0
FitsVin vi = IsHex vi.script_sig_hex × IsHex vi.txid

abbrev pub FitsVout : Vout → Type 0
FitsVout vo = IsHex vo.script_pub_key_hex

-- A time that is an int64.
abbrev pub IsInt64 : ℤ → Type 0
IsInt64 (pos n) = n < 2 ^ 63
IsInt64 (negsuc n) = n < 2 ^ 63

pub record FitsTx (tx : Tx) : Type 0 where
  pub txid : IsHex tx.txid
  pub named : 0 < length tx.txid
  pub hex : IsHex tx.hex
  pub vin : All FitsVin tx.vin
  pub vout : All FitsVout tx.vout

-- What is left of an output: the amount without its sign.
unfoldable pub kept_vout : Vout → Vout
kept_vout vo = record vo { value_sat = pos (abs vo.value_sat); json_value = [] }

-- What is left of a transaction.
unfoldable pub kept_tx : Tx → ℤ → Tx
kept_tx tx block_time = record tx {
  vout = map kept_vout tx.vout;
  confirmations = 0;
  time = block_time;
  blocktime = block_time;
  v_shield_in = [];
  v_shield_out = [];
  shield_val_bal = pos 0;
}

pack_vin_txid-round :
    (s : Bytes) → IsHex s → Returns (λ b. encode_to_string b ≡ s) (pack_vin_txid s)
unfolding pack_vin_txid pack_txid
pack_vin_txid-round [] h = unfold encode_to_string in refl
pack_vin_txid-round (c ∷ cs) h = encode_to_string-decode_string (c ∷ cs) h

pack_txid-round :
    (s : Bytes) → IsHex s → 0 < length s → Returns (λ b. encode_to_string b ≡ s) (pack_txid s)
unfolding pack_txid
pack_txid-round [] h lt = absurd (omega (arith, lt))
pack_txid-round (c ∷ cs) h lt = encode_to_string-decode_string (c ∷ cs) h

pack_vin-round : (vi : Vin) → FitsVin vi → Returns (λ p. unpack_vin p ≡ ok vi) (pack_vin vi)
unfolding pack_vin unpack_vin unpack_txid
pack_vin-round vi h =
    let (hex, eh, th) =
      Returns-ok _ (decode_string vi.script_sig_hex)
        (encode_to_string-decode_string vi.script_sig_hex h.0) in
    let (txid, et, tt2) = Returns-ok _ (pack_vin_txid vi.txid) (pack_vin_txid-round vi.txid h.1) in
    rw (eh, et) (rw (th, tt2) refl)

pack_vout-round :
    (vo : Vout) → FitsVout vo → Returns (λ p. unpack_vout p ≡ ok (kept_vout vo)) (pack_vout vo)
unfolding pack_vout unpack_vout kept_vout
pack_vout-round vo h =
    let (hex, eh, th) =
      Returns-ok _ (decode_string vo.script_pub_key_hex)
        (encode_to_string-decode_string vo.script_pub_key_hex h) in
    let v = set_bytes-bytes_from (suc (abs vo.value_sat)) (abs vo.value_sat) (omega arith) in
    rw eh (rw (th, v) refl)

-- A loop over what a loop gave.
map_each-round :
    {A B C : Type 0} (P : A → Type 0) (f : A → Result B) (g : B → Result C) (h : A → C)
    → ((a : A) → P a → Returns (λ b. g b ≡ ok (h a)) (f a))
    → (xs : List A) → All P xs
    → Returns (λ ys. map_each g ys ≡ ok (map h xs)) (map_each f xs)
unfolding map_each
map_each-round P f g h k [] a = refl
map_each-round P f g h k (x ∷ xs) a =
    let (y, ey, ty) = Returns-ok _ (f x) (k x a.0) in
    let (ys, es, ts) = Returns-ok _ (map_each f xs) (map_each-round P f g h k xs a.1) in
    rw (ey, es) (rw (ty, ts) refl)

map-same : {A : Type 0} (xs : List A) → map (λ (x : A). x) xs ≡ xs
map-same [] = refl
map-same (x ∷ xs) = ap (λ l. x ∷ l) (map-same xs)

block_time-round : (t : ℤ) → IsInt64 t → to_int64 (to_uint64 t) ≡ t
block_time-round (pos n) h = to_int64-to_uint64-pos n h
block_time-round (negsuc n) h = to_int64-to_uint64-negsuc n h

pub to_proto-round :
    (tx : Tx) (height : ℕ) (block_time : ℤ)
    → FitsTx tx
    → IsInt64 block_time
    → Returns
        (λ pt. from_proto pt ≡ ok (kept_tx tx block_time, height))
        (to_proto tx height block_time)
unfolding to_proto from_proto unpack_txid kept_tx
to_proto-round tx height block_time fits t =
    let (pti, ei, ti) =
      Returns-ok _ (map_each pack_vin tx.vin)
        (map_each-round FitsVin pack_vin unpack_vin (λ vi. vi) pack_vin-round tx.vin fits.vin) in
    let (pto, eo, to) =
      Returns-ok _ (map_each pack_vout tx.vout) (
        map_each-round FitsVout pack_vout unpack_vout kept_vout pack_vout-round tx.vout
          fits.vout) in
    let (hex, eh, th) =
      Returns-ok _ (decode_string tx.hex) (encode_to_string-decode_string tx.hex fits.hex) in
    let (txid, et, tx2) =
      Returns-ok _ (pack_txid tx.txid) (pack_txid-round tx.txid fits.txid fits.named) in
    let vin = ti ∙ ap (λ l. ok l) (map-same tx.vin) in
    rw (ei, eo, eh, et) (rw (vin, to, th, tx2, block_time-round block_time t) refl)

pub unpack_tx-pack_tx :
    (proto : Proto) (tx : Tx) (height : ℕ) (block_time : ℤ)
    → FitsTx tx
    → IsInt64 block_time
    → ((pt : ProtoTransaction)
        → to_proto tx height block_time ≡ ok pt
        → (buf : Bytes) × (proto.marshal pt ≡ ok buf) × (proto.unmarshal buf ≡ ok pt))
    → Returns
        (λ buf. unpack_tx proto buf ≡ ok (kept_tx tx block_time, height))
        (pack_tx proto tx height block_time)
unfolding pack_tx unpack_tx
unpack_tx-pack_tx proto tx height block_time fits t codec =
    let (pt, e, back) =
      Returns-ok _ (to_proto tx height block_time) (to_proto-round tx height block_time fits t) in
    let (buf, em, eu) = codec pt e in rw (e, em) (rw eu back)
