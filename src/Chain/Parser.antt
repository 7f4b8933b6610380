-- ===== src/Chain/Parser.antt =====
-- bchain/baseparser.go: the parser that the parsers of the coins build on, and packed transactions.
pub mod Hex
pub mod RoundTrip
pub mod Json
pub mod Tests
use skyr_block_explorer.Prelude.{
  ℕ, zero, suc, ◌+◌, ◌-◌, ◌*◌, ◌/◌, ◌%◌, ◌^◌, Bool, true, false, ◌||◌, ◌&&◌, Option, none, some,
  List, [], ◌∷◌, ◌++◌, length, ltb, leb, ◌==◌, if◌then◌else◌,
}
use skyr_block_explorer.Prelude.Int.{ℤ, pos, negsuc, abs}
use skyr_block_explorer.Prelude.Bytes.{Bytes}
use skyr_block_explorer.Prelude.Result.{
  Result, ok, err, panic, txid_missing, not_implemented, not_supported, invalid_hex, ◌>>=◌,
}
use skyr_block_explorer.Chain.{ChainType, bitcoin_type, Vin, Vout, Tx, Erc20Transfer}
use skyr_block_explorer.Chain.Amount.{amount_to_big_int}

-- `hex.DecodeString` and `hex.EncodeToString` of the standard library.
unfoldable pub from_hex_char : ℕ → Result ℕ
from_hex_char c =
    if leb b'0' c && leb c b'9'
    then ok (c - b'0')
    else if leb b'a' c && leb c b'f'
    then ok (c - b'a' + 10)
    else if leb b'A' c && leb c b'F'
    then ok (c - b'A' + 10)
    else err invalid_hex

unfoldable pub decode_string : Bytes → Result Bytes
decode_string [] = ok []
decode_string (a ∷ []) = err invalid_hex
decode_string (a ∷ b ∷ s) = do
  x ← from_hex_char a
  y ← from_hex_char b
  rest ← decode_string s
  ok ((x * 16 + y) ∷ rest)

unfoldable pub to_hex_char : ℕ → ℕ
to_hex_char x = if ltb x 10 then b'0' + x else b'a' + (x - 10)

unfoldable pub encode_to_string : Bytes → Bytes
encode_to_string [] = []
encode_to_string (x ∷ xs) = to_hex_char (x / 16) ∷ to_hex_char (x % 16) ∷ encode_to_string xs

-- `big.Int.Bytes`, with a fuel above the number, and `big.Int.SetBytes`.
unfoldable pub bytes_from : ℕ → ℕ → Bytes
bytes_from zero n = []
bytes_from (suc fuel) n = elim (n == 0) [
  | true ↦ []
  | false ↦ bytes_from fuel (n / 256) ++ (n % 256) ∷ []
]

unfoldable pub set_bytes : ℕ → Bytes → ℕ
set_bytes acc [] = acc
set_bytes acc (b ∷ bs) = set_bytes (acc * 256 + b) bs

-- The conversions of int64 and uint64.
unfoldable pub to_uint64 : ℤ → ℕ
to_uint64 (pos n) = n % 2 ^ 64
to_uint64 (negsuc n) = 2 ^ 64 - 1 - n % 2 ^ 64

unfoldable pub to_int64 : ℕ → ℤ
to_int64 n = if ltb n (2 ^ 63) then pos n else negsuc (2 ^ 64 - 1 - n)

unfoldable pub packed_txid_len : ℕ
packed_txid_len = 32

unfoldable pub pack_txid : Bytes → Result Bytes
pack_txid [] = err txid_missing
pack_txid (c ∷ cs) = decode_string (c ∷ cs)

unfoldable pub unpack_txid : Bytes → Result Bytes
unpack_txid buf = ok (encode_to_string buf)

unfoldable pub pack_block_hash : Bytes → Result Bytes
pack_block_hash hash = decode_string hash

unfoldable pub unpack_block_hash : Bytes → Result Bytes
unpack_block_hash buf = ok (encode_to_string buf)

unfoldable pub get_chain_type : ChainType
get_chain_type = bitcoin_type

unfoldable pub is_addr_desc_indexable : Bytes → Bool
is_addr_desc_indexable addr_desc = true

unfoldable pub get_value_sat_for_unknown_input : Tx → ℕ → ℤ
get_value_sat_for_unknown_input tx input = pos 0

unfoldable pub ethereum_type_get_erc20_from_tx : Tx → Result (List Erc20Transfer)
ethereum_type_get_erc20_from_tx tx = err not_supported

-- The messages of tx.proto; an unset field is the zero value of it.
pub record ProtoVin : Type 0 where
  pub coinbase : Bytes
  pub txid : Bytes
  pub vout : ℕ
  pub script_sig_hex : Bytes
  pub sequence : ℕ
  pub addresses : List Bytes

pub record ProtoVout : Type 0 where
  pub value_sat : Bytes
  pub n : ℕ
  pub script_pub_key_hex : Bytes
  pub addresses : List Bytes

pub record ProtoTransaction : Type 0 where
  pub txid : Bytes
  pub hex : Bytes
  pub blocktime : ℕ
  pub locktime : ℕ
  pub height : ℕ
  pub vin : List ProtoVin
  pub vout : List ProtoVout
  pub version : ℤ

-- `proto.Marshal` and `proto.Unmarshal` of github.com/gogo/protobuf.
pub record Proto : Type 0 where
  pub marshal : ProtoTransaction → Result Bytes
  pub unmarshal : Bytes → Result ProtoTransaction

-- The transaction id of an input; a coinbase has none.
unfoldable pub pack_vin_txid : Bytes → Result Bytes
pack_vin_txid [] = ok []
pack_vin_txid (c ∷ cs) = pack_txid (c ∷ cs)

unfoldable pub pack_vin : Vin → Result ProtoVin
pack_vin vi = do
  hex ← decode_string vi.script_sig_hex
  itxid ← pack_vin_txid vi.txid
  ok (record {
    coinbase = vi.coinbase;
    txid = itxid;
    vout = vi.vout;
    script_sig_hex = hex;
    sequence = vi.sequence;
    addresses = vi.addresses;
  })

unfoldable pub pack_vout : Vout → Result ProtoVout
pack_vout vo = do
  hex ← decode_string vo.script_pub_key_hex
  ok (record {
    value_sat = bytes_from (suc (abs vo.value_sat)) (abs vo.value_sat);
    n = vo.n;
    script_pub_key_hex = hex;
    addresses = vo.addresses;
  })

-- A loop that ends at the first error.
unfoldable pub map_each : {A B : Type 0} → (A → Result B) → List A → Result (List B)
map_each f [] = ok []
map_each f (x ∷ xs) = do y ← f x; ys ← map_each f xs; ok (y ∷ ys)

-- PackTx up to the marshalling.
unfoldable pub to_proto : Tx → ℕ → ℤ → Result ProtoTransaction
to_proto tx height block_time = do
  pti ← map_each pack_vin tx.vin
  pto ← map_each pack_vout tx.vout
  hex ← decode_string tx.hex
  txid ← pack_txid tx.txid
  ok (record {
    txid = txid;
    hex = hex;
    blocktime = to_uint64 block_time;
    locktime = tx.lock_time;
    height = height;
    vin = pti;
    vout = pto;
    version = tx.version;
  })

unfoldable pub unpack_vin : ProtoVin → Result Vin
unpack_vin pti = do
  itxid ← unpack_txid pti.txid
  ok (record {
    coinbase = pti.coinbase;
    txid = itxid;
    vout = pti.vout;
    script_sig_hex = encode_to_string pti.script_sig_hex;
    sequence = pti.sequence;
    addresses = pti.addresses;
  })

unfoldable pub unpack_vout : ProtoVout → Result Vout
unpack_vout pto = ok (record {
  value_sat = pos (set_bytes 0 pto.value_sat);
  json_value = [];
  n = pto.n;
  script_pub_key_hex = encode_to_string pto.script_pub_key_hex;
  addresses = pto.addresses;
})

-- UnpackTx behind the unmarshalling.
unfoldable pub from_proto : ProtoTransaction → Result (Tx × ℕ)
from_proto pt = do
  txid ← unpack_txid pt.txid
  vin ← map_each unpack_vin pt.vin
  vout ← map_each unpack_vout pt.vout
  ok (
    record {
      hex = encode_to_string pt.hex;
      txid = txid;
      version = pt.version;
      lock_time = pt.locktime;
      vin = vin;
      vout = vout;
      confirmations = 0;
      time = to_int64 pt.blocktime;
      blocktime = to_int64 pt.blocktime;
      v_shield_in = [];
      v_shield_out = [];
      shield_val_bal = pos 0;
    },
    pt.height,
  )

module _ (proto : Proto) where
  unfoldable pub pack_tx : Tx → ℕ → ℤ → Result Bytes
  pack_tx tx height block_time = do pt ← to_proto tx height block_time; proto.marshal pt

  unfoldable pub unpack_tx : Bytes → Result (Tx × ℕ)
  unpack_tx buf = do pt ← proto.unmarshal buf; from_proto pt

-- ParseTxFromJson behind the unmarshalling of the text.
unfoldable pub value_vout : ℕ → Vout → Result Vout
value_vout decimal_point vout = do
  value ← amount_to_big_int decimal_point vout.json_value
  ok (record vout { value_sat = value; json_value = [] })

module _ (unmarshal : Bytes → Result Tx) (decimal_point : ℕ) where
  unfoldable pub parse_tx_from_json : Bytes → Result Tx
  parse_tx_from_json msg = do
    tx ← unmarshal msg
    vout ← map_each (value_vout decimal_point) tx.vout
    ok (record tx { vout = vout })
