-- ===== src/Chain/Parser/Hex.antt =====
-- bchain/baseparser.go: what is decoded from hexadecimal text and encoded again, and amounts as bytes.
use skyr_block_explorer.Prelude.{
  ℕ, zero, suc, ◌+◌, ◌-◌, ◌*◌, ◌/◌, ◌%◌, ◌^◌, ◌<◌, ◌≡◌, refl, ap, ◌∙◌, Bool, true, false, ◌||◌,
  ◌&&◌, [], ◌∷◌, ◌++◌, arith, ltb, leb, ◌==◌, Bool-cases, inl, inr,
}
use skyr_block_explorer.Prelude.Int.{pos, negsuc}
use skyr_block_explorer.Prelude.Bytes.{Bytes}
use skyr_block_explorer.Prelude.Result.{ok, Returns, Returns-ok}
use skyr_block_explorer.Chain.Parser.{
  from_hex_char, decode_string, to_hex_char, encode_to_string, bytes_from, set_bytes, to_uint64,
  to_int64,
}

-- A digit in lower case.
abbrev pub is_hex : ℕ → Bool
is_hex c = (leb b'0' c && leb c b'9') || (leb b'a' c && leb c b'f')

-- Hexadecimal text of whole bytes.
abbrev pub IsHex : Bytes → Type 0
IsHex [] = Unit
IsHex (a ∷ []) = ⊥
IsHex (a ∷ b ∷ s) = (is_hex a ≡ true) × (is_hex b ≡ true) × IsHex s

from_hex_char-IsHex :
    (c : ℕ) → is_hex c ≡ true → (x : ℕ) × (from_hex_char c ≡ ok x) × (x < 16) × (to_hex_char x ≡ c)
unfolding from_hex_char to_hex_char
from_hex_char-IsHex c h = elim (Bool-cases (leb b'0' c && leb c b'9')) [
  | inl y ↦ (c - b'0', rw y refl, ground (arith, y), ground (arith, y))
  | inr n ↦
      let letter : (leb b'a' c && leb c b'f') ≡ true = ground (arith, n, h) in
      (c - b'a' + 10, rw (n, letter) refl, ground (arith, letter), ground (arith, letter))
]

encode_byte : (x y : ℕ) → x < 16 → y < 16 → ((x * 16 + y) / 16 ≡ x) × ((x * 16 + y) % 16 ≡ y)
encode_byte x y lx ly = (omega (arith, ly), omega (arith, ly))

pub encode_to_string-decode_string :
    (s : Bytes) → IsHex s → Returns (λ bs. encode_to_string bs ≡ s) (decode_string s)
unfolding decode_string encode_to_string
encode_to_string-decode_string [] h = refl
encode_to_string-decode_string (a ∷ []) h = absurd h
encode_to_string-decode_string (a ∷ b ∷ s) h =
    let (x, ex, lx, tx) = from_hex_char-IsHex a h.0 in
    let (y, ey, ly, ty) = from_hex_char-IsHex b h.1 in
    let (bs, es, ts) = Returns-ok _ (decode_string s) (encode_to_string-decode_string s h.2) in
    let (high, low) = encode_byte x y lx ly in rw (ex, ey, es, high, low, tx, ty, ts) refl

set_bytes-append :
    (acc : ℕ) (xs : Bytes) (b : ℕ) → set_bytes acc (xs ++ b ∷ []) ≡ set_bytes acc xs * 256 + b
unfolding set_bytes
set_bytes-append acc [] b = refl
set_bytes-append acc (x ∷ xs) b = set_bytes-append (acc * 256 + x) xs b

bytes_from-more :
    (fuel n : ℕ)
    → (n == 0) ≡ false
    → bytes_from (suc fuel) n ≡ bytes_from fuel (n / 256) ++ (n % 256) ∷ []
unfolding bytes_from
bytes_from-more fuel n y = rw (bytes_from, y) refl

bytes_from-zero : (fuel n : ℕ) → (n == 0) ≡ true → bytes_from (suc fuel) n ≡ []
unfolding bytes_from
bytes_from-zero fuel n y = rw (bytes_from, y) refl

pub set_bytes-bytes_from : (fuel n : ℕ) → n < fuel → set_bytes 0 (bytes_from fuel n) ≡ n
set_bytes-bytes_from zero n lt = absurd (omega (arith, lt))
set_bytes-bytes_from (suc fuel) n lt = elim (Bool-cases (n == 0)) [
  | inl y ↦ ap (set_bytes 0) (bytes_from-zero fuel n y) ∙ (unfold set_bytes in ground (arith, y))
  | inr y ↦
      let less : n / 256 < fuel = ground (arith, y, lt) in
      ap (set_bytes 0) (bytes_from-more fuel n y)
      ∙ set_bytes-append 0 (bytes_from fuel (n / 256)) (n % 256)
      ∙ rw (set_bytes-bytes_from fuel (n / 256) less) (omega arith)
]

pub to_int64-to_uint64-pos : (n : ℕ) → n < 2 ^ 63 → to_int64 (to_uint64 (pos n)) ≡ pos n
unfolding to_int64 to_uint64
to_int64-to_uint64-pos n lt =
    let same : n % 2 ^ 64 ≡ n = omega (arith, lt) in
    let small : ltb n (2 ^ 63) ≡ true = ground (arith, lt) in rw (same, small) refl

pub to_int64-to_uint64-negsuc : (n : ℕ) → n < 2 ^ 63 → to_int64 (to_uint64 (negsuc n)) ≡ negsuc n
unfolding to_int64 to_uint64
to_int64-to_uint64-negsuc n lt =
    let same : n % 2 ^ 64 ≡ n = omega (arith, lt) in
    let large : ltb (2 ^ 64 - 1 - n) (2 ^ 63) ≡ false = ground (arith, lt) in
    let back : 2 ^ 64 - 1 - (2 ^ 64 - 1 - n) ≡ n = omega (arith, lt) in rw (same, large, back) refl
