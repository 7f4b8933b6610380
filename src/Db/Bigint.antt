-- ===== src/Db/Bigint.antt =====
-- db/rocksdb.go, packBigint and unpackBigint, with the words of `math/big` of a 64-bit platform.
pub mod Words
pub mod RoundTrip
use mathlib.Core.List.{reverse}
use skyr_block_explorer.Prelude.{
  ℕ, zero, suc, ◌+◌, ◌-◌, ◌*◌, ◌/◌, ◌%◌, ◌^◌, Bool, true, false, Option, none, some, List, [], ◌∷◌,
  ◌++◌, length, take, ltb, ◌==◌, if◌then◌else◌,
}
use skyr_block_explorer.Prelude.Int.{ℤ, pos, abs}
use skyr_block_explorer.Prelude.Bytes.{Bytes, slice_to}

abbrev pub word_bytes : ℕ
word_bytes = 8

abbrev pub max_packed_bigint_words : ℕ
max_packed_bigint_words = (256 - word_bytes) / word_bytes

abbrev pub max_packed_bigint_bytes : ℕ
max_packed_bigint_bytes = 249

-- `bi.Bits()` of `math/big`: the 64-bit words of the magnitude, the least significant first. The
-- fuel `n` is enough, since a number falls when a word is taken off.
pub bits_loop : ℕ → ℕ → List ℕ
bits_loop zero n = []
bits_loop (suc f) n = elim (n == 0) [ true ↦ [] | false ↦ n % 2 ^ 64 ∷ bits_loop f (n / 2 ^ 64) ]

unfoldable pub bits : ℕ → List ℕ
unfolding bits_loop
bits n = bits_loop n n

-- `for w0&mask == 0 { fb--; mask >>= 8 }`, where the mask covers byte `fb` of the word. The top word
-- of a number is not 0, so the loop ends before `fb` is 0.
pub first_bytes : ℕ → ℕ → ℕ
first_bytes zero w0 = 0
first_bytes (suc fb) w0 =
    let next = first_bytes fb w0 in if w0 / 256 ^ fb % 256 == 0 then next else suc fb

-- `for i := n; i > 0; i-- { buf[i] = byte(w); w >>= 8 }`: the last `n` bytes of `w` in front of what
-- stands behind them.
pub put_bytes : ℕ → ℕ → Bytes → Bytes
put_bytes zero w behind = behind
put_bytes (suc n) w behind = put_bytes n (w / 256) (w % 256 ∷ behind)

-- The loop over the other words, from the most significant down.
pub put_words : List ℕ → Bytes
put_words [] = []
put_words (d ∷ ds) = put_bytes word_bytes d [] ++ put_words ds

-- `words` has the most significant word first; `lw - 1 - s` of the words behind it are written.
pack_words : List ℕ → Bytes
pack_words [] = 0 ∷ []
pack_words (w0 ∷ words) =
    let lw = suc (length words) in
    let s = if ltb max_packed_bigint_words lw then lw - max_packed_bigint_words else 0 in
    let rest = take (lw - 1 - s) words in
    let fb = first_bytes 8 w0 in
    (fb + word_bytes * length rest) % 256 ∷ (put_bytes fb w0 [] ++ put_words rest)

-- The bytes `buf[:l]` that `packBigint` writes, with the length that it returns.
unfoldable pub pack_bigint : ℤ → Bytes
unfolding pack_words first_bytes put_bytes put_words bits
pack_bigint bi = pack_words (reverse (bits (abs bi)))

-- `r.SetBytes(buf)`: big-endian, and never negative.
pub set_bytes : ℕ → Bytes → ℕ
set_bytes acc [] = acc
set_bytes acc (b ∷ bs) = set_bytes (acc * 256 + b) bs

unfoldable pub unpack_bigint : Bytes → Option (ℤ × ℕ)
unfolding set_bytes
unpack_bigint [] = none
unpack_bigint (b ∷ rest) = elim (slice_to rest b) [
  | none ↦ none
  | some digits ↦ some (pos (set_bytes 0 digits), b + 1)
]
