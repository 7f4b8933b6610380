-- ===== src/Db/Bigint/RoundTrip.antt =====
-- db/rocksdb.go, packBigint and unpackBigint: on reading amounts back, and on their size.
use mathlib.Core.List.{reverse, reverse-cons}
use native.Mathlib.Nat.{pow-suc}
use native.Mathlib.Numerals.{add-one}
use mathlib.Core.Path.{subst}
use skyr_block_explorer.Prelude.{
  ℕ, zero, suc, ◌+◌, ◌-◌, ◌*◌, ◌/◌, ◌^◌, ◌≤◌, ◌<◌, ◌≡◌, refl, sym, ap, ◌∙◌, some, List, [], ◌∷◌,
  ◌++◌, length, take, drop, length-append, All, arith, ltb, if◌then◌else◌,
}
use skyr_block_explorer.Prelude.Int.{ℤ, pos, abs}
use skyr_block_explorer.Prelude.Bytes.{Bytes, slice_to-append}
use skyr_block_explorer.Db.Bigint.{
  bits, first_bytes, put_bytes, put_words, pack_words, pack_bigint, set_bytes, unpack_bigint,
  max_packed_bigint_bytes,
}
use skyr_block_explorer.Db.Bigint.Words.{
  IsWord, words_value, set_bytes-put_bytes, length-put_bytes, put_bytes-append, set_bytes-put_words,
  length-put_words, bits_loop-value, All-reverse, bits_loop-IsWord, length-bits_loop,
  first_bytes_fit, length-take_le, All-take,
}

-- A length byte and that many digits are read as the digits' number.
unpack_bigint-digits :
    (digits rest : Bytes)
    → unpack_bigint (length digits ∷ (digits ++ rest))
      ≡ some (pos (set_bytes 0 digits), length digits + 1)
unfolding unpack_bigint
unpack_bigint-digits digits rest = rw (slice_to-append digits rest, unpack_bigint)

-- How many of the words are kept.
kept : ℕ → ℕ
kept n = if ltb 31 n then 31 else n

body : ℕ → List ℕ → Bytes
body w ws = put_bytes (first_bytes 8 w) w [] ++ put_words (take (kept (suc (length ws)) - 1) ws)

length-body :
    (w : ℕ) (ws : List ℕ) → length (body w ws) ≡ first_bytes 8 w + 8 * (kept (suc (length ws)) - 1)
unfolding body kept
length-body w ws = ground (
  arith,
  length-append (put_bytes (first_bytes 8 w) w [])
      (put_words (take (kept (suc (length ws)) - 1) ws)),
  length-put_bytes (first_bytes 8 w) w [],
  length-put_words (take (kept (suc (length ws)) - 1) ws),
  length-take_le (kept (suc (length ws)) - 1) ws,
)

kept_words : (lw : ℕ) → lw - 1 - (if ltb 31 lw then lw - 31 else 0) ≡ kept lw - 1
unfolding kept
kept_words lw = ground arith

kept_le : (lw : ℕ) → (kept lw ≤ 31) × (kept lw ≤ lw)
unfolding kept
kept_le lw = ground arith

length-body_lt : (w : ℕ) (ws : List ℕ) → IsWord w → length (body w ws) ≤ 248
length-body_lt w ws h =
    omega (arith, length-body w ws, kept_le (suc (length ws)), (first_bytes_fit 8 w h).1)

pack_words-body :
    (w : ℕ) (ws : List ℕ) → IsWord w → pack_words (w ∷ ws) ≡ length (body w ws) ∷ body w ws
unfolding pack_words body
pack_words-body w ws h = rw (kept_words (suc (length ws))) (
    rw (length-take_le (kept (suc (length ws)) - 1) ws (omega (arith, kept_le (suc (length ws)))))
      (ap (λ n. n ∷ body w ws) (omega (arith, length-body w ws, length-body_lt w ws h))))

-- The words that are kept, read back.
set_bytes-body :
    (w : ℕ) (ws : List ℕ)
    → All IsWord (w ∷ ws)
    → set_bytes 0 (body w ws) ≡ words_value 0 (w ∷ take (kept (suc (length ws)) - 1) ws)
unfolding body words_value
set_bytes-body w ws h =
    let rest = take (kept (suc (length ws)) - 1) ws in
    ap (set_bytes 0) (put_bytes-append (first_bytes 8 w) w [] (put_words rest))
    ∙ set_bytes-put_bytes (first_bytes 8 w) w 0 (put_words rest) (first_bytes_fit 8 w h.0).0
    ∙ set_bytes-put_words rest _ (All-take IsWord _ ws h.1)
    ∙ ap (λ n. words_value n rest) (omega arith)

index_in_range : (r c w h : ℕ) → r < h → c < w → r * w + c < h * w
index_in_range r c w h p q = grind arith

-- What stands behind the kept words only adds less than one to the last of them.
words_value-split :
    (low : List ℕ) (acc : ℕ)
    → All IsWord low
    → (r : ℕ) × (r < (2 ^ 64) ^ length low)
      × (words_value acc low ≡ acc * (2 ^ 64) ^ length low + r)
unfolding words_value
words_value-split [] acc h = (0, omega arith, omega arith)
words_value-split (w ∷ ws) acc h =
    let (r, lt, e) = words_value-split ws (acc * 2 ^ 64 + w) h.1 in
    let p = (2 ^ 64) ^ length ws in
    (
      w * p + r,
      omega (arith, pow-suc (2 ^ 64) (length ws), index_in_range w r p (2 ^ 64) h.0 lt),
      omega (arith, e, ap (λ (t : ℕ). acc * t) (pow-suc (2 ^ 64) (length ws))),
    )

words_value-append :
    (xs ys : List ℕ) (acc : ℕ) → words_value acc (xs ++ ys) ≡ words_value (words_value acc xs) ys
unfolding words_value
words_value-append [] ys acc = refl
words_value-append (x ∷ xs) ys acc = words_value-append xs ys (acc * 2 ^ 64 + x)

div_kept : (a b r p : ℕ) → r < p → b ≡ a * p + r → a ≡ b / p
div_kept a b r p h e = grind arith

-- What is read back is the number that the kept words stand for, whatever follows it.
unpack_bigint-pack_words :
    (w : ℕ) (ws : List ℕ) (rest : Bytes)
    → All IsWord (w ∷ ws)
    → unpack_bigint (pack_words (w ∷ ws) ++ rest)
      ≡ some (
        pos (words_value 0 (w ∷ take (kept (suc (length ws)) - 1) ws)),
        length (pack_words (w ∷ ws)),
      )
unpack_bigint-pack_words w ws rest h = rw (pack_words-body w ws h.0) (
    unpack_bigint-digits (body w ws) rest
    ∙ ap (λ n. some (pos n, length (body w ws) + 1)) (set_bytes-body w ws h)
    ∙ ap (λ n. some (pos (words_value 0 (w ∷ take (kept (suc (length ws)) - 1) ws)), n))
        (add-one (length (body w ws))))

take-drop : (n : ℕ) (xs : List ℕ) → take n xs ++ drop n xs ≡ xs
take-drop zero xs = refl
take-drop (suc n) [] = refl
take-drop (suc n) (x ∷ xs) = ap (λ r. x ∷ r) (take-drop n xs)

length-drop : (n : ℕ) (xs : List ℕ) → length (drop n xs) ≡ length xs - n
length-drop zero xs = omega arith
length-drop (suc n) [] = omega arith
length-drop (suc n) (x ∷ xs) = omega (arith, length-drop n xs)

All-drop : (P : ℕ → Type 0) (n : ℕ) (xs : List ℕ) → All P xs → All P (drop n xs)
All-drop P zero xs h = h
All-drop P (suc n) [] h = tt
All-drop P (suc n) (x ∷ xs) h = All-drop P n xs h.1

length-dropped :
    (ws : List ℕ) → length (drop (kept (suc (length ws)) - 1) ws) ≡ suc (length ws) - 31
unfolding kept
length-dropped ws = ground (arith, length-drop (kept (suc (length ws)) - 1) ws)

kept_value :
    (w : ℕ) (ws : List ℕ)
    → All IsWord ws
    → words_value 0 (w ∷ take (kept (suc (length ws)) - 1) ws)
      ≡ words_value 0 (w ∷ ws) / (2 ^ 64) ^ (suc (length ws) - 31)
unfolding words_value
kept_value w ws h =
    let k = kept (suc (length ws)) - 1 in
    let top = words_value (0 * 2 ^ 64 + w) (take k ws) in
    let (r, lt, e) = words_value-split (drop k ws) top (All-drop IsWord k ws h) in
    let whole : words_value (0 * 2 ^ 64 + w) ws ≡ words_value top (drop k ws) =
      ap (words_value (0 * 2 ^ 64 + w)) (sym (take-drop k ws))
      ∙ words_value-append (take k ws) (drop k ws) (0 * 2 ^ 64 + w) in
    div_kept top (words_value (0 * 2 ^ 64 + w) ws) r ((2 ^ 64) ^ (suc (length ws) - 31))
      (subst (λ n. r < (2 ^ 64) ^ n) (length-dropped ws) lt)
      (whole ∙ e ∙ ap (λ n. top * (2 ^ 64) ^ n + r) (length-dropped ws))

pack_words-value :
    (l : List ℕ) (rest : Bytes)
    → All IsWord l
    → unpack_bigint (pack_words l ++ rest)
      ≡ some (pos (words_value 0 l / (2 ^ 64) ^ (length l - 31)), length (pack_words l))
pack_words-value [] rest h = unfold pack_words words_value set_bytes in unpack_bigint-digits [] rest
pack_words-value (w ∷ ws) rest h =
    unpack_bigint-pack_words w ws rest h
    ∙ ap (λ n. some (pos n, length (pack_words (w ∷ ws)))) (kept_value w ws h.1)

length-reverse : (xs : List ℕ) → length (reverse xs) ≡ length xs
length-reverse [] = refl
length-reverse (x ∷ xs) =
    rw reverse-cons (omega (arith, length-append (reverse xs) (x ∷ []), length-reverse xs))

-- Any packed amount is read back, whatever follows it, as its magnitude without the words of 64
-- bits behind the top 31, which are dropped without a shift, and the reader takes the bytes that
-- were written.
pub unpack_bigint-pack_bigint :
    (z : ℤ) (rest : Bytes)
    → unpack_bigint (pack_bigint z ++ rest)
      ≡ some (pos (abs z / (2 ^ 64) ^ (length (bits (abs z)) - 31)), length (pack_bigint z))
unfolding pack_bigint bits
unpack_bigint-pack_bigint z rest =
    let ws = bits (abs z) in
    pack_words-value (reverse ws) rest (All-reverse IsWord ws (bits_loop-IsWord (abs z) (abs z)))
    ∙ ap (λ n. some (pos n, length (pack_bigint z)))
        (rw (bits_loop-value (abs z) (abs z) (omega arith), length-reverse) refl)

-- Amounts below 2 ^ 1984 lose nothing but the sign.
pub bigint_fits :
    (z : ℤ) (rest : Bytes)
    → abs z < 2 ^ 1984
    → unpack_bigint (pack_bigint z ++ rest) ≡ some (pos (abs z), length (pack_bigint z))
bigint_fits z rest h =
    let short : length (bits (abs z)) ≤ 31 =
      unfold bits in length-bits_loop 31 (abs z) (abs z) (omega arith) in
    unpack_bigint-pack_bigint z rest
    ∙ ap (λ n. some (pos n, length (pack_bigint z)))
        (rw (let e : length (bits (abs z)) - 31 ≡ 0 = omega arith in e) (omega arith))

length-pack_words :
    (l : List ℕ)
    → All IsWord l
    → (1 ≤ length (pack_words l)) × (length (pack_words l) ≤ max_packed_bigint_bytes)
length-pack_words [] h = unfold pack_words in omega arith
length-pack_words (w ∷ ws) h =
    rw (pack_words-body w ws h.0) (omega arith, omega (arith, length-body_lt w ws h.0))

-- A packed amount has at least one byte and at most 249, whatever the amount, so it fits the
-- buffers.
pub length-pack_bigint :
    (z : ℤ) → (1 ≤ length (pack_bigint z)) × (length (pack_bigint z) ≤ max_packed_bigint_bytes)
unfolding pack_bigint bits
length-pack_bigint z =
    length-pack_words (reverse (bits (abs z)))
      (All-reverse IsWord (bits (abs z)) (bits_loop-IsWord (abs z) (abs z)))
