-- ===== src/Db/Bigint/Words.antt =====
-- The words and the bytes of a packed amount.
use mathlib.Core.List.{reverse, reverse-cons}
use native.Mathlib.Nat.{pow-suc}
use skyr_block_explorer.Prelude.{
  ℕ, zero, suc, ◌+◌, ◌*◌, ◌/◌, ◌%◌, ◌^◌, ◌≤◌, ◌<◌, ◌≡◌, refl, ap, ◌∙◌, true, List, [], ◌∷◌, ◌++◌,
  length, take, length-append, All, All-append, arith, ◌==◌,
}
use skyr_block_explorer.Prelude.Bytes.{Bytes}
use skyr_block_explorer.Db.Bigint.{bits_loop, first_bytes, put_bytes, put_words, set_bytes}

abbrev pub IsWord : ℕ → Type 0
IsWord w = w < 2 ^ 64

-- The number that words stand for behind `acc`, the most significant first.
unfoldable pub words_value : ℕ → List ℕ → ℕ
words_value acc [] = acc
words_value acc (w ∷ ws) = words_value (acc * 2 ^ 64 + w) ws

words_value-snoc :
    (acc : ℕ) (ws : List ℕ) (w : ℕ)
    → words_value acc (ws ++ w ∷ []) ≡ words_value acc ws * 2 ^ 64 + w
unfolding words_value
words_value-snoc acc [] w = refl
words_value-snoc acc (v ∷ ws) w = words_value-snoc (acc * 2 ^ 64 + v) ws w

pub set_bytes-put_bytes :
    (k w acc : ℕ) (behind : Bytes)
    → w < 256 ^ k
    → set_bytes acc (put_bytes k w behind) ≡ set_bytes (acc * 256 ^ k + w) behind
unfolding set_bytes put_bytes
set_bytes-put_bytes zero w acc behind h = ap (λ n. set_bytes n behind) (omega arith)
set_bytes-put_bytes (suc k) w acc behind h =
    set_bytes-put_bytes k (w / 256) acc (w % 256 ∷ behind) (omega (arith, pow-suc 256 k))
    ∙ ap (λ n. set_bytes n behind) (omega (arith, ap (λ (t : ℕ). acc * t) (pow-suc 256 k)))

pub length-put_bytes :
    (k w : ℕ) (behind : Bytes) → length (put_bytes k w behind) ≡ k + length behind
unfolding put_bytes
length-put_bytes zero w behind = omega arith
length-put_bytes (suc k) w behind = omega (arith, length-put_bytes k (w / 256) (w % 256 ∷ behind))

pub put_bytes-append :
    (k w : ℕ) (behind rest : Bytes) → put_bytes k w behind ++ rest ≡ put_bytes k w (behind ++ rest)
unfolding put_bytes
put_bytes-append zero w behind rest = refl
put_bytes-append (suc k) w behind rest = put_bytes-append k (w / 256) (w % 256 ∷ behind) rest

pub set_bytes-put_words :
    (ws : List ℕ) (acc : ℕ) → All IsWord ws → set_bytes acc (put_words ws) ≡ words_value acc ws
unfolding put_words words_value
set_bytes-put_words [] acc h = unfold set_bytes in refl
set_bytes-put_words (w ∷ ws) acc h =
    ap (set_bytes acc) (put_bytes-append 8 w [] (put_words ws))
    ∙ set_bytes-put_bytes 8 w acc (put_words ws) (omega arith)
    ∙ set_bytes-put_words ws (acc * 2 ^ 64 + w) h.1

pub length-put_words : (ws : List ℕ) → length (put_words ws) ≡ 8 * length ws
unfolding put_words
length-put_words [] = omega arith
length-put_words (w ∷ ws) = omega (
  arith,
  length-append (put_bytes 8 w []) (put_words ws),
  length-put_bytes 8 w [],
  length-put_words ws,
)

bits_loop-suc :
    (f m : ℕ) → bits_loop (suc f) (suc m) ≡ suc m % 2 ^ 64 ∷ bits_loop f (suc m / 2 ^ 64)
unfolding bits_loop
bits_loop-suc f m = ground arith

-- `bits` gives words, and they stand for the number.
pub bits_loop-value : (f n : ℕ) → n ≤ f → words_value 0 (reverse (bits_loop f n)) ≡ n
bits_loop-value zero n h = unfold words_value bits_loop in omega arith
bits_loop-value (suc f) zero h = unfold words_value bits_loop in refl
bits_loop-value (suc f) (suc m) h =
    rw (bits_loop-suc, reverse-cons, words_value-snoc)
      (rw (bits_loop-value f (suc m / 2 ^ 64) (omega arith)) (omega arith))

pub All-reverse : (P : ℕ → Type 0) (xs : List ℕ) → All P xs → All P (reverse xs)
All-reverse P [] h = h
All-reverse P (x ∷ xs) h =
    rw reverse-cons (All-append P (reverse xs) (x ∷ []) (All-reverse P xs h.1) (h.0, tt))

pub bits_loop-IsWord : (f n : ℕ) → All IsWord (bits_loop f n)
bits_loop-IsWord zero n = unfold bits_loop in tt
bits_loop-IsWord (suc f) zero = unfold bits_loop in tt
bits_loop-IsWord (suc f) (suc m) =
    rw bits_loop-suc (omega arith, bits_loop-IsWord f (suc m / 2 ^ 64))

pub length-bits_loop : (k f n : ℕ) → n < (2 ^ 64) ^ k → length (bits_loop f n) ≤ k
length-bits_loop k zero n h = unfold bits_loop in omega arith
length-bits_loop k (suc f) zero h = unfold bits_loop in omega arith
length-bits_loop zero (suc f) (suc m) h = absurd (omega arith)
length-bits_loop (suc k) (suc f) (suc m) h =
    rw bits_loop-suc
      (omega (arith, length-bits_loop k f (suc m / 2 ^ 64) (omega (arith, pow-suc (2 ^ 64) k))))

-- The bytes kept of the top word are enough for it.
first_bytes_step : (k w : ℕ) → w < 256 ^ suc k → (w / 256 ^ k % 256 == 0) ≡ true → w < 256 ^ k
first_bytes_step k w h e = grind (arith, pow-suc 256 k)

pub first_bytes_fit : (k w : ℕ) → w < 256 ^ k → (w < 256 ^ first_bytes k w) × (first_bytes k w ≤ k)
unfolding first_bytes
first_bytes_fit zero w h = (h, omega arith)
first_bytes_fit (suc k) w h = ground (arith, first_bytes_step k w h, first_bytes_fit k w)

take_all : (xs : List ℕ) → take (length xs) xs ≡ xs
take_all [] = refl
take_all (x ∷ xs) = ap (λ r. x ∷ r) (take_all xs)

pub length-take_le : (n : ℕ) (xs : List ℕ) → n ≤ length xs → length (take n xs) ≡ n
length-take_le zero xs h = refl
length-take_le (suc n) [] h = absurd (omega arith)
length-take_le (suc n) (x ∷ xs) h = ap suc (length-take_le n xs (omega arith))

pub All-take : (P : ℕ → Type 0) (n : ℕ) (xs : List ℕ) → All P xs → All P (take n xs)
All-take P zero xs h = tt
All-take P (suc n) [] h = tt
All-take P (suc n) (x ∷ xs) h = (h.0, All-take P n xs h.1)
