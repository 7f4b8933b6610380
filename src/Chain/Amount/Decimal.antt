-- ===== src/Chain/Amount/Decimal.antt =====
-- bchain/baseparser.go: the digits of a number, and the number of its digits.
use skyr_block_explorer.Prelude.{
  ℕ, zero, suc, ◌+◌, ◌-◌, ◌*◌, ◌/◌, ◌%◌, ◌≤◌, ◌<◌, ◌≡◌, refl, ap, ◌∙◌, true, false, none, some, [],
  ◌∷◌, ◌++◌, length, length-append, take, drop, replicate, All, All-append, arith, ltb, ◌==◌,
  Bool-cases, inl, inr,
}
use skyr_block_explorer.Prelude.Bytes.{Bytes}
use skyr_block_explorer.Chain.Amount.{
  digits_from, is_digit, value_from, index_byte, before_trimmed, trim_zeros,
}

abbrev pub IsDigit : ℕ → Type 0
IsDigit c = is_digit c ≡ true

pub value_from-append :
    (acc : ℕ) (xs ys : Bytes)
    → value_from acc (xs ++ ys)
      ≡ (elim (value_from acc xs) [ none ↦ none | some v ↦ value_from v ys ])
unfolding value_from
value_from-append acc [] ys = refl
value_from-append acc (c ∷ xs) ys = elim (Bool-cases (is_digit c)) [
  | inl y ↦ rw y (value_from-append (acc * 10 + (c - b'0')) xs ys)
  | inr n ↦ rw n refl
]

pub value_from-zeros :
    (k : ℕ) (xs : Bytes) → value_from 0 (replicate k b'0' ++ xs) ≡ value_from 0 xs
unfolding value_from
value_from-zeros zero xs = refl
value_from-zeros (suc k) xs = value_from-zeros k xs

below_ten_lem : (n : ℕ) → n < 10 → IsDigit (b'0' + n)
below_ten_lem n lt = ground (arith, lt)

value_from-digit : (acc n : ℕ) → n < 10 → value_from acc ((b'0' + n) ∷ []) ≡ some (acc * 10 + n)
unfolding value_from
value_from-digit acc n lt =
    let e : acc * 10 + (48 + n - 48) ≡ acc * 10 + n = omega arith in rw (below_ten_lem n lt, e) refl

digits_from-small : (fuel n : ℕ) → ltb n 10 ≡ true → digits_from (suc fuel) n ≡ (b'0' + n) ∷ []
unfolding digits_from
digits_from-small fuel n y = rw (digits_from, y) refl

digits_from-large :
    (fuel n : ℕ)
    → ltb n 10 ≡ false
    → digits_from (suc fuel) n ≡ digits_from fuel (n / 10) ++ (b'0' + n % 10) ∷ []
unfolding digits_from
digits_from-large fuel n y = rw (digits_from, y) refl

-- The digits are read back.
pub value_from-digits_from : (fuel n : ℕ) → n < fuel → value_from 0 (digits_from fuel n) ≡ some n
value_from-digits_from zero n lt = absurd (omega (arith, lt))
value_from-digits_from (suc fuel) n lt = elim (Bool-cases (ltb n 10)) [
  | inl y ↦
      rw (digits_from-small fuel n y)
        (value_from-digit 0 n (ground (arith, y)) ∙ ap some (omega arith))
  | inr y ↦
      let less : n / 10 < fuel = ground (arith, y, lt) in
      let whole : n / 10 * 10 + n % 10 ≡ n = omega arith in
      rw (digits_from-large fuel n y) (
        value_from-append 0 (digits_from fuel (n / 10)) ((b'0' + n % 10) ∷ [])
        ∙ rw (value_from-digits_from fuel (n / 10) less)
            (value_from-digit (n / 10) (n % 10) (omega arith) ∙ ap some whole))
]

pub digits_from-IsDigit : (fuel n : ℕ) → n < fuel → All IsDigit (digits_from fuel n)
digits_from-IsDigit zero n lt = absurd (omega (arith, lt))
digits_from-IsDigit (suc fuel) n lt = elim (Bool-cases (ltb n 10)) [
  | inl y ↦ rw (digits_from-small fuel n y) (below_ten_lem n (ground (arith, y)), tt)
  | inr y ↦
      let less : n / 10 < fuel = ground (arith, y, lt) in
      rw (digits_from-large fuel n y) (
        All-append IsDigit (digits_from fuel (n / 10)) ((b'0' + n % 10) ∷ [])
          (digits_from-IsDigit fuel (n / 10) less) (below_ten_lem (n % 10) (omega arith), tt))
]

pub length-digits_from : (fuel n : ℕ) → n < fuel → 0 < length (digits_from fuel n)
length-digits_from zero n lt = ground (arith, lt)
length-digits_from (suc fuel) n lt = elim (Bool-cases (ltb n 10)) [
  | inl y ↦ rw (digits_from-small fuel n y) (omega arith)
  | inr y ↦
      rw (digits_from-large fuel n y)
        (omega (arith, length-append (digits_from fuel (n / 10)) ((b'0' + n % 10) ∷ [])))
]

pub take-replicate : (k n c : ℕ) → k ≤ n → take k (replicate n c) ≡ replicate k c
take-replicate zero n c le = refl
take-replicate (suc k) zero c le = ground (arith, le)
take-replicate (suc k) (suc n) c le = ap (λ r. c ∷ r) (take-replicate k n c (omega (arith, le)))

pub replicate-IsDigit : (k : ℕ) → All IsDigit (replicate k b'0')
replicate-IsDigit zero = tt
replicate-IsDigit (suc k) = (refl, replicate-IsDigit k)

-- What is trimmed are zeros.
trimmed_step :
    (c : ℕ) (cs t : Bytes) (k : ℕ)
    → t ++ replicate k b'0' ≡ cs
    → (j : ℕ) × (before_trimmed c t ++ replicate j b'0' ≡ c ∷ cs)
unfolding before_trimmed
trimmed_step c cs [] k h = elim (Bool-cases (c == b'0')) [
  | inl y ↦ let e : c ≡ b'0' = ground (arith, y) in (suc k, rw y (rw e (ap (λ r. b'0' ∷ r) h)))
  | inr n ↦ (k, rw n (ap (λ r. c ∷ r) h))
]
trimmed_step c cs (x ∷ xs) k h = (k, ap (λ r. c ∷ r) h)

pub trim_zeros-replicate : (xs : Bytes) → (k : ℕ) × (trim_zeros xs ++ replicate k b'0' ≡ xs)
unfolding trim_zeros
trim_zeros-replicate [] = (0, refl)
trim_zeros-replicate (c ∷ cs) =
    let (k, h) = trim_zeros-replicate cs in trimmed_step c cs (trim_zeros cs) k h

-- Before a point.
abbrev pub IsBeforePoint : ℕ → Type 0
IsBeforePoint c = (c == b'.') ≡ false

pub IsDigit-IsBeforePoint : (xs : Bytes) → All IsDigit xs → All IsBeforePoint xs
IsDigit-IsBeforePoint [] h = tt
IsDigit-IsBeforePoint (c ∷ xs) h = (ground (arith, h.0), IsDigit-IsBeforePoint xs h.1)

pub index_byte-none : (xs : Bytes) → All IsBeforePoint xs → index_byte xs b'.' ≡ none
unfolding index_byte
index_byte-none [] h = refl
index_byte-none (c ∷ xs) h = rw (h.0, index_byte-none xs h.1) refl

pub index_byte-point :
    (xs ys : Bytes) → All IsBeforePoint xs → index_byte (xs ++ b'.' ∷ ys) b'.' ≡ some (length xs)
unfolding index_byte
index_byte-point [] ys h = refl
index_byte-point (c ∷ xs) ys h = rw (h.0, index_byte-point xs ys h.1) refl

pub All-take : (P : ℕ → Type 0) (n : ℕ) (xs : Bytes) → All P xs → All P (take n xs)
All-take P zero xs h = tt
All-take P (suc n) [] h = tt
All-take P (suc n) (x ∷ xs) h = (h.0, All-take P n xs h.1)

pub All-drop : (P : ℕ → Type 0) (n : ℕ) (xs : Bytes) → All P xs → All P (drop n xs)
All-drop P zero xs h = h
All-drop P (suc n) [] h = tt
All-drop P (suc n) (x ∷ xs) h = All-drop P n xs h.1
