-- ===== src/Chain/Amount/RoundTrip.antt =====
-- bchain/baseparser.go, AmountToDecimalString and AmountToBigInt.
use mathlib.Core.Path.{subst}
use skyr_block_explorer.Prelude.{
  ℕ, zero, suc, ◌+◌, ◌-◌, ◌≤◌, ◌<◌, ◌≡◌, refl, sym, ap, ◌∙◌, false, Option, some, [], ◌∷◌, ◌++◌,
  append-nil, append_assoc, length, length-append, take, drop, take-append, replicate,
  length-replicate, All, All-append, arith, ltb, leb, ◌==◌, Bool-cases, inl, inr,
}
use skyr_block_explorer.Prelude.Int.{ℤ, pos, negsuc}
use skyr_block_explorer.Prelude.Bytes.{Bytes}
use skyr_block_explorer.Prelude.Result.{ok}
use skyr_block_explorer.Chain.Amount.{
  zeros, digits_from, to_string, value_from, unsigned, negated, positive_of, negative_of,
  set_string, trim_zeros, limit, without_point, amount_to_big_int, split_sign, padded, with_point,
  pointed, big_int_or_error, amount_to_decimal_string,
}
use skyr_block_explorer.Chain.Amount.Decimal.{
  IsDigit, value_from-zeros, value_from-digits_from, digits_from-IsDigit, length-digits_from,
  take-replicate, replicate-IsDigit, trim_zeros-replicate, IsBeforePoint, IsDigit-IsBeforePoint,
  index_byte-none, index_byte-point, All-take,
}

take_all : (xs : Bytes) → take (length xs) xs ≡ xs
take_all [] = refl
take_all (x ∷ xs) = ap (λ l. x ∷ l) (take_all xs)

take-drop : (n : ℕ) (xs : Bytes) → take n xs ++ drop n xs ≡ xs
take-drop zero xs = refl
take-drop (suc n) [] = refl
take-drop (suc n) (x ∷ xs) = ap (λ l. x ∷ l) (take-drop n xs)

length-drop : (n : ℕ) (xs : Bytes) → length (drop n xs) ≡ length xs - n
length-drop zero xs = omega arith
length-drop (suc n) [] = omega arith
length-drop (suc n) (x ∷ xs) = omega (arith, length-drop n xs)

drop_point_suc : (p t : Bytes) → drop (suc (length p)) (p ++ b'.' ∷ t) ≡ t
drop_point_suc [] t = refl
drop_point_suc (c ∷ p) t = drop_point_suc p t

drop_point : (p t : Bytes) → drop (length p + 1) (p ++ b'.' ∷ t) ≡ t
drop_point p t =
    let e : length p + 1 ≡ suc (length p) = omega arith in
    ap (λ n. drop n (p ++ b'.' ∷ t)) e ∙ drop_point_suc p t

with_point-append : (s p t : Bytes) → s ++ with_point p t ≡ with_point (s ++ p) t
unfolding with_point
with_point-append s p [] = refl
with_point-append s p (c ∷ t) = sym (append_assoc s p (b'.' ∷ c ∷ t))

padded-replicate :
    (d : ℕ) (n : Bytes)
    → d ≤ 40
    → 0 < length n
    → (k : ℕ) × (padded d n ≡ replicate k b'0' ++ n) × (d < length (padded d n))
unfolding padded
padded-replicate d n le some_digit = elim (Bool-cases (leb (length n) d)) [
  | inl y ↦
      let k = d + 1 - length n in
      let e : take k zeros ≡ replicate k b'0' =
        take-replicate k 40 b'0' (omega (arith, le, some_digit)) in
      let short : length n ≤ d = ground (arith, y) in
      (
        k,
        rw (y, e) refl,
        rw (y, e)
            (omega
              (arith, length-append (replicate k b'0') n, length-replicate {A = ℕ} k b'0', short)),
      )
  | inr y ↦ (0, rw y refl, rw y (ground (arith, y)))
]

-- Taking the point out of what it was put into.
without_point-pointed :
    (d k : ℕ) (p t y : Bytes)
    → d ≤ 40
    → All IsBeforePoint p
    → t ++ replicate k b'0' ≡ y
    → length y ≡ d
    → without_point d (with_point p t) ≡ p ++ y
unfolding without_point with_point
without_point-pointed d k p [] y le h e l =
    let same : k ≡ d = omega (arith, ap length e, length-replicate {A = ℕ} k b'0', l) in
    rw (without_point, index_byte-none p h)
      (ap (λ r. p ++ r) (take-replicate d 40 b'0' le ∙ ap (λ j. replicate j b'0') (sym same) ∙ e))
without_point-pointed d k p (c ∷ cs) y0 le h e l =
    let s = p ++ b'.' ∷ c ∷ cs in
    let i = length p in
    let whole = length-append p (b'.' ∷ c ∷ cs) in
    let parts : length (c ∷ cs) + k ≡ d = omega (
      arith,
      ap length e,
      length-append (c ∷ cs) (replicate k b'0'),
      length-replicate {A = ℕ} k b'0',
      l,
    ) in
    rw (without_point, index_byte-point p (c ∷ cs) h)
      (elim (Bool-cases (ltb (length s) (d + i + 1))) [
        | inl y ↦
            let n : d + i + 1 - length s ≡ k = omega (arith, whole, parts) in
            rw
              (
                y,
                take-append p (b'.' ∷ c ∷ cs),
                drop_point p (c ∷ cs),
                n,
                take-replicate k 40 b'0' (omega (arith, parts, le)),
              )
              (ap (λ r. p ++ r) e)
        | inr y ↦
            let long : d + i + 1 ≤ length s = ground (arith, y) in
            let n : d + i + 1 ≡ length s = omega (arith, whole, parts, long) in
            let none_cut : k ≡ 0 = omega (arith, whole, parts, long) in
            let t : c ∷ cs ≡ y0 =
              sym (append-nil (c ∷ cs))
              ∙ ap (λ j. (c ∷ cs) ++ replicate j b'0') (sym none_cut)
              ∙ e in
            rw (y, n, take_all s, take-append p (b'.' ∷ c ∷ cs), drop_point p (c ∷ cs))
              (ap (λ r. p ++ r) t)
      ])

-- The sign and the digits.
split_sign-digits : (xs : Bytes) → All IsDigit xs → split_sign xs ≡ ([], xs)
unfolding split_sign
split_sign-digits [] h = refl
split_sign-digits (c ∷ xs) h = let n : (c == b'-') ≡ false = ground (arith, h.0) in rw n refl

set_string-digits :
    (xs : Bytes) → All IsDigit xs → 0 < length xs → set_string xs ≡ positive_of (value_from 0 xs)
unfolding set_string unsigned
set_string-digits [] h lt = absurd (omega (arith, lt))
set_string-digits (c ∷ xs) h lt =
    let n : (c == b'-') ≡ false = ground (arith, h.0) in
    let m : (c == b'+') ≡ false = ground (arith, h.0) in rw (n, m) refl

set_string-minus :
    (xs : Bytes) → 0 < length xs → set_string (b'-' ∷ xs) ≡ negative_of (value_from 0 xs)
unfolding set_string unsigned
set_string-minus [] lt = absurd (omega (arith, lt))
set_string-minus (c ∷ xs) lt = refl

-- The digits of a string, with its sign before them, and no point.
module _ (d : ℕ) (le : d ≤ 40) (sign digits : Bytes) (hs : All IsBeforePoint sign)
    (hd : All IsDigit digits) (lt : 0 < length digits) where
  without_point-string :
      (k : ℕ) × (without_point d (pointed d sign digits) ≡ sign ++ (replicate k b'0' ++ digits))
  unfolding pointed
  without_point-string =
      let (k, e, long) = padded-replicate d digits le lt in
      let n = padded d digits in
      let i = length n - d in
      let (j, t) = trim_zeros-replicate (drop i n) in
      let all : All IsDigit n =
        subst (All IsDigit) (sym e)
          (All-append IsDigit (replicate k b'0') digits (replicate-IsDigit k) hd) in
      let before : All IsBeforePoint (sign ++ take i n) =
        All-append IsBeforePoint sign (take i n) hs
          (IsDigit-IsBeforePoint (take i n) (All-take IsDigit i n all)) in
      let l : length (drop i n) ≡ d = omega (arith, length-drop i n, long) in
      (
        k,
        ap (without_point d) (with_point-append sign (take i n) (trim_zeros (drop i n)))
            ∙ without_point-pointed d j (sign ++ take i n) (trim_zeros (drop i n)) (drop i n) le
                before t l
            ∙ append_assoc sign (take i n) (drop i n)
            ∙ ap (λ r. sign ++ r) (take-drop i n ∙ e),
      )

limit_bound : (d : ℕ) → limit d ≤ 40
unfolding limit
limit_bound d = elim (Bool-cases (ltb 40 d)) [
  | inl y ↦ rw y (omega arith)
  | inr n ↦ rw n (ground (arith, n))
]

amount_to_big_int-pointed :
    (d : ℕ) (s : Bytes) (v : Option ℤ)
    → set_string (without_point (limit d) s) ≡ v
    → amount_to_big_int d s ≡ big_int_or_error v
unfolding amount_to_big_int
amount_to_big_int-pointed d s v e = ap big_int_or_error e

pub amount_to_big_int-amount_to_decimal_string :
    (d : ℕ) (a : ℤ) → amount_to_big_int d (amount_to_decimal_string (some a) d) ≡ ok a
amount_to_big_int-amount_to_decimal_string d (pos n) =
    let xs = digits_from (suc n) n in
    let all = digits_from-IsDigit (suc n) n (omega arith) in
    let lt = length-digits_from (suc n) n (omega arith) in
    let (k, e) = without_point-string (limit d) (limit_bound d) [] xs tt all lt in
    let plain = All-append IsDigit (replicate k b'0') xs (replicate-IsDigit k) all in
    let long : 0 < length (replicate k b'0' ++ xs) =
      omega (arith, length-append (replicate k b'0') xs, lt) in
    let string : amount_to_decimal_string (some (pos n)) d ≡ pointed (limit d) [] xs =
      unfold amount_to_decimal_string to_string in rw (split_sign-digits xs all) refl in
    let value : set_string (without_point (limit d) (pointed (limit d) [] xs)) ≡ some (pos n) =
      ap set_string e
      ∙ set_string-digits (replicate k b'0' ++ xs) plain long
      ∙ ap positive_of (value_from-zeros k xs ∙ value_from-digits_from (suc n) n (omega arith))
      ∙ (unfold positive_of in refl) in
    ap (amount_to_big_int d) string
    ∙ amount_to_big_int-pointed d (pointed (limit d) [] xs) (some (pos n)) value
    ∙ (unfold big_int_or_error in refl)
amount_to_big_int-amount_to_decimal_string d (negsuc n) =
    let xs = digits_from (suc (suc n)) (suc n) in
    let all = digits_from-IsDigit (suc (suc n)) (suc n) (omega arith) in
    let lt = length-digits_from (suc (suc n)) (suc n) (omega arith) in
    let minus : Bytes = b'-' ∷ [] in
    let (k, e) = without_point-string (limit d) (limit_bound d) minus xs (refl, tt) all lt in
    let long : 0 < length (replicate k b'0' ++ xs) =
      omega (arith, length-append (replicate k b'0') xs, lt) in
    let string : amount_to_decimal_string (some (negsuc n)) d ≡ pointed (limit d) minus xs =
      unfold amount_to_decimal_string to_string split_sign in refl in
    let value : set_string (without_point (limit d) (pointed (limit d) minus xs))
        ≡ some (negsuc n) =
      ap set_string e
      ∙ set_string-minus (replicate k b'0' ++ xs) long
      ∙ ap negative_of
          (value_from-zeros k xs ∙ value_from-digits_from (suc (suc n)) (suc n) (omega arith))
      ∙ (unfold negative_of negated in refl) in
    ap (amount_to_big_int d) string
    ∙ amount_to_big_int-pointed d (pointed (limit d) minus xs) (some (negsuc n)) value
    ∙ (unfold big_int_or_error in refl)
