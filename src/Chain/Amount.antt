-- ===== src/Chain/Amount.antt =====
-- bchain/baseparser.go: amounts as decimal strings.
pub mod Decimal
pub mod RoundTrip
mod Tests
use skyr_block_explorer.Prelude.{
  ℕ, zero, suc, ◌+◌, ◌-◌, ◌*◌, ◌/◌, ◌%◌, Bool, true, false, ◌&&◌, Option, none, some, List, [], ◌∷◌,
  ◌++◌, length, take, drop, replicate, ltb, leb, ◌==◌, if◌then◌else◌,
}
use skyr_block_explorer.Prelude.Int.{ℤ, pos, negsuc}
use skyr_block_explorer.Prelude.Bytes.{Bytes}
use skyr_block_explorer.Prelude.Result.{Result, ok, err, failed_to_convert}

-- Forty zeros.
abbrev pub zeros : Bytes
zeros = replicate 40 b'0'

-- `big.Int.String`: the digits of a number, with a fuel above it.
unfoldable pub digits_from : ℕ → ℕ → Bytes
digits_from zero n = []
digits_from (suc fuel) n = elim (ltb n 10) [
  | true ↦ (b'0' + n) ∷ []
  | false ↦ digits_from fuel (n / 10) ++ (b'0' + n % 10) ∷ []
]

unfoldable pub to_string : ℤ → Bytes
to_string (pos n) = digits_from (suc n) n
to_string (negsuc n) = b'-' ∷ digits_from (suc (suc n)) (suc n)

abbrev pub is_digit : ℕ → Bool
is_digit c = leb b'0' c && leb c b'9'

-- `big.Int.SetString` to the base 10: a sign if there is one, and a digit at least.
unfoldable pub value_from : ℕ → Bytes → Option ℕ
value_from acc [] = some acc
value_from acc (c ∷ cs) =
    let rest = value_from (acc * 10 + (c - b'0')) cs in if is_digit c then rest else none

unfoldable pub unsigned : Bytes → Option ℕ
unsigned [] = none
unsigned (c ∷ cs) = value_from 0 (c ∷ cs)

unfoldable pub negated : ℕ → ℤ
negated zero = pos 0
negated (suc n) = negsuc n

unfoldable pub positive_of : Option ℕ → Option ℤ
positive_of none = none
positive_of (some n) = some (pos n)

unfoldable pub negative_of : Option ℕ → Option ℤ
negative_of none = none
negative_of (some n) = some (negated n)

unfoldable pub set_string : Bytes → Option ℤ
set_string [] = none
set_string (c ∷ cs) =
    if c == b'-'
    then negative_of (unsigned cs)
    else if c == b'+'
    then positive_of (unsigned cs)
    else positive_of (unsigned (c ∷ cs))

-- `strings.IndexByte`; `none` is -1.
unfoldable pub index_byte : Bytes → ℕ → Option ℕ
index_byte [] b = none
index_byte (c ∷ cs) b =
    if c == b then some 0 else (elim (index_byte cs b) [ none ↦ none | some i ↦ some (suc i) ])

-- `strings.TrimRight(s, "0")`
unfoldable pub before_trimmed : ℕ → Bytes → Bytes
before_trimmed c [] = if c == b'0' then [] else c ∷ []
before_trimmed c (x ∷ xs) = c ∷ x ∷ xs

unfoldable pub trim_zeros : Bytes → Bytes
trim_zeros [] = []
trim_zeros (c ∷ cs) = before_trimmed c (trim_zeros cs)

-- `if d > len(zeros) { d = len(zeros) }`
unfoldable pub limit : ℕ → ℕ
limit d = if ltb 40 d then 40 else d

-- The digits without the point, as many as `d` behind it.
unfoldable pub without_point : ℕ → Bytes → Bytes
without_point d s = elim (index_byte s b'.') [
  | none ↦ s ++ take d zeros
  | some i ↦
      if ltb (length s) (d + i + 1)
      then take i s ++ (drop (i + 1) s ++ take (d + i + 1 - length s) zeros)
      else take i s ++ drop (i + 1) (take (d + i + 1) s)
]

-- The digits and the sign.
unfoldable pub split_sign : Bytes → Bytes × Bytes
split_sign [] = ([], [])
split_sign (c ∷ cs) = if c == b'-' then (b'-' ∷ [], cs) else ([], c ∷ cs)

unfoldable pub padded : ℕ → Bytes → Bytes
padded d n = if leb (length n) d then take (d + 1 - length n) zeros ++ n else n

unfoldable pub with_point : Bytes → Bytes → Bytes
with_point n [] = n
with_point n (c ∷ cs) = n ++ (b'.' ∷ c ∷ cs)

-- The digits with the point in its place, behind the sign.
unfoldable pub pointed : ℕ → Bytes → Bytes → Bytes
pointed d s digits =
    let n = padded d digits in
    let i = length n - d in s ++ with_point (take i n) (trim_zeros (drop i n))

-- `none` is nil.
unfoldable pub amount_to_decimal_string : Option ℤ → ℕ → Bytes
amount_to_decimal_string none d = []
amount_to_decimal_string (some a) d =
    let (s, digits) = split_sign (to_string a) in pointed (limit d) s digits

unfoldable pub big_int_or_error : Option ℤ → Result ℤ
big_int_or_error none = err failed_to_convert
big_int_or_error (some r) = ok r

unfoldable pub amount_to_big_int : ℕ → Bytes → Result ℤ
amount_to_big_int decimal_point n =
    big_int_or_error (set_string (without_point (limit decimal_point) n))
