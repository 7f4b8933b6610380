-- ===== src/Chain/Amount/Tests.antt =====
-- Amounts and their decimal strings.
use skyr_block_explorer.Prelude.{◌≡◌, refl, some, [], ◌∷◌}
use skyr_block_explorer.Prelude.Int.{pos, negsuc}
use skyr_block_explorer.Prelude.Result.{ok, err, failed_to_convert}
use skyr_block_explorer.Chain.Amount.{
  amount_to_big_int, amount_to_decimal_string, big_int_or_error, set_string, unsigned, value_from,
  positive_of, without_point, index_byte, limit, split_sign, to_string, digits_from, pointed,
  padded, with_point, trim_zeros, before_trimmed,
}

-- "1.2", of 120 with two decimals
decimal_string_test : amount_to_decimal_string (some (pos 120)) 2 ≡ b'1' ∷ b'.' ∷ b'2' ∷ []
unfolding amount_to_decimal_string limit split_sign to_string digits_from pointed padded with_point
    trim_zeros before_trimmed
decimal_string_test = refl

-- "-0.05"
negative_string_test :
    amount_to_decimal_string (some (negsuc 4)) 2 ≡ b'-' ∷ b'0' ∷ b'.' ∷ b'0' ∷ b'5' ∷ []
unfolding amount_to_decimal_string limit split_sign to_string digits_from pointed padded with_point
    trim_zeros before_trimmed
negative_string_test = refl

-- "1.239" has a digit too much, which is cut off.
cut_test : amount_to_big_int 2 (b'1' ∷ b'.' ∷ b'2' ∷ b'3' ∷ b'9' ∷ []) ≡ ok (pos 123)
unfolding amount_to_big_int limit big_int_or_error set_string unsigned value_from positive_of
    without_point index_byte
cut_test = refl

-- "1e8"
exponent_test : amount_to_big_int 2 (b'1' ∷ b'e' ∷ b'8' ∷ []) ≡ err failed_to_convert
unfolding amount_to_big_int limit big_int_or_error set_string unsigned value_from positive_of
    without_point index_byte
exponent_test = refl
