-- ===== src/Money/Decimal/Tests.antt =====
-- Amounts as text: half a stroop goes to the even neighbour, in two steps where `toWholeStroops` reads it.
use dukapay.Base.{◌≡◌, refl, true, [], ◌∷◌, arith}
use dukapay.Base.Int.{pos, negsuc, ◌+ℤ◌, ◌-ℤ◌, ◌*ℤ◌}
use dukapay.Base.Text.{Text, trim, split_on, digits_value}
use dukapay.Money.{half_even, floor, ok, round_div, round_normal, round_parts, rounds_away}
use dukapay.Money.Decimal.{
  is_decimal_string, to_magnitude, to_stroops, from_stroops, to_whole_stroops, text,
}
use dukapay.Money.Decimal.Reads.{to_stroops_reads}
use dukapay.Money.Decimal.Laws.{to_stroops-from_stroops}

-- "-1.5"
abbrev minus_one_half : Text
minus_one_half = b'-' ∷ b'1' ∷ b'.' ∷ b'5' ∷ []

-- "0.50000001": the nearest whole number is 1.
abbrev above_half : Text
above_half = b'0' ∷ b'.' ∷ b'5' ∷ b'0' ∷ b'0' ∷ b'0' ∷ b'0' ∷ b'0' ∷ b'0' ∷ b'1' ∷ []

reads_negative : to_stroops minus_one_half half_even ≡ ok (negsuc 14_999_999)
unfolding to_stroops is_decimal_string to_magnitude split_on trim digits_value
reads_negative = refl

rounds_twice : to_whole_stroops (text above_half) ≡ ok (pos 0)
unfolding to_whole_stroops to_stroops is_decimal_string to_magnitude round_div round_normal
    round_parts rounds_away ◌+ℤ◌ ◌-ℤ◌ ◌*ℤ◌ split_on trim digits_value
rounds_twice = refl

to_stroops-from_stroops_example : to_stroops (from_stroops (negsuc 41)) floor ≡ ok (negsuc 41)
to_stroops-from_stroops_example = to_stroops-from_stroops (negsuc 41) floor

-- "-1.5"
to_stroops_reads_example : to_stroops minus_one_half floor ≡ ok (negsuc 14_999_999)
unfolding digits_value
to_stroops_reads_example =
    to_stroops_reads (b'1' ∷ []) (b'5' ∷ []) floor (refl, refl) (omega arith) (omega arith) true
