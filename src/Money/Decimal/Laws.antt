-- ===== src/Money/Decimal/Laws.antt =====
-- Stroops to text and back.
use dukapay.Base.{
  ℕ, suc, ◌/◌, ◌%◌, ◌≡◌, ◌<◌, refl, ap, ◌∙◌, true, false, not, [], ◌∷◌, ◌++◌, length, arith,
}
use dukapay.Base.Int.{ℤ, pos, negsuc}
use dukapay.Base.Text.{Text, split_on, pad_start, is_space, digits_value, show}
use dukapay.Base.Text.Digits.{
  all_digits, none_space, all-append, none_space-digits, trim-none_space, split_on-digits_digits,
  digits_value-append, digits_value-pad_start, all_digits-pad_start, length-pad_start,
  digits_value-show, all_digits-show, length-show, show_nonempty,
}
use dukapay.Money.{RoundingMode, ok}
use dukapay.Money.Decimal.{
  stroop_scale, stroop_decimals, minus, dot, is_number, starts_negative, drop_sign, are_decimal,
  is_decimal_string, to_magnitude, with_sign_of, to_stroops, unsigned_text, from_stroops,
}

pub is_number_lem : (t : Text) → 0 < length t → all_digits t ≡ true → is_number t ≡ true
is_number_lem [] h k = absurd (omega arith)
is_number_lem (c ∷ cs) h k = k

-- A text that begins with a digit has no sign.
pub drop_sign-digits :
    (t u : Text)
    → 0 < length t
    → all_digits t ≡ true
    → (drop_sign (t ++ u) ≡ t ++ u) × (starts_negative (t ++ u) ≡ false)
drop_sign-digits [] u h k = absurd (omega arith)
drop_sign-digits (c ∷ cs) u h k = (ground arith, ground arith)

module _ (n : ℕ) where
  whole_digits : Text
  whole_digits = show (n / stroop_scale)

  fraction_digits : Text
  fraction_digits = pad_start stroop_decimals b'0' (show (n % stroop_scale))

  fraction_digits_all : all_digits fraction_digits ≡ true
  unfolding fraction_digits
  fraction_digits_all =
      all_digits-pad_start stroop_decimals (show (n % stroop_scale))
        (all_digits-show (n % stroop_scale))

  length-fraction_digits : length fraction_digits ≡ 7
  unfolding fraction_digits
  length-fraction_digits =
      length-pad_start 7 (show (n % stroop_scale)) (length-show 6 (n % stroop_scale) (omega arith))

  unsigned_text_split : split_on dot (unsigned_text n) ≡ whole_digits ∷ fraction_digits ∷ []
  unfolding whole_digits fraction_digits
  unsigned_text_split =
      split_on-digits_digits dot (show (n / stroop_scale)) fraction_digits refl
        (all_digits-show (n / stroop_scale)) fraction_digits_all

  unsigned_text_sign :
      (drop_sign (unsigned_text n) ≡ unsigned_text n) × (starts_negative (unsigned_text n) ≡ false)
  unfolding fraction_digits
  unsigned_text_sign =
      drop_sign-digits (show (n / stroop_scale)) (dot ∷ fraction_digits)
        (show_nonempty (n / stroop_scale)) (all_digits-show (n / stroop_scale))

  none_space-unsigned_text : none_space (unsigned_text n) ≡ true
  unfolding fraction_digits
  none_space-unsigned_text =
      all-append (λ c. not (is_space c)) (show (n / stroop_scale)) (dot ∷ fraction_digits)
        (none_space-digits (show (n / stroop_scale)) (all_digits-show (n / stroop_scale)))
        (none_space-digits fraction_digits fraction_digits_all)

  decimal : are_decimal (whole_digits ∷ fraction_digits ∷ []) ≡ true
  unfolding whole_digits
  decimal =
      let first =
        is_number_lem (show (n / stroop_scale)) (show_nonempty (n / stroop_scale))
          (all_digits-show (n / stroop_scale)) in
      let second =
        is_number_lem fraction_digits (omega (arith, length-fraction_digits)) fraction_digits_all in
      rw (first, second) refl

  fraction_value : digits_value 0 (fraction_digits ++ []) ≡ n % stroop_scale
  unfolding fraction_digits digits_value
  fraction_value =
      digits_value-append 0 fraction_digits []
      ∙ digits_value-pad_start 7 (show (n % stroop_scale))
      ∙ digits_value-show (n % stroop_scale)

  whole_value : digits_value 0 whole_digits ≡ n / stroop_scale
  unfolding whole_digits
  whole_value = digits_value-show (n / stroop_scale)

  to_magnitude_lem :
      (mode : RoundingMode) → to_magnitude whole_digits fraction_digits mode ≡ ok (pos n)
  unfolding to_magnitude
  to_magnitude_lem mode =
      rw (length-fraction_digits, whole_value, fraction_value) (ap (λ z. ok (pos z)) (omega arith))

-- The text after the sign, read back with its sign.
read_unsigned :
    (n : ℕ) (t : Text) (mode : RoundingMode)
    → drop_sign t ≡ unsigned_text n
    → none_space t ≡ true
    → to_stroops t mode ≡ with_sign_of t (pos n)
unfolding to_stroops is_decimal_string
read_unsigned n t mode e clean =
    rw (trim-none_space t clean, e, unsigned_text_split n, decimal n, to_magnitude_lem n mode) refl

-- Text that `fromStroops` writes for an amount is read by `toStroops`, in every rounding mode, as that
-- amount.
pub to_stroops-from_stroops :
    (z : ℤ) (mode : RoundingMode) → to_stroops (from_stroops z) mode ≡ ok z
unfolding from_stroops
to_stroops-from_stroops (pos n) mode =
    read_unsigned n (unsigned_text n) mode ((unsigned_text_sign n).0) (none_space-unsigned_text n)
    ∙ rw ((unsigned_text_sign n).1) refl
to_stroops-from_stroops (negsuc n) mode =
    read_unsigned (suc n) (minus ∷ unsigned_text (suc n)) mode refl
      (none_space-unsigned_text (suc n))
