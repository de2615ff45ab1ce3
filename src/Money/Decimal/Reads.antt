-- ===== src/Money/Decimal/Reads.antt =====
-- What `toStroops` of backend/src/money/decimal.ts reads from digits.
use dukapay.Base.{
  ℕ, ◌+◌, ◌-◌, ◌*◌, ◌≡◌, ◌≤◌, ◌<◌, refl, ap, sym, ◌∙◌, Bool, true, false, not, List, [], ◌∷◌, ◌++◌,
  length, length-append, leb, replicate, arith,
}
use dukapay.Base.Int.{ℤ, pos, neg}
use dukapay.Base.Text.{Text, split_on, pad_end, is_space, digits_value}
use dukapay.Base.Text.Digits.{
  all_digits, none_space, all-append, none_space-digits, trim-none_space, split_on-digits,
  split_on-digits_digits, digits_value-append, length-replicate,
}
use dukapay.Money.{RoundingMode, ok}
use dukapay.Money.Decimal.{
  stroop_scale, stroop_decimals, minus, dot, drop_sign, starts_negative, are_decimal, whole_of,
  fraction_of, is_decimal_string, to_magnitude, with_sign_of, to_stroops,
}
use dukapay.Money.Decimal.Laws.{is_number_lem, drop_sign-digits}

-- The digits before and after the point, without a point where none follow it.
abbrev pub written : Text → Text → Text
written whole [] = whole
written whole (c ∷ fraction) = whole ++ dot ∷ c ∷ fraction

abbrev pub with_minus : Bool → Text → Text
with_minus true t = minus ∷ t
with_minus false t = t

abbrev pub signed : Bool → ℕ → ℤ
signed true n = neg (pos n)
signed false n = pos n

-- Seven digits more shift a number by the scale.
shift_seven :
    (n : ℕ) (t : Text) → length t ≡ 7 → digits_value n t ≡ n * stroop_scale + digits_value 0 t
unfolding digits_value
shift_seven n (a ∷ b ∷ c ∷ d ∷ e ∷ f ∷ g ∷ []) h = omega arith
shift_seven n [] h = absurd (omega arith)
shift_seven n (a ∷ []) h = absurd (omega arith)
shift_seven n (a ∷ b ∷ []) h = absurd (omega arith)
shift_seven n (a ∷ b ∷ c ∷ []) h = absurd (omega arith)
shift_seven n (a ∷ b ∷ c ∷ d ∷ []) h = absurd (omega arith)
shift_seven n (a ∷ b ∷ c ∷ d ∷ e ∷ []) h = absurd (omega arith)
shift_seven n (a ∷ b ∷ c ∷ d ∷ e ∷ f ∷ []) h = absurd (omega arith)
shift_seven n (a ∷ b ∷ c ∷ d ∷ e ∷ f ∷ g ∷ k ∷ t) h = absurd (omega arith)

module _ (whole fraction : Text) (mode : RoundingMode) where
  length-pad_end : length fraction ≤ 7 → length (pad_end 7 b'0' fraction) ≡ 7
  length-pad_end h = omega (
    arith,
    length-append fraction (replicate (7 - length fraction) b'0'),
    length-replicate {A = ℕ} (7 - length fraction) b'0',
  )

  to_magnitude_short :
      length fraction ≤ 7
      → to_magnitude whole fraction mode
        ≡ ok (pos (digits_value 0 (whole ++ pad_end 7 b'0' fraction)))
  unfolding to_magnitude
  to_magnitude_short h =
      let short : leb (length fraction) stroop_decimals ≡ true = ground arith in
      rw short (
        ap (λ n. ok (pos n))
          (sym (
            digits_value-append 0 whole (pad_end 7 b'0' fraction)
            ∙ shift_seven (digits_value 0 whole) (pad_end 7 b'0' fraction) (length-pad_end h))))

-- A text without spaces, by what stands around the point.
read_parts :
    (t : Text) (parts : List Text) (mode : RoundingMode) (n : ℕ)
    → none_space t ≡ true
    → split_on dot (drop_sign t) ≡ parts
    → are_decimal parts ≡ true
    → to_magnitude (whole_of parts) (fraction_of parts) mode ≡ ok (pos n)
    → to_stroops t mode ≡ with_sign_of t (pos n)
unfolding to_stroops is_decimal_string
read_parts t parts mode n clean split decimal read =
    rw (trim-none_space t clean, split, decimal, read) refl

module _ (whole fraction : Text) (mode : RoundingMode)
    (digits : (all_digits whole ≡ true) × (all_digits fraction ≡ true))
    (nonempty : 0 < length whole) (short : length fraction ≤ 7) where
  value : ℕ
  value = digits_value 0 (whole ++ pad_end 7 b'0' fraction)

  -- Any text that has these digits after its sign.
  read_written :
      (t : Text)
      → none_space t ≡ true
      → drop_sign t ≡ written whole fraction
      → to_stroops t mode ≡ with_sign_of t (pos value)
  unfolding value
  read_written t clean same = go fraction refl
    where
      go : (f : Text) → fraction ≡ f → to_stroops t mode ≡ with_sign_of t (pos value)
      go [] e =
          read_parts t (whole ∷ []) mode value clean
            (ap (split_on dot) (same ∙ ap (written whole) e)
              ∙ split_on-digits dot whole refl digits.0)
            (is_number_lem whole nonempty digits.0)
            (ap (λ x. to_magnitude whole x mode) (sym e)
              ∙ to_magnitude_short whole fraction mode short)
      go (c ∷ f) e =
          let all : all_digits (c ∷ f) ≡ true = ap all_digits (sym e) ∙ digits.1 in
          read_parts t (whole ∷ (c ∷ f) ∷ []) mode value clean
            (ap (split_on dot) (same ∙ ap (written whole) e)
              ∙ split_on-digits_digits dot whole (c ∷ f) refl digits.0 all)
            (rw (is_number_lem whole nonempty digits.0) all)
            (ap (λ x. to_magnitude whole x mode) (sym e)
              ∙ to_magnitude_short whole fraction mode short)

  none_space-written : none_space (written whole fraction) ≡ true
  none_space-written = go fraction digits.1
    where
      go : (f : Text) → all_digits f ≡ true → none_space (written whole f) ≡ true
      go [] h = none_space-digits whole digits.0
      go (c ∷ f) h =
          all-append (λ x. not (is_space x)) whole (dot ∷ c ∷ f) (none_space-digits whole digits.0)
            (none_space-digits (c ∷ f) h)

  no_sign :
      (drop_sign (written whole fraction) ≡ written whole fraction)
      × (starts_negative (written whole fraction) ≡ false)
  no_sign = go fraction
    where
      go :
          (f : Text)
          → (drop_sign (written whole f) ≡ written whole f)
            × (starts_negative (written whole f) ≡ false)
      go [] = start whole nonempty digits.0
        where
          start :
              (w : Text)
              → 0 < length w
              → all_digits w ≡ true
              → (drop_sign w ≡ w) × (starts_negative w ≡ false)
          start [] h k = absurd (omega arith)
          start (c ∷ cs) h k = (ground arith, ground arith)
      go (c ∷ f) = drop_sign-digits whole (dot ∷ c ∷ f) nonempty digits.0

  -- `toStroops` shifts the point by seven places and rounds nothing: from digits, a point and at most seven
  -- digits, or from digits alone, with a minus sign or without, it reads in every rounding mode the number
  -- that the digits make with zeros up to the seventh place behind the point.
  pub to_stroops_reads :
      (negative : Bool)
      → to_stroops (with_minus negative (written whole fraction)) mode
        ≡ ok (signed negative (digits_value 0 (whole ++ pad_end 7 b'0' fraction)))
  unfolding value
  to_stroops_reads true = read_written (minus ∷ written whole fraction) none_space-written refl
  to_stroops_reads false =
      read_written (written whole fraction) none_space-written no_sign.0 ∙ rw no_sign.1 refl
