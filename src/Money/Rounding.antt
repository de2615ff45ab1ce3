-- ===== src/Money/Rounding.antt =====
-- What `roundDiv` returns in each mode, by inequalities that do not mention its own tests.
use native.Mathlib.Nat.{div-add-mod', mod-lt}
use dukapay.Base.{
  ℕ, zero, suc, if◌then◌else◌, ◌+◌, ◌*◌, ◌/◌, ◌%◌, ◌≤◌, ◌<◌, ◌≡◌, refl, true, false, arith,
}
use dukapay.Base.Int.{ℤ, pos, negsuc, neg, tmod, magnitude, neg_of, ◌+ℤ◌, ◌-ℤ◌, ◌*ℤ◌, ◌≤ℤ◌, ◌<ℤ◌}
use dukapay.Money.{
  RoundingMode, half_even, half_up, floor, ceil, Result, ok, err, division_by_zero, round_div,
  round_normal, round_parts, rounds_away,
}

-- `q` is `n / d` rounded by the mode, for a positive `d`.
abbrev pub IsRounded : RoundingMode → ℤ → ℤ → ℤ → Type 0
IsRounded floor n d q = (q *ℤ d ≤ℤ n) × (n <ℤ q *ℤ d +ℤ d)
IsRounded ceil n d q = (n ≤ℤ q *ℤ d) × (q *ℤ d <ℤ n +ℤ d)
IsRounded half_up n d q =
    (magnitude (n -ℤ q *ℤ d) * 2 ≤ magnitude d)
    × (magnitude (n -ℤ q *ℤ d) * 2 ≡ magnitude d → magnitude n ≤ magnitude (q *ℤ d))
IsRounded half_even n d q =
    (magnitude (n -ℤ q *ℤ d) * 2 ≤ magnitude d)
    × (magnitude (n -ℤ q *ℤ d) * 2 ≡ magnitude d → tmod q (pos 2) ≡ pos 0)

module _ (mode : RoundingMode) (q r d : ℕ) where
  round_parts_pos :
      round_parts mode (pos q) (pos (suc r)) (pos (suc d))
      ≡ (if rounds_away mode (pos q) (pos (suc r)) (pos (suc d)) false then pos (q + 1) else pos q)
  unfolding round_parts ◌+ℤ◌
  round_parts_pos = ground arith

  round_parts_neg : round_parts mode (neg_of q) (negsuc r) (pos (suc d)) ≡ (
      if rounds_away mode (neg_of q) (pos (suc r)) (pos (suc d)) true then negsuc q else neg_of q)
  unfolding round_parts ◌-ℤ◌
  round_parts_neg = ground arith

floor_pos :
    (q r d a : ℕ)
    → q * suc d + r ≡ a
    → r < suc d
    → IsRounded floor (pos a) (pos (suc d)) (round_parts floor (pos q) (pos r) (pos (suc d)))
unfolding rounds_away ◌*ℤ◌ ◌+ℤ◌ ◌-ℤ◌
floor_pos q zero d a e h = unfold round_parts in ground arith
floor_pos q (suc r) d a e h = rw (round_parts_pos floor q r d) (ground arith)

floor_neg :
    (q r d a : ℕ)
    → q * suc d + r ≡ suc a
    → r < suc d
    → IsRounded floor
        (negsuc a)
        (pos (suc d))
        (round_parts floor (neg_of q) (neg_of r) (pos (suc d)))
unfolding rounds_away ◌*ℤ◌ ◌+ℤ◌ ◌-ℤ◌
floor_neg zero zero d a e h = unfold round_parts in ground arith
floor_neg (suc q) zero d a e h = unfold round_parts in ground arith
floor_neg zero (suc r) d a e h = rw (round_parts_neg floor zero r d) (ground arith)
floor_neg (suc q) (suc r) d a e h = rw (round_parts_neg floor (suc q) r d) (ground arith)

ceil_pos :
    (q r d a : ℕ)
    → q * suc d + r ≡ a
    → r < suc d
    → IsRounded ceil (pos a) (pos (suc d)) (round_parts ceil (pos q) (pos r) (pos (suc d)))
unfolding rounds_away ◌*ℤ◌ ◌+ℤ◌ ◌-ℤ◌
ceil_pos q zero d a e h = unfold round_parts in ground arith
ceil_pos q (suc r) d a e h = rw (round_parts_pos ceil q r d) (ground arith)

ceil_neg :
    (q r d a : ℕ)
    → q * suc d + r ≡ suc a
    → r < suc d
    → IsRounded ceil (negsuc a) (pos (suc d)) (round_parts ceil (neg_of q) (neg_of r) (pos (suc d)))
unfolding rounds_away ◌*ℤ◌ ◌+ℤ◌ ◌-ℤ◌
ceil_neg zero zero d a e h = unfold round_parts in ground arith
ceil_neg (suc q) zero d a e h = unfold round_parts in ground arith
ceil_neg zero (suc r) d a e h = rw (round_parts_neg ceil zero r d) (ground arith)
ceil_neg (suc q) (suc r) d a e h = rw (round_parts_neg ceil (suc q) r d) (ground arith)

half_up_pos :
    (q r d a : ℕ)
    → q * suc d + r ≡ a
    → r < suc d
    → IsRounded half_up (pos a) (pos (suc d)) (round_parts half_up (pos q) (pos r) (pos (suc d)))
unfolding rounds_away ◌*ℤ◌ ◌+ℤ◌ ◌-ℤ◌
half_up_pos q zero d a e h = unfold round_parts in ground arith
half_up_pos q (suc r) d a e h = rw (round_parts_pos half_up q r d) (ground arith)

half_up_neg :
    (q r d a : ℕ)
    → q * suc d + r ≡ suc a
    → r < suc d
    → IsRounded half_up
        (negsuc a)
        (pos (suc d))
        (round_parts half_up (neg_of q) (neg_of r) (pos (suc d)))
unfolding rounds_away ◌*ℤ◌ ◌+ℤ◌ ◌-ℤ◌
half_up_neg zero zero d a e h = unfold round_parts in ground arith
half_up_neg (suc q) zero d a e h = unfold round_parts in ground arith
half_up_neg zero (suc r) d a e h = rw (round_parts_neg half_up zero r d) (ground arith)
half_up_neg (suc q) (suc r) d a e h = rw (round_parts_neg half_up (suc q) r d) (ground arith)

half_even_pos :
    (q r d a : ℕ)
    → q * suc d + r ≡ a
    → r < suc d
    → IsRounded half_even
        (pos a)
        (pos (suc d))
        (round_parts half_even (pos q) (pos r) (pos (suc d)))
unfolding rounds_away ◌*ℤ◌ ◌+ℤ◌ ◌-ℤ◌
half_even_pos q zero d a e h = unfold round_parts in ground arith
half_even_pos q (suc r) d a e h = rw (round_parts_pos half_even q r d) (ground arith)

half_even_neg :
    (q r d a : ℕ)
    → q * suc d + r ≡ suc a
    → r < suc d
    → IsRounded half_even
        (negsuc a)
        (pos (suc d))
        (round_parts half_even (neg_of q) (neg_of r) (pos (suc d)))
unfolding rounds_away ◌*ℤ◌ ◌+ℤ◌ ◌-ℤ◌
half_even_neg zero zero d a e h = unfold round_parts in ground arith
half_even_neg (suc q) zero d a e h = unfold round_parts in ground arith
half_even_neg zero (suc r) d a e h = rw (round_parts_neg half_even zero r d) (ground arith)
half_even_neg (suc q) (suc r) d a e h = rw (round_parts_neg half_even (suc q) r d) (ground arith)

module _ (a d : ℕ) where
  euclid : (a / suc d * suc d + a % suc d ≡ a) × (a % suc d < suc d)
  euclid = (div-add-mod' a (suc d), mod-lt a (omega arith))

module _ (d : ℕ) where
  round_normal-IsRounded :
      (mode : RoundingMode) (n : ℤ)
      → IsRounded mode n (pos (suc d)) (round_normal n (pos (suc d)) mode)
  unfolding round_normal
  round_normal-IsRounded floor (pos a) = let (e, h) = euclid a d in floor_pos _ _ d a e h
  round_normal-IsRounded floor (negsuc a) = let (e, h) = euclid (suc a) d in floor_neg _ _ d a e h
  round_normal-IsRounded ceil (pos a) = let (e, h) = euclid a d in ceil_pos _ _ d a e h
  round_normal-IsRounded ceil (negsuc a) = let (e, h) = euclid (suc a) d in ceil_neg _ _ d a e h
  round_normal-IsRounded half_up (pos a) = let (e, h) = euclid a d in half_up_pos _ _ d a e h
  round_normal-IsRounded half_up (negsuc a) =
      let (e, h) = euclid (suc a) d in half_up_neg _ _ d a e h
  round_normal-IsRounded half_even (pos a) = let (e, h) = euclid a d in half_even_pos _ _ d a e h
  round_normal-IsRounded half_even (negsuc a) =
      let (e, h) = euclid (suc a) d in half_even_neg _ _ d a e h

-- A positive denominator is used as it is.
round_div_pos :
    (n : ℤ) (d : ℕ) (mode : RoundingMode)
    → round_div n (pos (suc d)) mode ≡ ok (round_normal n (pos (suc d)) mode)
unfolding round_div
round_div_pos n d mode = ground arith

-- Rounding a natural quotient down is division on the naturals.
pub round_div_floor : (a d : ℕ) → round_div (pos a) (pos (suc d)) floor ≡ ok (pos (a / suc d))
unfolding round_normal round_parts rounds_away
round_div_floor a d = rw round_div_pos (ground arith)

-- What a division of `n` by any denominator is to give: an error at zero, and elsewhere the
-- rounded quotient of `n / d`, or of `-n / -d` where the denominator is negative.
abbrev pub IsQuotient : RoundingMode → ℤ → ℤ → Result ℤ → Type 0
IsQuotient mode n (pos zero) r = r ≡ err division_by_zero
IsQuotient mode n (pos (suc d)) r = (q : ℤ) × (r ≡ ok q) × IsRounded mode n (pos (suc d)) q
IsQuotient mode n (negsuc d) r = (q : ℤ) × (r ≡ ok q) × IsRounded mode (neg n) (pos (suc d)) q

-- In every mode and at every numerator, `roundDiv` throws exactly at a zero denominator and
-- otherwise returns the quotient that the mode asks for: the greatest integer below (floor), the
-- least above (ceil), the nearest with ties away from zero (half up), and the nearest with ties
-- to the even quotient (half even).
pub round_div-IsQuotient :
    (mode : RoundingMode) (n den : ℤ) → IsQuotient mode n den (round_div n den mode)
unfolding round_div
round_div-IsQuotient mode n (pos zero) = refl
round_div-IsQuotient mode n (pos (suc d)) =
    (round_normal n (pos (suc d)) mode, round_div_pos n d mode, round_normal-IsRounded d mode n)
round_div-IsQuotient mode n (negsuc d) =
    (round_normal (neg n) (pos (suc d)) mode, refl, round_normal-IsRounded d mode (neg n))
