-- ===== src/Money.antt =====
-- Stroop arithmetic of backend/src/money/decimal.ts.
use dukapay.Base.{ℕ, ◌*◌, ◌%◌, Bool, true, false, not, ltb, leb, ◌==◌, if◌then◌else◌}
use dukapay.Base.Int.{ℤ, pos, negsuc, ◌+ℤ◌, ◌-ℤ◌, ◌*ℤ◌, neg, tdiv, tmod, ltb_ℤ, leb_ℤ, eqb_ℤ}
pub mod Rounding
pub mod Split
pub mod Decimal
mod Tests

pub data RoundingMode : Type 0 where
  half_even half_up floor ceil : RoundingMode

-- The messages of `MoneyError`, and the `TypeError` of `undefined + 1n`.
pub data MoneyError : Type 0 where
  division_by_zero invalid_decimal negative_total nonzero_across_no_weights : MoneyError
  negative_weight nonzero_across_zero_weight drift type_error : MoneyError

pub data Result {ℓ} (A : Type ℓ) : Type ℓ where
  ok : A → Result A
  err : MoneyError → Result A

infixl 5 ◌>>=◌
abbrev pub ◌>>=◌ {ℓ κ} : {A : Type ℓ} {B : Type κ} → Result A → (A → Result B) → Result B
ok a >>= f = f a
err e >>= f = err e

-- `DEFAULT_MODE`, from policy.generated.ts.
abbrev pub default_mode : RoundingMode
default_mode = half_even

-- The `switch` of `roundDiv`: whether a nonzero remainder moves the quotient away from zero.
rounds_away : RoundingMode → ℤ → ℤ → ℤ → Bool → Bool
rounds_away floor quotient abs_remainder d remainder_is_negative = remainder_is_negative
rounds_away ceil quotient abs_remainder d remainder_is_negative = not remainder_is_negative
rounds_away half_up quotient abs_remainder d remainder_is_negative =
    leb_ℤ d (abs_remainder *ℤ pos 2)
rounds_away half_even quotient abs_remainder d remainder_is_negative =
    let doubled = abs_remainder *ℤ pos 2 in
    if ltb_ℤ d doubled
    then true
    else (if ltb_ℤ doubled d then false else not (eqb_ℤ (tmod quotient (pos 2)) (pos 0)))

-- What `roundDiv` does with the truncated quotient and its remainder, for a positive `d`.
round_parts : RoundingMode → ℤ → ℤ → ℤ → ℤ
round_parts mode quotient remainder d =
    let remainder_is_negative = ltb_ℤ remainder (pos 0) in
    let abs_remainder = if remainder_is_negative then neg remainder else remainder in
    let away = rounds_away mode quotient abs_remainder d remainder_is_negative in
    if eqb_ℤ remainder (pos 0)
    then quotient
    else (if not away
        then quotient
        else (if remainder_is_negative then quotient -ℤ pos 1 else quotient +ℤ pos 1))

pub round_normal : ℤ → ℤ → RoundingMode → ℤ
round_normal n d mode = round_parts mode (tdiv n d) (tmod n d) d

pub round_div : ℤ → ℤ → RoundingMode → Result ℤ
round_div num den mode =
    if eqb_ℤ den (pos 0)
    then err division_by_zero
    else (if ltb_ℤ den (pos 0)
        then ok (round_normal (neg num) (neg den) mode)
        else ok (round_normal num den mode))
