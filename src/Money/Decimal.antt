-- ===== src/Money/Decimal.antt =====
-- Stroops as text: `toStroops`, `fromStroops` and `toWholeStroops` of backend/src/money/decimal.ts.
use dukapay.Base.{
  ℕ, zero, suc, ◌+◌, ◌-◌, ◌*◌, ◌/◌, ◌%◌, ◌≡◌, refl, Bool, true, false, not, ◌&&◌, ◌||◌, Option,
  none, some, List, [], ◌∷◌, ◌++◌, leb, ltb, ◌==◌, if◌then◌else◌, length, all,
}
use dukapay.Base.Int.{ℤ, pos, neg, magnitude, is_negative, ltb_ℤ}
use dukapay.Base.Text.{Text, split_on, trim, pad_start, pad_end, is_digit, digits_value, show}
use dukapay.Base.Text.Digits.{pow10}
use dukapay.Money.{RoundingMode, default_mode, Result, ok, err, invalid_decimal, ◌>>=◌, round_div}
pub mod Laws
pub mod Reads
mod Tests

-- `SCALE` and `SCALE_DECIMALS` of policy.generated.ts.
abbrev pub stroop_scale : ℕ
stroop_scale = 10_000_000

abbrev pub stroop_decimals : ℕ
stroop_decimals = 7

abbrev pub minus : ℕ
minus = b'-'

abbrev pub dot : ℕ
dot = b'.'

-- `\d+`
abbrev pub is_number : Text → Bool
is_number [] = false
is_number (c ∷ cs) = all is_digit (c ∷ cs)

abbrev pub starts_negative : Text → Bool
starts_negative [] = false
starts_negative (c ∷ cs) = c == minus

abbrev pub drop_sign : Text → Text
drop_sign [] = []
drop_sign (c ∷ cs) = if c == minus then cs else c ∷ cs

-- `/^-?\d+(\.\d+)?$/` on what follows the sign: one number, or two with a dot between them.
abbrev pub are_decimal : List Text → Bool
are_decimal (whole ∷ []) = is_number whole
are_decimal (whole ∷ fraction ∷ []) = is_number whole && is_number fraction
are_decimal _ = false

unfoldable pub is_decimal_string : Text → Bool
is_decimal_string t = are_decimal (split_on dot (drop_sign t))

-- `[wholeRaw, fractionRaw = '']`
abbrev pub whole_of : List Text → Text
whole_of [] = []
whole_of (w ∷ ts) = w

abbrev pub fraction_of : List Text → Text
fraction_of (w ∷ f ∷ ts) = f
fraction_of _ = []

-- `magnitude` of `toStroops`.
unfoldable pub to_magnitude : Text → Text → RoundingMode → Result ℤ
to_magnitude whole fraction mode =
    if leb (length fraction) stroop_decimals
    then ok (
        pos (
          digits_value 0 whole * stroop_scale
          + digits_value 0 (pad_end stroop_decimals b'0' fraction)))
    else round_div (pos (digits_value 0 whole * pow10 (length fraction) + digits_value 0 fraction))
        (pos (pow10 (length fraction - stroop_decimals))) mode

abbrev pub with_sign_of : Text → ℤ → Result ℤ
with_sign_of t z = if starts_negative t then ok (neg z) else ok z

abbrev pub trimmed_to_stroops : Text → RoundingMode → Result ℤ
trimmed_to_stroops t mode =
    if is_decimal_string t
    then to_magnitude (whole_of (split_on dot (drop_sign t)))
        (fraction_of (split_on dot (drop_sign t))) mode
      >>= with_sign_of t
    else err invalid_decimal

unfoldable pub to_stroops : Text → RoundingMode → Result ℤ
to_stroops input mode = trimmed_to_stroops (trim input) mode

abbrev pub unsigned_text : ℕ → Text
unsigned_text n =
    show (n / stroop_scale) ++ dot ∷ pad_start stroop_decimals b'0' (show (n % stroop_scale))

unfoldable pub from_stroops : ℤ → Text
from_stroops value =
    if is_negative value
    then minus ∷ unsigned_text (magnitude value)
    else unsigned_text (magnitude value)

-- What `toWholeStroops` takes; a JavaScript number is given by its `toFixed(7)`.
pub data StroopValue : Type 0 where
  missing : StroopValue
  whole : ℤ → StroopValue
  number text : Text → StroopValue

abbrev pub whole_stroops_of : Text → Result ℤ
whole_stroops_of t = to_stroops t default_mode >>= λ z. round_div z (pos stroop_scale) default_mode

unfoldable pub to_whole_stroops : StroopValue → Result ℤ
to_whole_stroops missing = ok (pos 0)
to_whole_stroops (whole z) = ok z
to_whole_stroops (number fixed) = whole_stroops_of fixed
to_whole_stroops (text []) = ok (pos 0)
to_whole_stroops (text (c ∷ cs)) = whole_stroops_of (c ∷ cs)
