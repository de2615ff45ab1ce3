-- ===== src/Base/Text.antt =====
-- Texts as lists of character codes, with the string methods of JavaScript that the code calls.
use Prim.Native.Nat.{ℕ, zero, suc, ◌+◌, ◌-◌, ◌*◌, ◌/◌, ◌%◌, ◌≤◌, ◌<◌, ◌^◌}
use mathlib.Core.Path.{◌≡◌, refl, ap}
use mathlib.Core.Logic.{◌↔◌}
use mathlib.Core.Bool.{Bool, true, false, ◌&&◌, ◌||◌, not}
use mathlib.Core.List.{List, [], ◌∷◌, ◌++◌}
use dukapay.Base.Tests.{leb, ltb, ◌==◌, if◌then◌else◌}
use dukapay.Base.Lists.{length, replicate}
use native.Mathlib.Omega.{arith}
pub mod Digits

abbrev pub Text : Type 0
Text = List ℕ

unfoldable pub same_text : Text → Text → Bool
same_text [] [] = true
same_text (a ∷ as') (b ∷ bs) = a == b && same_text as' bs
same_text _ _ = false

unfoldable pub has_text : Text → List Text → Bool
has_text t [] = false
has_text t (u ∷ us) = same_text u t || has_text t us

-- The white space and line ends that `String.prototype.trim` removes.
abbrev pub is_space : ℕ → Bool
is_space c =
    c == 32
    || ((leb 9 c && leb c 13)
        || (ltb 127 c
            && (c == 0xA0
                || (c == 0x1680
                    || ((leb 0x2000 c && leb c 0x200A)
                        || (c == 0x2028
                            || (c == 0x2029
                                || (c == 0x202F
                                    || (c == 0x205F || (c == 0x3000 || c == 0xFEFF))))))))))

abbrev pub prepend : ℕ → List Text → List Text
prepend c [] = (c ∷ []) ∷ []
prepend c (t ∷ ts) = (c ∷ t) ∷ ts

-- `split` by one character: never empty.
unfoldable pub split_on : ℕ → Text → List Text
split_on sep [] = [] ∷ []
split_on sep (c ∷ cs) = let rest = split_on sep cs in if c == sep then [] ∷ rest else prepend c rest

unfoldable pub trim_start : Text → Text
trim_start [] = []
trim_start (c ∷ cs) = let rest = trim_start cs in if is_space c then rest else c ∷ cs

abbrev pub prepend_trimmed : ℕ → Text → Text
prepend_trimmed c [] = if is_space c then [] else c ∷ []
prepend_trimmed c (d ∷ ds) = c ∷ d ∷ ds

unfoldable pub trim_end : Text → Text
trim_end [] = []
trim_end (c ∷ cs) = prepend_trimmed c (trim_end cs)

unfoldable pub trim : Text → Text
unfolding trim_start trim_end
trim t = trim_end (trim_start t)

-- `padStart` and `padEnd`.
abbrev pub pad_start : ℕ → ℕ → Text → Text
pad_start n c t = replicate (n - length t) c ++ t

abbrev pub pad_end : ℕ → ℕ → Text → Text
pad_end n c t = t ++ replicate (n - length t) c

abbrev pub is_digit : ℕ → Bool
is_digit c = leb b'0' c && leb c b'9'

-- The value of decimal digits that follow digits of value `acc`.
unfoldable pub digits_value : ℕ → Text → ℕ
digits_value acc [] = acc
digits_value acc (c ∷ cs) = digits_value (acc * 10 + (c - b'0')) cs

-- The decimal digits of a number, before `out`; each round divides by ten.
unfoldable pub show_from : ℕ → ℕ → Text → Text
show_from zero n out = out
show_from (suc fuel) n out =
    let digit = b'0' + n % 10 in
    let rest = show_from fuel (n / 10) (digit ∷ out) in if n / 10 == 0 then digit ∷ out else rest

-- `toString` of a natural number.
unfoldable pub show : ℕ → Text
unfolding show_from
show n = show_from (suc n) n []
