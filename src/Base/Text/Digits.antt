-- ===== src/Base/Text/Digits.antt =====
-- Decimal digits, and what the string methods do to them.
use Prim.Native.Nat.{ℕ, zero, suc, ◌+◌, ◌-◌, ◌*◌, ◌/◌, ◌%◌, ◌≤◌, ◌<◌}
use mathlib.Core.Path.{◌≡◌, refl, ap, ◌∙◌}
use mathlib.Core.Logic.{inl, inr}
use mathlib.Core.Bool.{Bool, true, false, not}
use mathlib.Core.List.{List, [], ◌∷◌, ◌++◌}
use native.Mathlib.Omega.{arith}
use dukapay.Base.Tests.{◌==◌, Bool-cases, ==_iff}
use dukapay.Base.Lists.{length, replicate, all, length-append}
use dukapay.Base.Text.{
  Text, is_space, is_digit, split_on, trim_start, trim_end, trim, pad_start, digits_value,
  show_from, show,
}

-- Only digits, and only characters that `trim` keeps.
abbrev pub all_digits : Text → Bool
all_digits t = all is_digit t

abbrev pub none_space : Text → Bool
none_space t = all (λ c. not (is_space c)) t

pub all-append {ℓ} :
    {A : Type ℓ} (p : A → Bool) (xs ys : List A)
    → all p xs ≡ true
    → all p ys ≡ true
    → all p (xs ++ ys) ≡ true
all-append p [] ys h k = k
all-append p (x ∷ xs) ys h k = ground (arith, all-append p xs ys)

pub none_space-digits : (t : Text) → all_digits t ≡ true → none_space t ≡ true
none_space-digits [] h = refl
none_space-digits (c ∷ cs) h = ground (arith, none_space-digits cs)

-- Texts with no space are what `trim` leaves.
pub trim-none_space : (t : Text) → none_space t ≡ true → trim t ≡ t
unfolding trim
trim-none_space t h = ap trim_end (starts t h) ∙ ends t h
  where
    starts : (t : Text) → none_space t ≡ true → trim_start t ≡ t
    starts [] h = refl
    starts (c ∷ cs) h = ground arith

    ends : (t : Text) → none_space t ≡ true → trim_end t ≡ t
    ends [] h = refl
    ends (c ∷ []) h = ground arith
    ends (c ∷ d ∷ ds) h = let rest = ends (d ∷ ds) (ground arith) in rw rest refl

-- A text of digits has no separator that is not a digit.
pub split_on-digits :
    (sep : ℕ) (t : Text) → is_digit sep ≡ false → all_digits t ≡ true → split_on sep t ≡ t ∷ []
unfolding split_on
split_on-digits sep [] s h = refl
split_on-digits sep (c ∷ cs) s h =
    let rest = split_on-digits sep cs s (ground arith) in
    elim (Bool-cases (c == sep)) [
      | inl e ↦ absurd (ground (arith, ==_iff c sep))
      | inr e ↦ rw (e, rest) refl
    ]

pub split_on-digits_digits :
    (sep : ℕ) (t u : Text)
    → is_digit sep ≡ false
    → all_digits t ≡ true
    → all_digits u ≡ true
    → split_on sep (t ++ sep ∷ u) ≡ t ∷ u ∷ []
unfolding split_on
split_on-digits_digits sep [] u s h k =
    let rest = split_on-digits sep u s k in
    elim (Bool-cases (sep == sep)) [ inl e ↦ rw (e, rest) refl | inr e ↦ absurd (ground arith) ]
split_on-digits_digits sep (c ∷ cs) u s h k =
    let rest = split_on-digits_digits sep cs u s (ground arith) k in
    elim (Bool-cases (c == sep)) [
      | inl e ↦ absurd (ground (arith, ==_iff c sep))
      | inr e ↦ rw (e, rest) refl
    ]

pub digits_value-append :
    (acc : ℕ) (t u : Text) → digits_value acc (t ++ u) ≡ digits_value (digits_value acc t) u
unfolding digits_value
digits_value-append acc [] u = refl
digits_value-append acc (c ∷ cs) u = digits_value-append (acc * 10 + (c - b'0')) cs u

pub digits_value-zeros : (n : ℕ) → digits_value 0 (replicate n b'0') ≡ 0
unfolding digits_value
digits_value-zeros zero = refl
digits_value-zeros (suc n) = digits_value-zeros n

pub all_digits-zeros : (n : ℕ) → all_digits (replicate n b'0') ≡ true
all_digits-zeros zero = refl
all_digits-zeros (suc n) = all_digits-zeros n

pub all_digits-pad_start :
    (n : ℕ) (t : Text) → all_digits t ≡ true → all_digits (pad_start n b'0' t) ≡ true
all_digits-pad_start n t h =
    all-append is_digit (replicate (n - length t) b'0') t (all_digits-zeros (n - length t)) h

-- Padding on the left keeps the value.
pub digits_value-pad_start :
    (n : ℕ) (t : Text) → digits_value 0 (pad_start n b'0' t) ≡ digits_value 0 t
digits_value-pad_start n t =
    digits_value-append 0 (replicate (n - length t) b'0') t
    ∙ ap (λ z. digits_value z t) (digits_value-zeros (n - length t))

pub length-replicate {ℓ} : {A : Type ℓ} (n : ℕ) (a : A) → length (replicate n a) ≡ n
length-replicate zero a = omega arith
length-replicate (suc n) a = omega (arith, length-replicate n a)

pub length-pad_start : (n : ℕ) (t : Text) → length t ≤ n → length (pad_start n b'0' t) ≡ n
length-pad_start n t h = omega (
  arith,
  length-append (replicate (n - length t) b'0') t,
  length-replicate {A = ℕ} (n - length t) b'0',
)

abbrev pub pow10 : ℕ → ℕ
pow10 zero = 1
pow10 (suc k) = 10 * pow10 k

-- With more fuel than the number, the digits have its value.
digits_value-show_from :
    (fuel n : ℕ) (out : Text)
    → n < fuel
    → digits_value 0 (show_from fuel n out) ≡ digits_value n out
unfolding show_from digits_value
digits_value-show_from zero n out h = elim h [ ]
digits_value-show_from (suc fuel) n out h = elim (Bool-cases (n / 10 == 0)) [
  | inl e ↦ rw e (ap (λ z. digits_value z out) (ground arith))
  | inr e ↦ rw e (
      digits_value-show_from fuel (n / 10) ((b'0' + n % 10) ∷ out) (ground arith)
      ∙ ap (λ z. digits_value z out) (omega arith))
]

all_digits-show_from :
    (fuel n : ℕ) (out : Text) → all_digits out ≡ true → all_digits (show_from fuel n out) ≡ true
unfolding show_from
all_digits-show_from zero n out h = h
all_digits-show_from (suc fuel) n out h = elim (Bool-cases (n / 10 == 0)) [
  | inl e ↦ rw e (ground arith)
  | inr e ↦ rw e (all_digits-show_from fuel (n / 10) ((b'0' + n % 10) ∷ out) (ground arith))
]

length-show_from :
    (k fuel n : ℕ) (out : Text)
    → n < pow10 (suc k)
    → length (show_from fuel n out) ≤ suc k + length out
unfolding show_from
length-show_from k zero n out h = omega arith
length-show_from zero (suc fuel) n out h = elim (Bool-cases (n / 10 == 0)) [
  | inl e ↦ rw e (omega arith)
  | inr e ↦ absurd (ground arith)
]
length-show_from (suc k) (suc fuel) n out h = elim (Bool-cases (n / 10 == 0)) [
  | inl e ↦ rw e (omega arith)
  | inr e ↦
      rw e (omega (arith, length-show_from k fuel (n / 10) ((b'0' + n % 10) ∷ out) (omega arith)))
]

-- `toString` gives the digits of the number, and no more than it has.
pub digits_value-show : (n : ℕ) → digits_value 0 (show n) ≡ n
unfolding show digits_value
digits_value-show n = digits_value-show_from (suc n) n [] (omega arith)

pub all_digits-show : (n : ℕ) → all_digits (show n) ≡ true
unfolding show
all_digits-show n = all_digits-show_from (suc n) n [] refl

pub length-show : (k n : ℕ) → n < pow10 (suc k) → length (show n) ≤ suc k
unfolding show
length-show k n h = omega (arith, length-show_from k (suc n) n [] h)

show_from_nonempty : (fuel n : ℕ) (out : Text) → 0 < length out → 0 < length (show_from fuel n out)
unfolding show_from
show_from_nonempty zero n out h = h
show_from_nonempty (suc fuel) n out h = elim (Bool-cases (n / 10 == 0)) [
  | inl e ↦ rw e (omega arith)
  | inr e ↦ rw e (show_from_nonempty fuel (n / 10) ((b'0' + n % 10) ∷ out) (omega arith))
]

pub show_nonempty : (n : ℕ) → 0 < length (show n)
unfolding show show_from
show_nonempty n = elim (Bool-cases (n / 10 == 0)) [
  | inl e ↦ rw e (omega arith)
  | inr e ↦ rw e (show_from_nonempty n (n / 10) ((b'0' + n % 10) ∷ []) (omega arith))
]
