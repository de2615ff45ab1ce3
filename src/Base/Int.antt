-- ===== src/Base/Int.antt =====
-- The integers of JavaScript's `bigint` over the native numbers: `/` truncates toward zero and `%`
-- takes the sign of the dividend.
use dukapay.Base.{
  ℕ, zero, suc, ◌+◌, ◌-◌, ◌*◌, ◌/◌, ◌%◌, ◌≤◌, ◌<◌, ◌≡◌, Bool, true, false, not, arith, ltb, leb,
  ◌==◌, if◌then◌else◌,
}

-- `negsuc n` is -(n + 1).
pub data ℤ : Type 0 where
  pos : ℕ → ℤ
  negsuc : ℕ → ℤ

abbrev pub pos_part : ℤ → ℕ
pos_part (pos n) = n
pos_part (negsuc n) = 0

abbrev pub neg_part : ℤ → ℕ
neg_part (pos n) = 0
neg_part (negsuc n) = suc n

-- a - b, as an integer.
abbrev pub sub_ℕ : ℕ → ℕ → ℤ
sub_ℕ a b = if leb b a then pos (a - b) else negsuc (b - a - 1)

infixl 65 ◌+ℤ◌ ◌-ℤ◌
infixl 70 ◌*ℤ◌
infix 50 ◌≤ℤ◌ ◌<ℤ◌
unfoldable pub ◌+ℤ◌ : ℤ → ℤ → ℤ
a +ℤ b = sub_ℕ (pos_part a + pos_part b) (neg_part a + neg_part b)

unfoldable pub ◌-ℤ◌ : ℤ → ℤ → ℤ
a -ℤ b = sub_ℕ (pos_part a + neg_part b) (neg_part a + pos_part b)

-- -n.
abbrev pub neg_of : ℕ → ℤ
neg_of zero = pos 0
neg_of (suc n) = negsuc n

unfoldable pub ◌*ℤ◌ : ℤ → ℤ → ℤ
pos a *ℤ pos b = pos (a * b)
pos a *ℤ negsuc b = neg_of (a * suc b)
negsuc a *ℤ pos b = neg_of (suc a * b)
negsuc a *ℤ negsuc b = pos (suc a * suc b)

abbrev pub neg : ℤ → ℤ
neg (pos n) = neg_of n
neg (negsuc n) = pos (suc n)

abbrev pub magnitude : ℤ → ℕ
magnitude (pos n) = n
magnitude (negsuc n) = suc n

abbrev pub is_negative : ℤ → Bool
is_negative (pos n) = false
is_negative (negsuc n) = true

abbrev pub with_sign : Bool → ℕ → ℤ
with_sign true n = neg_of n
with_sign false n = pos n

-- `a / b` and `a % b` on `bigint`.
abbrev pub tdiv : ℤ → ℤ → ℤ
tdiv a b =
    with_sign (if is_negative a then not (is_negative b) else is_negative b)
      (magnitude a / magnitude b)

abbrev pub tmod : ℤ → ℤ → ℤ
tmod a b = with_sign (is_negative a) (magnitude a % magnitude b)

abbrev pub ◌≤ℤ◌ : ℤ → ℤ → Type 0
a ≤ℤ b = pos_part a + neg_part b ≤ pos_part b + neg_part a

abbrev pub ◌<ℤ◌ : ℤ → ℤ → Type 0
a <ℤ b = pos_part a + neg_part b < pos_part b + neg_part a

abbrev pub ltb_ℤ : ℤ → ℤ → Bool
ltb_ℤ (pos a) (pos b) = ltb a b
ltb_ℤ (pos a) (negsuc b) = false
ltb_ℤ (negsuc a) (pos b) = true
ltb_ℤ (negsuc a) (negsuc b) = ltb b a

abbrev pub leb_ℤ : ℤ → ℤ → Bool
leb_ℤ a b = not (ltb_ℤ b a)

abbrev pub eqb_ℤ : ℤ → ℤ → Bool
eqb_ℤ (pos a) (pos b) = a == b
eqb_ℤ (pos a) (negsuc b) = false
eqb_ℤ (negsuc a) (pos b) = false
eqb_ℤ (negsuc a) (negsuc b) = a == b

-- One lemma for each operation lets `omega` work with the operations shut, at any depth.
pub +ℤ_parts :
    (a b : ℤ)
    → pos_part (a +ℤ b) + neg_part a + neg_part b ≡ neg_part (a +ℤ b) + pos_part a + pos_part b
unfolding ◌+ℤ◌
+ℤ_parts a b = ground arith

pub -ℤ_parts :
    (a b : ℤ)
    → pos_part (a -ℤ b) + neg_part a + pos_part b ≡ neg_part (a -ℤ b) + pos_part a + neg_part b
unfolding ◌-ℤ◌
-ℤ_parts a b = ground arith

pub eq_of_parts : (a b : ℤ) → pos_part a + neg_part b ≡ pos_part b + neg_part a → a ≡ b
eq_of_parts a b h = ground arith

pub ruleset int_laws = (arith, +ℤ_parts, -ℤ_parts, eq_of_parts)
