-- ===== src/Money/Tests.antt =====
-- Runs of the stroop arithmetic, and its theorems at concrete amounts.
use dukapay.Base.{ℕ, ◌≡◌, refl, List, [], ◌∷◌, map, length}
use dukapay.Base.Int.{ℤ, pos, negsuc, ◌+ℤ◌, ◌-ℤ◌, ◌*ℤ◌}
use dukapay.Money.{
  half_even, half_up, floor, ceil, ok, round_div, round_normal, round_parts, rounds_away,
}
use dukapay.Money.Rounding.{IsQuotient, round_div-IsQuotient}
use dukapay.Money.Split.{
  Share, sum_from, parts_of, allocate, scan, award, hand_out, split_shares, split_weighted,
  split_pro_rata,
}
use dukapay.Money.Split.Scan.{UsedAbove, FreeBelow}
use dukapay.Money.Split.Shares.{HasShares}
use dukapay.Money.Split.Laws.{
  sum_from-split_pro_rata, split_pro_rata-largest_remainder, IsInternal,
  split_pro_rata-not_IsInternal,
}

-- 2.5, -2.5 and 3.5 go to the even neighbour; -7 / 2 rounds down to -4.
round_div_runs :
    (round_div (pos 5) (pos 2) half_even ≡ ok (pos 2))
    × (round_div (negsuc 4) (pos 2) half_even ≡ ok (negsuc 1))
    × (round_div (pos 7) (negsuc 1) half_even ≡ ok (negsuc 3))
    × (round_div (negsuc 6) (pos 2) floor ≡ ok (negsuc 3))
    × (round_div (negsuc 6) (pos 2) ceil ≡ ok (negsuc 2))
    × (round_div (pos 5) (pos 2) half_up ≡ ok (pos 3))
unfolding round_div round_normal round_parts rounds_away ◌+ℤ◌ ◌-ℤ◌ ◌*ℤ◌
round_div_runs = (refl, refl, refl, refl, refl, refl)

abbrev weights : List ℕ
weights = 1 ∷ 1 ∷ 1 ∷ 2 ∷ []

-- Two of the three equal weights get the leftover stroops, the lowest index first.
split_run : split_pro_rata (pos 7) (map pos weights) ≡ ok (pos 2 ∷ pos 1 ∷ pos 1 ∷ pos 3 ∷ [])
unfolding split_pro_rata split_weighted split_shares allocate scan award hand_out sum_from parts_of
    round_div round_normal round_parts rounds_away ◌+ℤ◌ ◌-ℤ◌ ◌*ℤ◌
split_run = refl

round_div-IsQuotient_example :
    IsQuotient half_even (negsuc 4) (negsuc 1) (round_div (negsuc 4) (negsuc 1) half_even)
round_div-IsQuotient_example = round_div-IsQuotient half_even (negsuc 4) (negsuc 1)

sum_from-split_pro_rata_example :
    (parts : List ℤ) × (split_pro_rata (pos 7) (map pos weights) ≡ ok parts)
    × (sum_from (pos 0) parts ≡ pos 7)
    × (length parts ≡ 4)
sum_from-split_pro_rata_example = sum_from-split_pro_rata 7 4 weights refl

split_pro_rata-largest_remainder_example :
    (ss : List Share) × (split_pro_rata (pos 7) (map pos weights) ≡ ok (parts_of ss))
    × HasShares 7 4 weights ss
    × ((cut : ℤ) × UsedAbove cut ss × FreeBelow cut ss)
split_pro_rata-largest_remainder_example = split_pro_rata-largest_remainder 7 4 weights refl

split_pro_rata-not_IsInternal_example :
    ¬ IsInternal (split_pro_rata (pos 7) (pos 3 ∷ negsuc 0 ∷ []))
split_pro_rata-not_IsInternal_example =
    split_pro_rata-not_IsInternal (pos 7) (pos 3 ∷ negsuc 0 ∷ [])
