-- ===== src/Money/Split.antt =====
-- `splitProRata` of backend/src/money/decimal.ts. The three parallel arrays `parts`, `remainders`
-- and `used` are one list of `Share`.
pub mod Scan
pub mod Shares
pub mod Exact
pub mod Laws
use dukapay.Base.{
  ℕ, zero, suc, ◌≡◌, Bool, true, false, not, ◌&&◌, ◌||◌, Option, none, some, List, [], ◌∷◌, map,
  length, any, ◌==◌, if◌then◌else◌,
}
use dukapay.Base.Int.{ℤ, pos, negsuc, ◌+ℤ◌, ◌-ℤ◌, ◌*ℤ◌, pos_part, ltb_ℤ, leb_ℤ, eqb_ℤ}
use dukapay.Money.{
  floor, Result, ok, err, ◌>>=◌, negative_total, nonzero_across_no_weights, negative_weight,
  nonzero_across_zero_weight, drift, type_error, round_div,
}

pub record Share : Type 0 where
  pub part : ℤ
  pub remainder : ℤ
  pub used : Bool

-- `weights.reduce((acc, w) => acc + w, acc)`.
unfoldable pub sum_from : ℤ → List ℤ → ℤ
sum_from acc [] = acc
sum_from acc (w ∷ ws) = sum_from (acc +ℤ w) ws

-- The loop that floors every share.
unfoldable pub allocate : ℤ → ℤ → List ℤ → Result (List Share)
allocate total weight_sum [] = ok []
allocate total weight_sum (w ∷ ws) = do
  let numerator = total *ℤ w
  part ← round_div numerator weight_sum floor
  rest ← allocate total weight_sum ws
  ok (record { part = part; remainder = numerator -ℤ part *ℤ weight_sum; used = false } ∷ rest)

-- The inner loop from index `i`: the first unused entry with the largest remainder.
unfoldable pub scan : ℕ → ℤ → Option ℕ → List Share → Option ℕ
scan i best_remainder best_idx [] = best_idx
scan i best_remainder best_idx (s ∷ ss) =
    let better = not s.used && ltb_ℤ best_remainder s.remainder in
    scan (suc i) (if better then s.remainder else best_remainder)
      (if better then some i else best_idx) ss

-- `parts[i] += 1n; used[i] = true`.
unfoldable pub award : ℕ → List Share → List Share
award i [] = []
award zero (s ∷ ss) = record s { part = s.part +ℤ pos 1; used = true } ∷ ss
award (suc i) (s ∷ ss) = s ∷ award i ss

-- `while (remaining > 0n)`. With no entry left, `parts[-1]! + 1n` throws.
unfoldable pub hand_out : ℕ → List Share → Result (List Share)
hand_out zero shares = ok shares
hand_out (suc remaining) shares = elim (scan 0 (negsuc 0) none shares) [
  | none ↦ err type_error
  | some best_idx ↦ hand_out remaining (award best_idx shares)
]

unfoldable pub parts_of : List Share → List ℤ
parts_of = map (λ s. s.part)

-- From `const parts` on, for a nonzero sum of weights.
unfoldable pub split_shares : ℤ → ℤ → List ℤ → Result (List Share)
split_shares total weight_sum weights = do
  shares ← allocate total weight_sum weights
  let leftover = total -ℤ sum_from (pos 0) (parts_of shares)
  if ltb_ℤ leftover (pos 0) || leb_ℤ (pos (length weights)) leftover
      then err drift
      else hand_out (pos_part leftover) shares

unfoldable pub split_weighted : ℤ → List ℤ → Result (List ℤ)
split_weighted total weights =
    let weight_sum = sum_from (pos 0) weights in
    if eqb_ℤ weight_sum (pos 0)
    then (if eqb_ℤ total (pos 0)
        then ok (map (λ _. pos 0) weights)
        else err nonzero_across_zero_weight)
    else (split_shares total weight_sum weights >>= λ shares. ok (parts_of shares))

unfoldable pub split_pro_rata : ℤ → List ℤ → Result (List ℤ)
split_pro_rata total weights =
    if ltb_ℤ total (pos 0)
    then err negative_total
    else (if length weights == 0
        then (if eqb_ℤ total (pos 0) then ok [] else err nonzero_across_no_weights)
        else (if any (λ w. ltb_ℤ w (pos 0)) weights
            then err negative_weight
            else split_weighted total weights))
