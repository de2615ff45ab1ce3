-- ===== src/Money/Split/Exact.antt =====
-- `splitProRata` on non-negative input: from the floor loop to the parts.
use native.Mathlib.Nat.{div-add-mod', mod-lt}
use native.Mathlib.Decide.{dec_lt}
use dukapay.Base.{
  ℕ, suc, ◌+◌, ◌-◌, ◌*◌, ◌/◌, ◌%◌, ◌<◌, ◌≤◌, ◌≡◌, refl, ap, ◌∙◌, false, ◌||◌, List, [], ◌∷◌, map,
  arith, length, length-map,
}
use dukapay.Base.Int.{pos, ◌-ℤ◌, ◌*ℤ◌, ltb_ℤ, leb_ℤ}
use dukapay.Money.{ok}
use dukapay.Money.Rounding.{round_div_floor}
use dukapay.Money.Split.{Share, sum_from, allocate, parts_of, split_shares}
use dukapay.Money.Split.Scan.{FreeBelow, UsedAbove}
use dukapay.Money.Split.Shares.{
  taken, sum, HasShares, floors, remainders, IsHandedOut, sum_from-HasShares, hand_out_total,
}

mul_mono : (a b c : ℕ) → a ≤ b → a * c ≤ b * c
mul_mono a b c h = grind arith

fits_arith : (f r t n d : ℕ) → f * suc d + r ≡ t * suc d → r ≤ n * d → 0 < n → (f ≤ t) × (t - f < n)
fits_arith f r t n d e b p = elim (dec_lt t f) [
  | yes h ↦ absurd (omega (arith, mul_mono (suc t) f (suc d) h))
  | no h ↦ elim (dec_lt (t - f) n) [
    | yes k ↦ (omega arith, k)
    | no k ↦ absurd (omega (arith, mul_mono (n + f) t (suc d) (omega arith)))
  ]
]

module _ (t d : ℕ) where
  initial : List ℕ → List Share
  initial [] = []
  initial (v ∷ vs) =
      record { part = pos (t * v / suc d); remainder = pos (t * v % suc d); used = false }
      ∷ initial vs

  initial-HasShares : (vs : List ℕ) → HasShares t d vs (initial vs)
  unfolding initial
  initial-HasShares [] = tt
  initial-HasShares (v ∷ vs) = (ap pos (omega arith), refl, initial-HasShares vs)

  taken-initial : (vs : List ℕ) → taken (initial vs) ≡ 0
  unfolding initial
  taken-initial [] = refl
  taken-initial (v ∷ vs) = omega (arith, taken-initial vs)

  initial-FreeBelow : (vs : List ℕ) → FreeBelow (pos (suc d)) (initial vs)
  unfolding initial
  initial-FreeBelow [] = tt
  initial-FreeBelow (v ∷ vs) =
      (λ _. omega (arith, mod-lt (t * v) {m = suc d} (omega arith)), initial-FreeBelow vs)

  initial-UsedAbove : (vs : List ℕ) → UsedAbove (pos (suc d)) (initial vs)
  unfolding initial
  initial-UsedAbove [] = tt
  initial-UsedAbove (v ∷ vs) = (λ e. cc, initial-UsedAbove vs)

  mul_pos : (a b : ℕ) → pos a *ℤ pos b ≡ pos (a * b)
  unfolding ◌*ℤ◌
  mul_pos a b = refl

  remainder_step : (v : ℕ) → pos (t * v) -ℤ pos (t * v / suc d * suc d) ≡ pos (t * v % suc d)
  unfolding ◌-ℤ◌
  remainder_step v = ground (arith, div-add-mod' (t * v) (suc d))

  allocate_lem : (vs : List ℕ) → allocate (pos t) (pos (suc d)) (map pos vs) ≡ ok (initial vs)
  unfolding allocate initial
  allocate_lem [] = refl
  allocate_lem (v ∷ vs) = simp (mul_pos, round_div_floor, allocate_lem vs, remainder_step)

  -- Each remainder is below the sum of the weights, so the leftover is below their number.
  floors_lem :
      (vs : List ℕ)
      → (floors t d vs * suc d + remainders t d vs ≡ t * sum vs)
        × (remainders t d vs ≤ length vs * d)
  floors_lem [] = (omega arith, omega arith)
  floors_lem (v ∷ vs) =
      let (e, l) = floors_lem vs in
      let e' = div-add-mod' (t * v) (suc d) in
      let l' = mod-lt (t * v) {m = suc d} (omega arith) in (omega arith, omega arith)

  length_pos : (vs : List ℕ) → sum vs ≡ suc d → 0 < length vs
  length_pos [] e = omega arith
  length_pos (v ∷ vs) e = omega arith

  pub fits : (vs : List ℕ) → sum vs ≡ suc d → (floors t d vs ≤ t) × (t - floors t d vs < length vs)
  fits vs e =
      let (split, bound) = floors_lem vs in
      fits_arith (floors t d vs) (remainders t d vs) t (length vs) d
        (split ∙ ap (λ (s : ℕ). t * s) e) bound (length_pos vs e)

  leftover_lem :
      (vs : List ℕ)
      → sum vs ≡ suc d
      → pos t -ℤ sum_from (pos 0) (parts_of (initial vs)) ≡ pos (t - floors t d vs)
  unfolding ◌-ℤ◌
  leftover_lem vs e =
      rw (sum_from-HasShares t d 0 vs (initial vs) (initial-HasShares vs))
        (ground (arith, taken-initial vs, (fits vs e).0))

  drift_test : (n k : ℕ) → k < n → (ltb_ℤ (pos k) (pos 0) || leb_ℤ (pos n) (pos k)) ≡ false
  drift_test n k h = ground arith

  pub split_shares_total :
      (vs : List ℕ)
      → sum vs ≡ suc d
      → (ss : List Share) × (split_shares (pos t) (pos (suc d)) (map pos vs) ≡ ok ss)
        × IsHandedOut t d vs (t - floors t d vs) ss
  unfolding split_shares
  split_shares_total vs e =
      let start : IsHandedOut t d vs 0 (initial vs) = record {
        shares = initial-HasShares vs;
        total = taken-initial vs;
        cut = pos (suc d);
        above = initial-UsedAbove vs;
        below = initial-FreeBelow vs;
      } in
      let (ss, done, h) =
        hand_out_total t d (t - floors t d vs) 0 (t - floors t d vs) vs (initial vs) start
          (omega arith) (omega (arith, (fits vs e).1)) in
      (
        ss,
        rw allocate_lem (
            rw (leftover_lem vs e) (
              rw (length-map vs pos)
                (rw (drift_test (length vs) (t - floors t d vs) (fits vs e).1) done))),
        h,
      )
