-- ===== src/Money/Split/Laws.antt =====
-- What `splitProRata` promises its callers.
use dukapay.Base.{
  ℕ, zero, suc, ◌+◌, ◌≡◌, refl, ap, ◌∙◌, ◌⊎◌, true, false, Bool-cases, inl, inr, List, [], ◌∷◌, map,
  arith, length, any,
}
use dukapay.Base.Int.{ℤ, pos, negsuc, ◌+ℤ◌, ltb_ℤ, eqb_ℤ}
use dukapay.Money.{Result, ok, err, drift, type_error, division_by_zero}
use dukapay.Money.Split.{Share, sum_from, parts_of, split_weighted, split_shares, split_pro_rata}
use dukapay.Money.Split.Scan.{UsedAbove, FreeBelow}
use dukapay.Money.Split.Shares.{sum, HasShares, sum_from-HasShares}
use dukapay.Money.Split.Exact.{split_shares_total, fits}

pos_add : (a b : ℕ) → pos a +ℤ pos b ≡ pos (a + b)
unfolding ◌+ℤ◌
pos_add a b = ground arith

sum_from-pos : (a : ℕ) (vs : List ℕ) → sum_from (pos a) (map pos vs) ≡ pos (a + sum vs)
unfolding sum_from
sum_from-pos a [] = ap pos (omega arith)
sum_from-pos a (v ∷ vs) =
    ap (λ s. sum_from s (map pos vs)) (pos_add a v) ∙ sum_from-pos (a + v) vs ∙ ap pos (omega arith)

any-pos : (vs : List ℕ) → any (λ w. ltb_ℤ w (pos 0)) (map pos vs) ≡ false
any-pos [] = refl
any-pos (v ∷ vs) = ground (arith, any-pos vs)

positive_tests : (t d : ℕ) → (ltb_ℤ (pos t) (pos 0) ≡ false) × (eqb_ℤ (pos (suc d)) (pos 0) ≡ false)
positive_tests t d = ground arith

module _ (t d v : ℕ) (vs : List ℕ) (e : sum (v ∷ vs) ≡ suc d) where
  split_weighted_positive :
      (ss : List Share)
      → split_shares (pos t) (pos (suc d)) (map pos (v ∷ vs)) ≡ ok ss
      → split_weighted (pos t) (map pos (v ∷ vs)) ≡ ok (parts_of ss)
  unfolding split_weighted
  split_weighted_positive ss done =
      let total : sum_from (pos 0) (map pos (v ∷ vs)) ≡ pos (suc d) =
        sum_from-pos 0 (v ∷ vs) ∙ ap pos (omega arith) in
      rw total (rw ((positive_tests t d).1) (rw done refl))

  split_positive :
      (ss : List Share)
      → split_shares (pos t) (pos (suc d)) (map pos (v ∷ vs)) ≡ ok ss
      → split_pro_rata (pos t) (map pos (v ∷ vs)) ≡ ok (parts_of ss)
  unfolding split_pro_rata
  split_positive ss done = ground (arith, any-pos (v ∷ vs), split_weighted_positive ss done)

length-HasShares :
    (t d : ℕ) (vs : List ℕ) (ss : List Share)
    → HasShares t d vs ss
    → length (parts_of ss) ≡ length vs
unfolding parts_of
length-HasShares t d [] [] h = refl
length-HasShares t d (v ∷ vs) (s ∷ ss) (_, _, h) = ap suc (length-HasShares t d vs ss h)
length-HasShares t d [] (s ∷ ss) h = absurd h
length-HasShares t d (v ∷ vs) [] h = absurd h

-- A split of a non-negative total over non-negative weights with a positive sum succeeds: there is
-- one part for each weight, and the parts, added up as the code adds them, give exactly the total.
pub sum_from-split_pro_rata :
    (t d : ℕ) (vs : List ℕ)
    → sum vs ≡ suc d
    → (parts : List ℤ) × (split_pro_rata (pos t) (map pos vs) ≡ ok parts)
      × (sum_from (pos 0) parts ≡ pos t)
      × (length parts ≡ length vs)
sum_from-split_pro_rata t d [] e = absurd (omega arith)
sum_from-split_pro_rata t d (v ∷ vs) e =
    let (ss, done, h) = split_shares_total t d (v ∷ vs) e in
    (
      parts_of ss,
      split_positive t d v vs e ss done,
      sum_from-HasShares t d 0 (v ∷ vs) ss h.shares
          ∙ ap pos (omega (arith, h.total, (fits t d (v ∷ vs) e).0)),
      length-HasShares t d (v ∷ vs) ss h.shares,
    )

-- Under the same conditions the result is a largest-remainder allocation: each part is the share
-- `total * weight / sum` rounded down, or one stroop more where the entry is marked as used; a
-- threshold separates the remainders, so no entry without the extra stroop has a larger remainder
-- than an entry with it.
pub split_pro_rata-largest_remainder :
    (t d : ℕ) (vs : List ℕ)
    → sum vs ≡ suc d
    → (ss : List Share) × (split_pro_rata (pos t) (map pos vs) ≡ ok (parts_of ss))
      × HasShares t d vs ss
      × ((cut : ℤ) × UsedAbove cut ss × FreeBelow cut ss)
split_pro_rata-largest_remainder t d [] e = absurd (omega arith)
split_pro_rata-largest_remainder t d (v ∷ vs) e =
    let (ss, done, h) = split_shares_total t d (v ∷ vs) e in
    (ss, split_positive t d v vs e ss done, h.shares, (h.cut, h.above, h.below))

-- An error that would be a defect of the routine itself and not of its input.
abbrev pub IsInternal : Result (List ℤ) → Type 0
IsInternal r = (r ≡ err drift) ⊎ ((r ≡ err type_error) ⊎ (r ≡ err division_by_zero))

naturals : (ws : List ℤ) → any (λ w. ltb_ℤ w (pos 0)) ws ≡ false → (vs : List ℕ) × (ws ≡ map pos vs)
naturals [] h = ([], refl)
naturals (pos w ∷ ws) h =
    let (vs, e) = naturals ws (ground arith) in (w ∷ vs, ap (λ l. pos w ∷ l) e)
naturals (negsuc w ∷ ws) h = absurd (cc)

split_naturals_zero :
    (t v : ℕ) (vs : List ℕ)
    → sum (v ∷ vs) ≡ 0
    → ¬ IsInternal (split_pro_rata (pos t) (map pos (v ∷ vs)))
unfolding split_pro_rata split_weighted
split_naturals_zero t v vs e = ground (arith, any-pos (v ∷ vs), sum_from-pos 0 (v ∷ vs))

split_naturals : (t : ℕ) (vs : List ℕ) → ¬ IsInternal (split_pro_rata (pos t) (map pos vs))
split_naturals t [] = unfold split_pro_rata in ground arith
split_naturals t (v ∷ vs) = go (sum (v ∷ vs)) refl
  where
    go : (s : ℕ) → sum (v ∷ vs) ≡ s → ¬ IsInternal (split_pro_rata (pos t) (map pos (v ∷ vs)))
    go zero e = split_naturals_zero t v vs e
    go (suc d) e =
        let (ss, done, _) = split_shares_total t d (v ∷ vs) e in
        let result = split_positive t d v vs e ss done in ground (arith, result)

negative_weight_lem :
    (total : ℤ) (ws : List ℤ)
    → any (λ w. ltb_ℤ w (pos 0)) ws ≡ true
    → ¬ IsInternal (split_pro_rata total ws)
unfolding split_pro_rata
negative_weight_lem total [] h = cc
negative_weight_lem total (w ∷ ws) h = ground arith

-- Whatever the total and the weights, the drift check never fires, the scan never comes back empty
-- (which would throw a `TypeError`), and no share is divided by a zero sum.
pub split_pro_rata-not_IsInternal :
    (total : ℤ) (ws : List ℤ) → ¬ IsInternal (split_pro_rata total ws)
split_pro_rata-not_IsInternal (negsuc t) ws = unfold split_pro_rata in ground arith
split_pro_rata-not_IsInternal (pos t) ws = elim (Bool-cases (any (λ w. ltb_ℤ w (pos 0)) ws)) [
  | inl some_negative ↦ negative_weight_lem (pos t) ws some_negative
  | inr none_negative ↦ let (vs, e) = naturals ws none_negative in rw e (split_naturals t vs)
]
