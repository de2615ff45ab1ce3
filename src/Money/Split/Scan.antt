-- ===== src/Money/Split/Scan.antt =====
-- The scan of `splitProRata`, and the entry to which it awards a stroop.
use dukapay.Base.{
  ℕ, zero, suc, ◌+◌, ◌<◌, ◌≡◌, refl, ap, ◌∙◌, inl, inr, true, false, Option, none, some, List, [],
  ◌∷◌, arith, Bool-cases, if◌then◌else◌,
}
use dukapay.Base.Int.{ℤ, pos, negsuc, ◌≤ℤ◌, ltb_ℤ}
use dukapay.Money.Split.{Share, scan, award}

-- The entry at index `k` is unused and has remainder `r`.
abbrev pub IsFree : List Share → ℕ → ℤ → Type 0
IsFree [] k r = ⊥
IsFree (s ∷ ss) zero r = (s.used ≡ false) × (s.remainder ≡ r)
IsFree (s ∷ ss) (suc k) r = IsFree ss k r

-- No unused entry has a remainder above `r`.
abbrev pub FreeBelow : ℤ → List Share → Type 0
FreeBelow r [] = Unit
FreeBelow r (s ∷ ss) = (s.used ≡ false → s.remainder ≤ℤ r) × FreeBelow r ss

-- No used entry has a remainder below `r`.
abbrev pub UsedAbove : ℤ → List Share → Type 0
UsedAbove r [] = Unit
UsedAbove r (s ∷ ss) = (s.used ≡ true → r ≤ℤ s.remainder) × UsedAbove r ss

abbrev pub free : List Share → ℕ
free [] = 0
free (s ∷ ss) = (if s.used then 0 else 1) + free ss

ltb_ℤ_false : (a b : ℤ) → ltb_ℤ a b ≡ false → b ≤ℤ a
ltb_ℤ_false a b h = ground arith

ltb_ℤ_true : (a b : ℤ) → ltb_ℤ a b ≡ true → a ≤ℤ b
ltb_ℤ_true a b h = ground arith

FreeBelow-mono : (r t : ℤ) (ss : List Share) → r ≤ℤ t → FreeBelow r ss → FreeBelow t ss
FreeBelow-mono r t [] h b = tt
FreeBelow-mono r t (s ∷ ss) h (b, bs) =
    (λ e. let c = b e in omega arith, FreeBelow-mono r t ss h bs)

pub UsedAbove-mono : (r t : ℤ) (ss : List Share) → t ≤ℤ r → UsedAbove r ss → UsedAbove t ss
UsedAbove-mono r t [] h b = tt
UsedAbove-mono r t (s ∷ ss) h (b, bs) =
    (λ e. let c = b e in omega arith, UsedAbove-mono r t ss h bs)

-- The remainder of an unused entry is bounded like all of them.
pub IsFree-le : (t r : ℤ) (k : ℕ) (ss : List Share) → IsFree ss k t → FreeBelow r ss → t ≤ℤ r
IsFree-le t r k [] f b = absurd f
IsFree-le t r zero (s ∷ ss) (new, e) (b, _) = let c = b new in rw (← e) c
IsFree-le t r (suc k) (s ∷ ss) f (_, b) = IsFree-le t r k ss f b

-- What a scan of `ss` from index `i` ends with, when it starts with entry `b` of remainder `r`.
data Picks (i : ℕ) (r : ℤ) (ss : List Share) (b : Option ℕ) (picked : Option ℕ) : Type 0 where
  kept : picked ≡ b → FreeBelow r ss → Picks i r ss b picked
  found :
      (k : ℕ) (t : ℤ)
      → picked ≡ some (i + k)
      → r ≤ℤ t
      → IsFree ss k t
      → FreeBelow t ss
      → Picks i r ss b picked

Picks-skip :
    {i : ℕ} {r : ℤ} (s : Share) {ss : List Share} {b p : Option ℕ}
    → ((t : ℤ) → r ≤ℤ t → s.used ≡ false → s.remainder ≤ℤ t)
    → Picks (suc i) r ss b p
    → Picks i r (s ∷ ss) b p
Picks-skip {i} {r} s below (kept e bs) = kept e (below r (omega arith), bs)
Picks-skip {i} s below (found k t e h f bs) =
    found (suc k) t (rw e (ap some (omega arith))) h f (below t h, bs)

Picks-take :
    {i : ℕ} {r : ℤ} (s : Share) {ss : List Share} {b p : Option ℕ}
    → s.used ≡ false
    → r ≤ℤ s.remainder
    → Picks (suc i) s.remainder ss (some i) p
    → Picks i r (s ∷ ss) b p
Picks-take {i} s new up (kept e bs) =
    found 0 s.remainder (rw e (ap some (omega arith))) up (new, refl) (λ _. omega arith, bs)
Picks-take {i} s new up (found k t e h f bs) =
    found (suc k) t (rw e (ap some (omega arith))) (omega arith) f (λ _. h, bs)

scan-Picks : (i : ℕ) (r : ℤ) (b : Option ℕ) (ss : List Share) → Picks i r ss b (scan i r b ss)
unfolding scan
scan-Picks i r b [] = kept refl tt
scan-Picks i r b (s ∷ ss) = elim (Bool-cases s.used) [
  | inl old ↦ simp old (Picks-skip s (λ t h e. cc) (scan-Picks (suc i) r b ss))
  | inr new ↦ elim (Bool-cases (ltb_ℤ r s.remainder)) [
    | inl more ↦
        simp (new, more)
          (Picks-take s new (ltb_ℤ_true r s.remainder more)
            (scan-Picks (suc i) s.remainder (some i) ss))
    | inr less ↦
        simp (new, less)
          (Picks-skip s (λ t h e. let c = ltb_ℤ_false r s.remainder less in omega arith)
            (scan-Picks (suc i) r b ss))
  ]
]

-- The scan of the whole array picks an unused entry with the largest remainder, if one is left.
pub data Best (ss : List Share) (picked : Option ℕ) : Type 0 where
  best : (k : ℕ) (t : ℤ) → picked ≡ some k → IsFree ss k t → FreeBelow t ss → Best ss picked

abbrev pub AllNonneg : List Share → Type 0
AllNonneg [] = Unit
AllNonneg (s ∷ ss) = (pos 0 ≤ℤ s.remainder) × AllNonneg ss

not_FreeBelow : (ss : List Share) → AllNonneg ss → 0 < free ss → ¬ FreeBelow (negsuc 0) ss
not_FreeBelow [] n h b = omega arith
not_FreeBelow (s ∷ ss) (n, ns) h (b, bs) = elim (Bool-cases s.used) [
  | inl old ↦ not_FreeBelow ss ns (ground arith) bs
  | inr new ↦ let c = b new in absurd (omega arith)
]

pub scan-Best : (ss : List Share) → AllNonneg ss → 0 < free ss → Best ss (scan 0 (negsuc 0) none ss)
scan-Best ss n h = go (scan-Picks 0 (negsuc 0) none ss)
  where
    go : {p : Option ℕ} → Picks 0 (negsuc 0) ss none p → Best ss p
    go (kept e b) = absurd (not_FreeBelow ss n h b)
    go (found k t e _ f b) = best k t (e ∙ ap some (omega arith)) f b

module _ (t : ℤ) where
  pub free-award : (k : ℕ) (ss : List Share) → IsFree ss k t → free ss ≡ suc (free (award k ss))
  unfolding award
  free-award k [] f = absurd f
  free-award zero (s ∷ ss) f = ground arith
  free-award (suc k) (s ∷ ss) f = omega (arith, free-award k ss f)

  pub AllNonneg-award : (k : ℕ) (ss : List Share) → AllNonneg ss → AllNonneg (award k ss)
  unfolding award
  AllNonneg-award k [] n = tt
  AllNonneg-award zero (s ∷ ss) n = n
  AllNonneg-award (suc k) (s ∷ ss) (n, ns) = (n, AllNonneg-award k ss ns)

  pub FreeBelow-award : (k : ℕ) (ss : List Share) → FreeBelow t ss → FreeBelow t (award k ss)
  unfolding award
  FreeBelow-award k [] n = tt
  FreeBelow-award zero (s ∷ ss) (n, ns) = (λ e. cc, ns)
  FreeBelow-award (suc k) (s ∷ ss) (n, ns) = (n, FreeBelow-award k ss ns)

  pub UsedAbove-award :
      (k : ℕ) (ss : List Share) → IsFree ss k t → UsedAbove t ss → UsedAbove t (award k ss)
  unfolding award
  UsedAbove-award k [] f n = tt
  UsedAbove-award zero (s ∷ ss) (_, e) (n, ns) = (λ _. rw e (omega arith), ns)
  UsedAbove-award (suc k) (s ∷ ss) f (n, ns) = (n, UsedAbove-award k ss f ns)
