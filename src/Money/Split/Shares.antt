-- ===== src/Money/Split/Shares.antt =====
-- What the array of `splitProRata` holds while stroops are handed out.
use mathlib.Core.Path.{subst}
use dukapay.Base.{
  ℕ, zero, suc, ◌+◌, ◌*◌, ◌/◌, ◌%◌, ◌<◌, ◌≤◌, ◌≡◌, refl, ap, ◌∙◌, Bool, true, false, List, [], ◌∷◌,
  arith, length,
}
use dukapay.Base.Int.{ℤ, pos, ◌+ℤ◌}
use dukapay.Money.{ok}
use dukapay.Money.Split.{Share, sum_from, award, hand_out, parts_of}
use dukapay.Money.Split.Scan.{
  IsFree, FreeBelow, UsedAbove, UsedAbove-mono, free, free-award, AllNonneg, best, scan-Best,
  FreeBelow-award, UsedAbove-award, IsFree-le,
}

abbrev pub bit : Bool → ℕ
bit true = 1
bit false = 0

abbrev pub taken : List Share → ℕ
taken [] = 0
taken (s ∷ ss) = bit s.used + taken ss

abbrev pub sum : List ℕ → ℕ
sum [] = 0
sum (v ∷ vs) = v + sum vs

module _ (t d : ℕ) where
  -- Each entry holds the rounded-down share of its weight, one more where it is used, and the
  -- remainder of that division.
  abbrev pub HasShares : List ℕ → List Share → Type 0
  HasShares [] [] = Unit
  HasShares [] (s ∷ ss) = ⊥
  HasShares (v ∷ vs) [] = ⊥
  HasShares (v ∷ vs) (s ∷ ss) =
      (s.part ≡ pos (t * v / suc d + bit s.used))
      × (s.remainder ≡ pos (t * v % suc d))
      × HasShares vs ss

  abbrev pub floors : List ℕ → ℕ
  floors [] = 0
  floors (v ∷ vs) = t * v / suc d + floors vs

  abbrev pub remainders : List ℕ → ℕ
  remainders [] = 0
  remainders (v ∷ vs) = t * v % suc d + remainders vs

  HasShares-AllNonneg : (vs : List ℕ) (ss : List Share) → HasShares vs ss → AllNonneg ss
  HasShares-AllNonneg [] [] h = tt
  HasShares-AllNonneg (v ∷ vs) (s ∷ ss) (_, e, h) =
      (rw e (omega arith), HasShares-AllNonneg vs ss h)
  HasShares-AllNonneg [] (s ∷ ss) h = absurd h
  HasShares-AllNonneg (v ∷ vs) [] h = absurd h

  part_award :
      (p : ℤ) (q : ℕ) (used : Bool)
      → used ≡ false
      → p ≡ pos (q + bit used)
      → p +ℤ pos 1 ≡ pos (q + 1)
  unfolding ◌+ℤ◌
  part_award p q used new e = ground arith

  HasShares-award :
      (k : ℕ) (r : ℤ) (vs : List ℕ) (ss : List Share)
      → IsFree ss k r
      → HasShares vs ss
      → HasShares vs (award k ss)
  unfolding award
  HasShares-award zero r (v ∷ vs) (s ∷ ss) (new, _) (e, e', h) =
      (part_award s.part (t * v / suc d) s.used new e, e', h)
  HasShares-award (suc k) r (v ∷ vs) (s ∷ ss) f (e, e', h) = (e, e', HasShares-award k r vs ss f h)
  HasShares-award k r [] [] f h = tt
  HasShares-award k r [] (s ∷ ss) f h = absurd h
  HasShares-award k r (v ∷ vs) [] f h = absurd h

  length-HasShares :
      (vs : List ℕ) (ss : List Share) → HasShares vs ss → free ss + taken ss ≡ length vs
  length-HasShares [] [] h = omega arith
  length-HasShares (v ∷ vs) (s ∷ ss) (_, _, h) = ground (arith, length-HasShares vs ss h)
  length-HasShares [] (s ∷ ss) h = absurd h
  length-HasShares (v ∷ vs) [] h = absurd h

  add_part : (a : ℕ) (p : ℤ) (q : ℕ) → p ≡ pos q → pos a +ℤ p ≡ pos (a + q)
  unfolding ◌+ℤ◌
  add_part a p q e = ground arith

  pub sum_from-HasShares :
      (a : ℕ) (vs : List ℕ) (ss : List Share)
      → HasShares vs ss
      → sum_from (pos a) (parts_of ss) ≡ pos (a + floors vs + taken ss)
  unfolding sum_from parts_of
  sum_from-HasShares a [] [] h = ap pos (omega arith)
  sum_from-HasShares a (v ∷ vs) (s ∷ ss) (e, _, h) =
      ap (λ acc. sum_from acc (parts_of ss)) (add_part a s.part (t * v / suc d + bit s.used) e)
      ∙ sum_from-HasShares (a + (t * v / suc d + bit s.used)) vs ss h
      ∙ ap pos (omega arith)
  sum_from-HasShares a [] (s ∷ ss) h = absurd h
  sum_from-HasShares a (v ∷ vs) [] h = absurd h

  -- The outcome of handing out: an entry that got a stroop has no smaller remainder than one that
  -- got none.
  pub record IsHandedOut (vs : List ℕ) (k : ℕ) (ss : List Share) : Type 0 where
    pub shares : HasShares vs ss
    pub total : taken ss ≡ k
    pub cut : ℤ
    pub above : UsedAbove cut ss
    pub below : FreeBelow cut ss

  -- One round keeps the outcome so far.
  IsHandedOut-award :
      (k : ℕ) (r : ℤ) (vs : List ℕ) (n : ℕ) (ss : List Share)
      → IsFree ss k r
      → FreeBelow r ss
      → IsHandedOut vs n ss
      → IsHandedOut vs (suc n) (award k ss)
  IsHandedOut-award k r vs n ss f b h = record {
    shares = HasShares-award k r vs ss f h.shares;
    total = omega (
      arith,
      length-HasShares vs ss h.shares,
      length-HasShares vs (award k ss) (HasShares-award k r vs ss f h.shares),
      free-award r k ss f,
      h.total,
    );
    cut = r;
    above =
        UsedAbove-award r k ss f
          (UsedAbove-mono h.cut r ss (IsFree-le r h.cut k ss f h.below) h.above);
    below = FreeBelow-award r k ss b;
  }

  pub hand_out_total :
      (k n m : ℕ) (vs : List ℕ) (ss : List Share)
      → IsHandedOut vs n ss
      → n + k ≡ m
      → m ≤ length vs
      → (ss' : List Share) × (hand_out k ss ≡ ok ss') × IsHandedOut vs m ss'
  unfolding hand_out
  hand_out_total zero n m vs ss h e le =
      let same : n ≡ m = omega arith in (ss, refl, subst (λ x. IsHandedOut vs x ss) same h)
  hand_out_total (suc k) n m vs ss h e le =
      elim (scan-Best ss (HasShares-AllNonneg vs ss h.shares) room) [
        | best i r picked f b ↦
            let (ss', done, h') =
              hand_out_total k (suc n) m vs (award i ss) (IsHandedOut-award i r vs n ss f b h)
                (omega arith) le in
            (ss', rw (picked, hand_out) done, h')
      ]
    where
      room : 0 < free ss
      room = omega (arith, length-HasShares vs ss h.shares, h.total)
