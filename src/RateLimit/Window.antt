-- ===== src/RateLimit/Window.antt =====
-- How many requests rateLimitService.ts admits in any window.
use dukapay.Base.{
  ℕ, suc, ◌+◌, ◌≡◌, ◌≤◌, refl, sym, true, false, Bool-cases, inl, inr, List, [], ◌∷◌, All, ltb, leb,
  ◌&&◌, if◌then◌else◌, length, arith,
}
use dukapay.RateLimit.{SortedSet, prune, unexpired, add_score}

-- How many of the times have the end of their window after `e`.
abbrev pub count_live : ℕ → ℕ → List ℕ → ℕ
count_live window e [] = 0
count_live window e (t ∷ ts) =
    let rest = count_live window e ts in if ltb e (t + window) then suc rest else rest

-- How many of the times lie in the window that ends at `e`.
abbrev pub count_window : ℕ → ℕ → List ℕ → ℕ
count_window window e [] = 0
count_window window e (t ∷ ts) =
    let rest = count_window window e ts in if ltb e (t + window) && leb t e then suc rest else rest

pub count_window_live :
    (window e : ℕ) (ts : List ℕ) → count_window window e ts ≤ count_live window e ts
count_window_live window e [] = omega arith
count_window_live window e (t ∷ ts) = ground (arith, count_window_live window e ts)

pub count_live-length : (window e : ℕ) (ts : List ℕ) → count_live window e ts ≤ length ts
count_live-length window e [] = omega arith
count_live-length window e (t ∷ ts) = ground (arith, count_live-length window e ts)

-- What is pruned is in no later window.
pub count_live-prune :
    (window now e : ℕ) (ts : List ℕ)
    → now ≤ e
    → count_live window e (prune now window ts) ≡ count_live window e ts
unfolding prune
count_live-prune window now e [] h = refl
count_live-prune window now e (t ∷ ts) h = ground (arith, count_live-prune window now e ts h)

pub count_live-add_score :
    (window e t : ℕ) (ts : List ℕ)
    → count_live window e (add_score t ts) ≡ count_live window e (t ∷ ts)
unfolding add_score
count_live-add_score window e t [] = refl
count_live-add_score window e t (u ∷ us) = ground (arith, count_live-add_score window e t us)

count_live_none :
    (window b e : ℕ) (ts : List ℕ)
    → All (λ t. t + window ≤ b) ts
    → b ≤ e
    → count_live window e ts ≡ 0
count_live_none window b e [] h le = refl
count_live_none window b e (t ∷ ts) (h, hs) le = ground (arith, count_live_none window b e ts hs)

module _ (window : ℕ) where
  -- The times are not after `last`, and their windows end before the set expires.
  abbrev pub IsStamped : ℕ → ℕ → ℕ → Type 0
  IsStamped last expires_at t = (t ≤ last) × (t + window ≤ expires_at)

  pub All-later :
      (last now x : ℕ) (ts : List ℕ)
      → last ≤ now
      → All (IsStamped last x) ts
      → All (IsStamped now x) ts
  All-later last now x [] le h = tt
  All-later last now x (t ∷ ts) le (h, hs) =
      ((omega (arith, h.0), h.1), All-later last now x ts le hs)

  All-ends : (last x : ℕ) (ts : List ℕ) → All (IsStamped last x) ts → All (λ t. t + window ≤ x) ts
  All-ends last x [] h = tt
  All-ends last x (t ∷ ts) (h, hs) = (h.1, All-ends last x ts hs)

  pub All-renewed :
      (now x : ℕ) (ts : List ℕ) → All (IsStamped now x) ts → All (IsStamped now (now + window)) ts
  All-renewed now x [] h = tt
  All-renewed now x (t ∷ ts) (h, hs) = ((h.0, omega (arith, h.0)), All-renewed now x ts hs)

  pub All-add_score :
      (P : ℕ → Type 0) (t : ℕ) (ts : List ℕ) → P t → All P ts → All P (add_score t ts)
  unfolding add_score
  All-add_score P t [] h hs = (h, tt)
  All-add_score P t (u ∷ us) h (k, ks) =
      elim (leb t u) as (λ b. All P (if b then t ∷ u ∷ us else u ∷ add_score t us)) [
        | true ↦ (h, (k, ks))
        | false ↦ (k, All-add_score P t us h ks)
      ]

  pub All-prune : (P : ℕ → Type 0) (now : ℕ) (ts : List ℕ) → All P ts → All P (prune now window ts)
  unfolding prune
  All-prune P now [] h = tt
  All-prune P now (t ∷ ts) (h, hs) =
      elim (ltb now (t + window))
        as (λ b. All P (if b then t ∷ prune now window ts else prune now window ts)) [
          | true ↦ (h, All-prune P now ts hs)
          | false ↦ All-prune P now ts hs
        ]

  pub unexpired-All :
      (P : ℕ → Type 0) (now : ℕ) (z : SortedSet) → All P z.scores → All P (unexpired now z)
  unexpired-All P now z h =
      elim (leb z.expires_at now) as (λ b. All P (if b then [] else z.scores)) [
        | true ↦ tt
        | false ↦ h
      ]

  pub count_live-unexpired :
      (last now e : ℕ) (z : SortedSet)
      → All (IsStamped last z.expires_at) z.scores
      → now ≤ e
      → count_live window e (unexpired now z) ≡ count_live window e z.scores
  count_live-unexpired last now e z h le = elim (Bool-cases (leb z.expires_at now)) [
    | inl gone ↦ rw gone (
        sym (
          count_live_none window z.expires_at e z.scores (All-ends last z.expires_at z.scores h)
            (ground arith)))
    | inr live ↦ rw live refl
  ]
