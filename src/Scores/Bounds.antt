-- ===== src/Scores/Bounds.antt =====
-- Scores stay in their band.
use dukapay.Base.{
  ℕ, ◌≡◌, refl, Bool, true, false, List, [], ◌∷◌, inl, inr, ◌==◌, All, arith, Bool-cases,
}
use dukapay.Base.Int.{ℤ, pos, ◌+ℤ◌, ◌-ℤ◌, ◌≤ℤ◌}
use dukapay.Scores.{
  ScoreRow, World, clamp, initial_score, merged_score, upsert_with, apply_delta, apply_deltas,
  with_ids, invalidate, update_kept, update_user_scores_bulk,
}

abbrev pub IsInBand : ScoreRow → Type 0
IsInBand r = (pos 300 ≤ℤ r.score) × (r.score ≤ℤ pos 850)

clamp_bounds : (z : ℤ) → (pos 300 ≤ℤ clamp z) × (clamp z ≤ℤ pos 850)
unfolding clamp
clamp_bounds z = ground arith

upsert_with-IsInBand :
    (merge : ℤ → ℤ) (fresh : ℤ) (user : ℕ) (rows : List ScoreRow)
    → ((z : ℤ) → (pos 300 ≤ℤ merge z) × (merge z ≤ℤ pos 850))
    → (pos 300 ≤ℤ fresh) × (fresh ≤ℤ pos 850)
    → All IsInBand rows
    → All IsInBand (upsert_with merge fresh user rows)
unfolding upsert_with
upsert_with-IsInBand merge fresh user [] m f h = (f, tt)
upsert_with-IsInBand merge fresh user (r ∷ rs) m f h = elim (Bool-cases (r.borrower == user)) [
  | inl e ↦ rw e (m r.score, h.1)
  | inr e ↦ rw e (h.0, upsert_with-IsInBand merge fresh user rs m f (h.1))
]

apply_deltas-IsInBand :
    (us : List (ℕ × ℤ)) (rows : List ScoreRow)
    → All IsInBand rows
    → All IsInBand (apply_deltas us rows)
unfolding apply_deltas apply_delta initial_score merged_score
apply_deltas-IsInBand [] rows h = h
apply_deltas-IsInBand ((user, delta) ∷ us) rows h =
    apply_deltas-IsInBand us (apply_delta (user, delta) rows) (
      upsert_with-IsInBand (λ score. merged_score score delta) (initial_score delta) user rows
        (λ z. clamp_bounds (z +ℤ initial_score delta -ℤ pos 500)) (clamp_bounds (pos 500 -ℤ delta))
        h)

pub scores-invalidate : (us : List (ℕ × ℤ)) (w : World) → (invalidate us w).scores ≡ w.scores
unfolding invalidate
scores-invalidate [] w = refl
scores-invalidate ((user, z) ∷ us) w = scores-invalidate us _

-- `updateUserScoresBulk` keeps every score between 300 and 850, whatever the deltas and whether or not
-- its query fails.
pub update_user_scores_bulk-IsInBand :
    (updates : List (ℕ × ℤ)) (failing : Bool) (w : World)
    → All IsInBand w.scores
    → All IsInBand (update_user_scores_bulk updates failing w).1.scores
unfolding update_user_scores_bulk
update_user_scores_bulk-IsInBand updates failing w h = go (with_ids updates) failing
  where
    go : (us : List (ℕ × ℤ)) (f : Bool) → All IsInBand (update_kept us f w).1.scores
    go [] f = h
    go (u ∷ us) true = h
    go (u ∷ us) false =
        rw (scores-invalidate (u ∷ us) (record w { scores = apply_deltas (u ∷ us) w.scores }))
          (apply_deltas-IsInBand (u ∷ us) w.scores h)
