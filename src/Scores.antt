-- ===== src/Scores.antt =====
-- Borrower scores: backend/src/services/scoresService.ts. User ids are numbers, 0 being the empty text.
use dukapay.Base.{
  ℕ, ◌+◌, Bool, true, false, not, Option, none, some, List, [], ◌∷◌, ◌++◌, ◌==◌, if◌then◌else◌,
}
use dukapay.Base.Int.{ℤ, pos, ◌+ℤ◌, ◌-ℤ◌, ltb_ℤ}
pub mod Bounds
pub mod Laws
mod Tests

pub record ScoreRow : Type 0 where
  pub borrower : ℕ
  pub score : ℤ

-- The `scores` table, and the users of whom Redis holds a score or a breakdown.
pub record World : Type 0 where
  pub scores : List ScoreRow
  pub cached_scores : List ℕ
  pub cached_breakdowns : List ℕ

-- `LEAST(850, GREATEST(300, z))`
abbrev pub clamp_high : ℤ → ℤ
clamp_high z = if ltb_ℤ (pos 850) z then pos 850 else z

abbrev pub clamp_low : ℤ → ℤ
clamp_low z = if ltb_ℤ z (pos 300) then pos 300 else z

unfoldable pub clamp : ℤ → ℤ
clamp z = clamp_high (clamp_low z)

-- The value that a delta inserts: `LEAST(850, GREATEST(300, 500 - delta))`.
unfoldable pub initial_score : ℤ → ℤ
unfolding clamp
initial_score delta = clamp (pos 500 -ℤ delta)

-- What the conflict makes of a score: `LEAST(850, GREATEST(300, scores.score + EXCLUDED.score - 500))`.
unfoldable pub merged_score : ℤ → ℤ → ℤ
unfolding clamp initial_score
merged_score score delta = clamp (score +ℤ initial_score delta -ℤ pos 500)

-- INSERT … ON CONFLICT (borrower) DO UPDATE, for one row of the values.
unfoldable pub upsert_with : (ℤ → ℤ) → ℤ → ℕ → List ScoreRow → List ScoreRow
upsert_with merge fresh user [] = record { borrower = user; score = fresh } ∷ []
upsert_with merge fresh user (r ∷ rs) =
    if r.borrower == user
    then record r { score = merge r.score } ∷ rs
    else r ∷ upsert_with merge fresh user rs

unfoldable pub apply_delta : ℕ × ℤ → List ScoreRow → List ScoreRow
apply_delta (user, delta) rows =
    upsert_with (λ score. merged_score score delta) (initial_score delta) user rows

unfoldable pub apply_deltas : List (ℕ × ℤ) → List ScoreRow → List ScoreRow
apply_deltas [] rows = rows
apply_deltas (u ∷ us) rows = apply_deltas us (apply_delta u rows)

unfoldable pub set_scores : List (ℕ × ℤ) → List ScoreRow → List ScoreRow
set_scores [] rows = rows
set_scores ((user, score) ∷ us) rows = set_scores us (upsert_with (λ old. score) score user rows)

-- 'skip empty user ids'
unfoldable pub with_ids : List (ℕ × ℤ) → List (ℕ × ℤ)
with_ids [] = []
with_ids ((user, z) ∷ us) = if user == 0 then with_ids us else (user, z) ∷ with_ids us

unfoldable pub delete_key : ℕ → List ℕ → List ℕ
delete_key user [] = []
delete_key user (u ∷ us) = if u == user then delete_key user us else u ∷ delete_key user us

-- The cache of each updated user.
unfoldable pub invalidate : List (ℕ × ℤ) → World → World
invalidate [] w = w
invalidate ((user, z) ∷ us) w = invalidate us (record w {
  cached_scores = delete_key user w.cached_scores;
  cached_breakdowns = delete_key user w.cached_breakdowns;
})

abbrev pub update_kept : List (ℕ × ℤ) → Bool → World → Bool × World
update_kept [] failing w = (true, w)
update_kept (u ∷ us) true w = (false, w)
update_kept (u ∷ us) false w =
    (true, invalidate (u ∷ us) (record w { scores = apply_deltas (u ∷ us) w.scores }))

-- `updateUserScoresBulk`: whether it returned, and the world; `failing` says that its query fails. The
-- keys of the map stand once each.
unfoldable pub update_user_scores_bulk : List (ℕ × ℤ) → Bool → World → Bool × World
update_user_scores_bulk updates failing w = update_kept (with_ids updates) failing w

abbrev pub set_kept : List (ℕ × ℤ) → Bool → World → Bool × World
set_kept [] failing w = (true, w)
set_kept (u ∷ us) true w = (false, w)
set_kept (u ∷ us) false w =
    (true, invalidate (u ∷ us) (record w { scores = set_scores (u ∷ us) w.scores }))

-- `setAbsoluteUserScoresBulk`.
unfoldable pub set_absolute_user_scores_bulk : List (ℕ × ℤ) → Bool → World → Bool × World
set_absolute_user_scores_bulk scores failing w = set_kept (with_ids scores) failing w

unfoldable pub find_score : ℕ → List ScoreRow → Option ℤ
find_score user [] = none
find_score user (r ∷ rs) = if r.borrower == user then some r.score else find_score user rs
