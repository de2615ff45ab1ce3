-- ===== src/Scores/Tests.antt =====
-- One borrower: a repayment of 15 points lowers a score of 500, as it does for a borrower with no row.
use dukapay.Base.{ℕ, ◌≡◌, refl, false, some, List, [], ◌∷◌, All, arith}
use dukapay.Base.Int.{ℤ, pos, ◌+ℤ◌, ◌-ℤ◌}
use dukapay.Scores.{
  World, clamp, initial_score, merged_score, upsert_with, apply_delta, apply_deltas, with_ids,
  invalidate, delete_key, update_user_scores_bulk, find_score,
}
use dukapay.Scores.Bounds.{IsInBand, update_user_scores_bulk-IsInBand}
use dukapay.Scores.Laws.{find_score-update_user_scores_bulk}

abbrev table : World
table = record {
  scores = record { borrower = 4; score = pos 500 } ∷ [];
  cached_scores = 4 ∷ 5 ∷ [];
  cached_breakdowns = [];
}

abbrev repayment : List (ℕ × ℤ)
repayment = (4, pos 15) ∷ (0, pos 15) ∷ (6, pos 15) ∷ []

repayment_lowers : (update_user_scores_bulk repayment false table).1 ≡ record {
  scores = record { borrower = 4; score = pos 485 } ∷ record { borrower = 6; score = pos 485 } ∷ [];
  cached_scores = 5 ∷ [];
  cached_breakdowns = [];
}
unfolding update_user_scores_bulk with_ids apply_deltas apply_delta upsert_with merged_score
    initial_score clamp invalidate delete_key ◌+ℤ◌ ◌-ℤ◌
repayment_lowers = refl

update_user_scores_bulk-IsInBand_example :
    All IsInBand (update_user_scores_bulk repayment false table).1.scores
update_user_scores_bulk-IsInBand_example =
    update_user_scores_bulk-IsInBand repayment false table ((omega arith, omega arith), tt)

find_score-update_user_scores_bulk_example :
    find_score 4 (update_user_scores_bulk ((4, pos 15) ∷ []) false table).1.scores
    ≡ some (clamp (pos 500 -ℤ pos 15))
unfolding find_score
find_score-update_user_scores_bulk_example =
    find_score-update_user_scores_bulk 4 (pos 500) (pos 15) table (omega arith) (omega arith)
      (omega arith) refl
