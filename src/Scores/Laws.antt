-- ===== src/Scores/Laws.antt =====
-- What the bulk updates leave in the table.
use dukapay.Base.{
  ℕ, ◌≡◌, ◌≢◌, refl, ap, ◌∙◌, true, false, Option, none, some, List, [], ◌∷◌, inl, inr, ◌==◌,
  if◌then◌else◌, arith, Bool-cases,
}
use dukapay.Base.Int.{ℤ, pos, negsuc, ◌+ℤ◌, ◌-ℤ◌, ◌≤ℤ◌, int_laws, eq_of_parts}
use dukapay.Scores.{
  ScoreRow, World, clamp, initial_score, merged_score, upsert_with, apply_delta, apply_deltas,
  with_ids, update_user_scores_bulk, set_scores, set_kept, set_absolute_user_scores_bulk,
  find_score,
}
use dukapay.Scores.Bounds.{scores-invalidate}

find_score-upsert_with :
    (merge : ℤ → ℤ) (fresh : ℤ) (u user : ℕ) (rows : List ScoreRow)
    → find_score u (upsert_with merge fresh user rows) ≡ (
        if user == u
        then elim (find_score u rows) [ none ↦ some fresh | some z ↦ some (merge z) ]
        else find_score u rows)
unfolding find_score upsert_with
find_score-upsert_with merge fresh u user [] = ground arith
find_score-upsert_with merge fresh u user (r ∷ rs) =
    ground (arith, find_score-upsert_with merge fresh u user rs)

clamp_inside : (z : ℤ) → pos 300 ≤ℤ z → z ≤ℤ pos 850 → clamp z ≡ z
unfolding clamp
clamp_inside z lo hi = ground arith

cancel : (a b : ℤ) → a +ℤ (pos 500 -ℤ b) -ℤ pos 500 ≡ a -ℤ b
cancel a b = eq_of_parts _ _ (omega int_laws)

-- What a score becomes, as long as the inserted value is not clamped.
merged_score_lem :
    (score delta : ℤ)
    → negsuc 349 ≤ℤ delta
    → delta ≤ℤ pos 200
    → merged_score score delta ≡ clamp (score -ℤ delta)
unfolding merged_score initial_score
merged_score_lem score delta lo hi =
    let kept : clamp (pos 500 -ℤ delta) ≡ pos 500 -ℤ delta =
      clamp_inside (pos 500 -ℤ delta) (omega int_laws) (omega int_laws) in
    let same : score +ℤ clamp (pos 500 -ℤ delta) -ℤ pos 500 ≡ score -ℤ delta =
      rw kept (cancel score delta) in
    ap clamp same

-- An update by `updateUserScoresBulk` whose query succeeds subtracts a delta between -350 and 200 for
-- one borrower, whose id is not empty, from the score that the table has for the borrower, and brings
-- the difference into the band: a positive delta lowers the score.
pub find_score-update_user_scores_bulk :
    (user : ℕ) (score delta : ℤ) (w : World)
    → user ≢ 0
    → negsuc 349 ≤ℤ delta
    → delta ≤ℤ pos 200
    → find_score user w.scores ≡ some score
    → find_score user (update_user_scores_bulk ((user, delta) ∷ []) false w).1.scores
      ≡ some (clamp (score -ℤ delta))
unfolding update_user_scores_bulk with_ids apply_deltas apply_delta
find_score-update_user_scores_bulk user score delta w n lo hi found =
    let named : (user == 0) ≡ false = ground arith in
    let same : (user == user) ≡ true = ground arith in
    rw
      (
        named,
        scores-invalidate ((user, delta) ∷ [])
            (record w { scores = apply_delta (user, delta) w.scores }),
      )
      (find_score-upsert_with (λ z. merged_score z delta) (initial_score delta) user user w.scores
        ∙ rw (same, found) (ap some (merged_score_lem score delta lo hi)))

-- The last value that the map gives for a user, or what the table had.
abbrev pub last_value : ℕ → List (ℕ × ℤ) → Option ℤ → Option ℤ
last_value u [] before = before
last_value u ((user, z) ∷ us) before = last_value u us (if user == u then some z else before)

find_score-set_scores :
    (us : List (ℕ × ℤ)) (u : ℕ) (rows : List ScoreRow)
    → find_score u (set_scores us rows) ≡ last_value u us (find_score u rows)
unfolding set_scores
find_score-set_scores [] u rows = refl
find_score-set_scores ((user, z) ∷ us) u rows =
    find_score-set_scores us u (upsert_with (λ old. z) z user rows)
    ∙ ap (last_value u us)
        (find_score-upsert_with (λ old. z) z u user rows ∙ constant (find_score u rows))
  where
    constant :
        (o : Option ℤ)
        → (if user == u then elim o [ none ↦ some z | some y ↦ some z ] else o)
          ≡ (if user == u then some z else o)
    constant none = refl
    constant (some y) = refl

last_value-with_ids :
    (us : List (ℕ × ℤ)) (u : ℕ) (before : Option ℤ)
    → u ≢ 0
    → last_value u (with_ids us) before ≡ last_value u us before
unfolding with_ids
last_value-with_ids [] u before n = refl
last_value-with_ids ((user, z) ∷ us) u before n = elim (Bool-cases (user == 0)) [
  | inl e ↦
      let other : (user == u) ≡ false = ground arith in
      rw (e, other) (last_value-with_ids us u before n)
  | inr e ↦ rw e (last_value-with_ids us u (if user == u then some z else before) n)
]

-- After `setAbsoluteUserScoresBulk` whose query succeeds, the table gives every user the value of the
-- map, however large or small, and the users that the map does not name the score they had.
pub find_score-set_absolute_user_scores_bulk :
    (scores : List (ℕ × ℤ)) (u : ℕ) (w : World)
    → u ≢ 0
    → find_score u (set_absolute_user_scores_bulk scores false w).1.scores
      ≡ last_value u scores (find_score u w.scores)
unfolding set_absolute_user_scores_bulk
find_score-set_absolute_user_scores_bulk scores u w n =
    go (with_ids scores) ∙ last_value-with_ids scores u (find_score u w.scores) n
  where
    go :
        (us : List (ℕ × ℤ))
        → find_score u (set_kept us false w).1.scores ≡ last_value u us (find_score u w.scores)
    go [] = refl
    go (x ∷ us) =
        ap (find_score u)
          (scores-invalidate (x ∷ us) (record w { scores = set_scores (x ∷ us) w.scores }))
        ∙ find_score-set_scores (x ∷ us) u w.scores
