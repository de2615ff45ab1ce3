-- ===== src/RateLimit/Fallback.antt =====
-- The in-memory fallback of rateLimitService.ts against the Redis script.
use dukapay.Base.{ℕ, suc, ◌≡◌, refl, ap, Bool-cases, inl, inr, List, [], ◌∷◌, ltb, length, arith}
use dukapay.RateLimit.{
  RateLimitConfig, RateLimitResult, SortedSet, World, prune, unexpired, admit,
  sliding_window_script, push, fall_back, check_in_memory_sliding_window,
}

length-push : (t : ℕ) (ts : List ℕ) → length (push t ts) ≡ suc (length ts)
unfolding push
length-push t [] = refl
length-push t (u ∷ us) = ap suc (length-push t us)

-- What two results agree on: all but the reset time.
abbrev pub Agree : RateLimitResult → RateLimitResult → Type 0
Agree r s =
    (r.allowed ≡ s.allowed)
    × ((r.remaining ≡ s.remaining) × ((r.current_count ≡ s.current_count) × (r.limit ≡ s.limit)))

fall_back-admit :
    (config : RateLimitConfig) (now key : ℕ) (ts : List ℕ) (w : World) (z : SortedSet)
    → Agree (fall_back config now key ts w).0 (admit config now ts z).0
fall_back-admit config now key ts w z = elim (Bool-cases (ltb (length ts) config.max_requests)) [
  | inl free ↦ rw (free, length-push now ts) (refl, (omega arith, (omega arith, refl)))
  | inr full ↦ rw full (refl, (refl, (refl, refl)))
]

-- On the timestamps that the Redis key holds, the in-memory fallback decides as the script does: the two
-- agree on whether the request is allowed, on the remaining requests, on the count and on the limit.
pub check_in_memory_sliding_window-sliding_window_script :
    (key : ℕ) (config : RateLimitConfig) (now : ℕ) (w : World) (z : SortedSet)
    → w.in_memory_windows key ≡ unexpired now z
    → Agree
        (check_in_memory_sliding_window key config now w).0
        (sliding_window_script config now z).0
unfolding check_in_memory_sliding_window sliding_window_script
check_in_memory_sliding_window-sliding_window_script key config now w z same =
    rw same (fall_back-admit config now key (prune now config.window (unexpired now z)) w z)
