-- ===== src/RateLimit/Tests.antt =====
-- Two requests in a window of 10: the third is refused, and admitted when the first has left.
use dukapay.Base.{ℕ, ◌≡◌, ◌≤◌, ◌+◌, ◌*◌, refl, true, false, List, [], ◌∷◌, arith}
use dukapay.RateLimit.{
  RateLimitConfig, World, no_scores, answered, prune, add_score, sliding_window_script,
  check_in_memory_sliding_window, check_rate_limit, get_rate_limit_status,
}
use dukapay.Base.Text.{Text}
use dukapay.RateLimit.Tiers.{Identifier, service, key, user, ip}
use dukapay.RateLimit.Window.{count_window}
use dukapay.RateLimit.Bound.{check_all, check_rate_limit_window}
use dukapay.RateLimit.Fallback.{Agree, check_in_memory_sliding_window-sliding_window_script}

abbrev two_in_ten : RateLimitConfig
two_in_ten = record { max_requests = 2; window = 10 }

abbrev fresh : World
fresh = record { redis = λ k. no_scores; in_memory_windows = λ k. 100 ∷ 104 ∷ [] }

abbrev times : List ℕ
times = 110 ∷ 105 ∷ 104 ∷ 100 ∷ []

admitted_run : (check_all two_in_ten 7 times fresh).0 ≡ 110 ∷ 104 ∷ 100 ∷ []
unfolding check_rate_limit sliding_window_script prune add_score
admitted_run = refl

-- The first entry has left the window, and the status still counts it.
abbrev stale : World
stale = record fresh { redis = λ k. record { scores = 100 ∷ 110 ∷ []; expires_at = 120 } }

stale_status :
    ((get_rate_limit_status 7 two_in_ten answered 112 stale).allowed ≡ false)
    × ((check_rate_limit 7 two_in_ten answered 112 stale).0.allowed ≡ true)
unfolding get_rate_limit_status check_rate_limit sliding_window_script prune
stale_status = (refl, refl)

check_rate_limit_window_example : count_window 10 109 (check_all two_in_ten 7 times fresh).0 ≤ 2
check_rate_limit_window_example =
    check_rate_limit_window two_in_ten 7 times fresh 109
      (omega arith, (omega arith, (omega arith, (omega arith, tt)))) refl

check_in_memory_sliding_window-sliding_window_script_example :
    Agree
      (check_in_memory_sliding_window 7 two_in_ten 105 fresh).0
      (sliding_window_script two_in_ten 105
        (record { scores = 100 ∷ 104 ∷ []; expires_at = 114 })).0
check_in_memory_sliding_window-sliding_window_script_example =
    check_in_memory_sliding_window-sliding_window_script 7 two_in_ten 105 fresh
      (record { scores = 100 ∷ 104 ∷ []; expires_at = 114 }) refl

abbrev api_key : Text
api_key = b'x' ∷ b'1' ∷ []

abbrev key_of : Identifier → ℕ
key_of (service t) = 1
key_of (key t) = 2
key_of (user k) = 3 + 2 * k
key_of (ip a) = 4 + 2 * a
