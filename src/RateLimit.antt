-- ===== src/RateLimit.antt =====
-- The sliding-window rate limits: backend/src/services/rateLimitService.ts. Times and windows are whole
-- milliseconds, and an identifier is a number. The tier of a result, which is passed through, is left out,
-- and the reset time that Redis cuts to whole seconds in its answer is kept whole.
use dukapay.Base.{
  ℕ, zero, suc, ◌+◌, ◌-◌, ◌*◌, Bool, true, false, List, [], ◌∷◌, ltb, leb, ◌==◌, if◌then◌else◌,
  length,
}
pub mod Window
pub mod Bound
pub mod Fallback
pub mod Tiers
mod Tests

pub data RateLimitTier : Type 0 where
  anonymous authenticated premium internal : RateLimitTier

pub record RateLimitConfig : Type 0 where
  pub max_requests : ℕ
  pub window : ℕ

pub record RateLimitResult : Type 0 where
  pub allowed : Bool
  pub remaining : ℕ
  pub reset_time : ℕ
  pub current_count : ℕ
  pub limit : ℕ

abbrev pub tier_limits : RateLimitTier → RateLimitConfig
tier_limits anonymous = record { max_requests = 30; window = 60_000 }
tier_limits authenticated = record { max_requests = 100; window = 60_000 }
tier_limits premium = record { max_requests = 1000; window = 60_000 }
tier_limits internal = record { max_requests = 10_000; window = 60_000 }

-- A sorted set of Redis by its scores, which ascend, and when it expires. Members are distinct.
pub record SortedSet : Type 0 where
  pub scores : List ℕ
  pub expires_at : ℕ

-- The sorted sets, and `inMemoryWindows`, in which a key that is missing has no timestamps.
pub record World : Type 0 where
  pub redis : ℕ → SortedSet
  pub in_memory_windows : ℕ → List ℕ

-- How a call of Redis ends: with an answer, with no effect, or with its answer lost.
pub data Call : Type 0 where
  answered refused lost : Call

-- The times after `now - window`.
unfoldable pub prune : ℕ → ℕ → List ℕ → List ℕ
prune now window [] = []
prune now window (t ∷ ts) =
    let rest = prune now window ts in if ltb now (t + window) then t ∷ rest else rest

-- The scores of a key that has not expired.
abbrev pub unexpired : ℕ → SortedSet → List ℕ
unexpired now z = if leb z.expires_at now then [] else z.scores

-- ZADD
unfoldable pub add_score : ℕ → List ℕ → List ℕ
add_score t [] = t ∷ []
add_score t (u ∷ us) = if leb t u then t ∷ u ∷ us else u ∷ add_score t us

-- `oldest ?? now`
abbrev pub oldest_or : ℕ → List ℕ → ℕ
oldest_or now [] = now
oldest_or now (t ∷ ts) = t

abbrev pub admit : RateLimitConfig → ℕ → List ℕ → SortedSet → RateLimitResult × SortedSet
admit config now current z =
    if ltb (length current) config.max_requests
    then (
      record {
        allowed = true;
        remaining = config.max_requests - length current - 1;
        reset_time = now + config.window;
        current_count = length current + 1;
        limit = config.max_requests;
      },
      record { scores = add_score now current; expires_at = now + config.window },
    )
    else (
      record {
        allowed = false;
        remaining = 0;
        reset_time = oldest_or now current + config.window;
        current_count = length current;
        limit = config.max_requests;
      },
      record z { scores = current },
    )

-- SLIDING_WINDOW_SCRIPT.
unfoldable pub sliding_window_script : RateLimitConfig → ℕ → SortedSet → RateLimitResult × SortedSet
sliding_window_script config now z = admit config now (prune now config.window (unexpired now z)) z

-- `timestamps.push(nowMs)`
unfoldable pub push : ℕ → List ℕ → List ℕ
push t [] = t ∷ []
push t (u ∷ us) = u ∷ push t us

abbrev pub put : {A : Type 0} → ℕ → A → (ℕ → A) → ℕ → A
put key a f k = if k == key then a else f k

abbrev pub fall_back : RateLimitConfig → ℕ → ℕ → List ℕ → World → RateLimitResult × World
fall_back config now key timestamps w =
    if ltb (length timestamps) config.max_requests
    then (
      record {
        allowed = true;
        remaining = config.max_requests - length (push now timestamps);
        reset_time = oldest_or now (push now timestamps) + config.window;
        current_count = length (push now timestamps);
        limit = config.max_requests;
      },
      record w { in_memory_windows = put key (push now timestamps) w.in_memory_windows },
    )
    else (
      record {
        allowed = false;
        remaining = 0;
        reset_time = oldest_or now timestamps + config.window;
        current_count = length timestamps;
        limit = config.max_requests;
      },
      w,
    )

-- `checkInMemorySlidingWindow`.
unfoldable pub check_in_memory_sliding_window :
    ℕ → RateLimitConfig → ℕ → World → RateLimitResult × World
check_in_memory_sliding_window key config now w =
    fall_back config now key (prune now config.window (w.in_memory_windows key)) w

abbrev pub run_script : RateLimitConfig → ℕ → ℕ → World → World
run_script config now key w = record w {
  redis = put key (sliding_window_script config now (w.redis key)).1 w.redis;
}

-- `checkRateLimit`.
unfoldable pub check_rate_limit : ℕ → RateLimitConfig → Call → ℕ → World → RateLimitResult × World
check_rate_limit key config answered now w =
    ((sliding_window_script config now (w.redis key)).0, run_script config now key w)
check_rate_limit key config refused now w = check_in_memory_sliding_window key config now w
check_rate_limit key config lost now w =
    check_in_memory_sliding_window key config now (run_script config now key w)

-- `resetRateLimit`.
abbrev pub no_scores : SortedSet
no_scores = record { scores = []; expires_at = 0 }

unfoldable pub reset_rate_limit : ℕ → Call → World → World
reset_rate_limit key refused w = record w { in_memory_windows = put key [] w.in_memory_windows }
reset_rate_limit key _ w = record w {
  in_memory_windows = put key [] w.in_memory_windows;
  redis = put key no_scores w.redis;
}

abbrev pub status_of : RateLimitConfig → ℕ → ℕ → RateLimitResult
status_of config now count = record {
  allowed = ltb count config.max_requests;
  remaining = config.max_requests - count;
  reset_time = now + config.window;
  current_count = count;
  limit = config.max_requests;
}

-- `getRateLimitStatus`, with the count, which its result leaves out.
unfoldable pub get_rate_limit_status : ℕ → RateLimitConfig → Call → ℕ → World → RateLimitResult
get_rate_limit_status key config answered now w =
    status_of config now (length (unexpired now (w.redis key)))
get_rate_limit_status key config _ now w =
    status_of config now (length (prune now config.window (w.in_memory_windows key)))
