-- ===== src/RateLimit/Tiers.antt =====
-- `resolveTier` of rateLimitService.ts and `tieredRateLimiter` of
-- backend/src/middleware/rateLimitMiddleware.ts.
use dukapay.Base.{
  Bool-cases, inl, inr, ℕ, ◌+◌, ◌-◌, ◌/◌, max, ◌≡◌, refl, Bool, true, false, ◌||◌, ◌&&◌, Option,
  none, some, List, [], ◌∷◌, ltb, leb, ◌==◌, if◌then◌else◌,
}
use dukapay.Base.Text.{Text, trim, split_on}
use dukapay.RateLimit.{
  RateLimitTier, anonymous, authenticated, premium, internal, RateLimitConfig, RateLimitResult,
  SortedSet, World, Call, answered, tier_limits, prune, sliding_window_script, check_rate_limit,
}

-- `svc:…`, `key:…`, `user:…` and `ip:…`
pub data Identifier : Type 0 where
  service key : Text → Identifier
  user ip : ℕ → Identifier

unfoldable pub starts_with : Text → Text → Bool
starts_with [] t = true
starts_with (p ∷ ps) [] = false
starts_with (p ∷ ps) (c ∷ cs) = (p == c) && starts_with ps cs

abbrev pub internal_prefix : Text
internal_prefix = b'i' ∷ b'n' ∷ b't' ∷ b'e' ∷ b'r' ∷ b'n' ∷ b'a' ∷ b'l' ∷ b':' ∷ []

abbrev pub admin_prefix : Text
admin_prefix = b'a' ∷ b'd' ∷ b'm' ∷ b'i' ∷ b'n' ∷ b':' ∷ []

abbrev pub is_internal_key : Text → Bool
is_internal_key t = starts_with internal_prefix t || starts_with admin_prefix t

-- `apiKey.split(':')[0]`
abbrev pub first_part : List Text → Text
first_part [] = []
first_part (t ∷ ts) = t

-- The tier and identifier of a trimmed key; a public key 0 is missing. The address stands for `anon`,
-- which the middleware replaces by it.
abbrev pub resolve_key : Text → ℕ → ℕ → RateLimitTier × Identifier
resolve_key [] public_key address =
    if public_key == 0 then (anonymous, ip address) else (authenticated, user public_key)
resolve_key (c ∷ cs) public_key address =
    if is_internal_key (c ∷ cs)
    then (internal, service (first_part (split_on b':' (c ∷ cs))))
    else (premium, key (c ∷ cs))

-- `resolveTier`; a header that is missing is empty.
unfoldable pub resolve_tier : Text → ℕ → ℕ → RateLimitTier × Identifier
resolve_tier api_key public_key address = resolve_key (trim api_key) public_key address

-- `next()`, or the error with its `Retry-After` in seconds.
pub data Reply : Type 0 where
  passed : Reply
  rate_limited : ℕ → Reply

abbrev pub reply_to : ℕ → RateLimitResult × World → Reply × World
reply_to now (r, w) =
    (if r.allowed then passed else rate_limited (max 1 ((r.reset_time - now + 999) / 1000)), w)

abbrev pub config_of : Option RateLimitConfig → RateLimitTier → RateLimitConfig
config_of none tier = tier_limits tier
config_of (some config) tier = config

resolve_tier_premium :
    (api_key : Text) (c : ℕ) (cs : Text) (public_key address : ℕ)
    → trim api_key ≡ c ∷ cs
    → is_internal_key (c ∷ cs) ≡ false
    → resolve_tier api_key public_key address ≡ (premium, key (c ∷ cs))
unfolding resolve_tier
resolve_tier_premium api_key c cs public_key address named other = rw (named, other) refl

script_unused :
    (config : RateLimitConfig) (now : ℕ) (z : SortedSet)
    → z.scores ≡ []
    → ltb 0 config.max_requests ≡ true
    → (sliding_window_script config now z).0.allowed ≡ true
unfolding sliding_window_script prune
script_unused config now z none_yet open_limit = elim (Bool-cases (leb z.expires_at now)) [
  | inl gone ↦ rw (gone, open_limit) refl
  | inr live ↦ rw (live, none_yet, open_limit) refl
]

-- The Redis key of an identifier.
module _ (key_of : Identifier → ℕ) (override_config : Option RateLimitConfig) where
  -- `tieredRateLimiter`.
  unfoldable pub tiered_rate_limiter : Text → ℕ → ℕ → Call → ℕ → World → Reply × World
  tiered_rate_limiter api_key public_key address call now w =
      let resolved = resolve_tier api_key public_key address in
      reply_to now
        (check_rate_limit (key_of resolved.1) (config_of override_config resolved.0) call now w)

  -- A request that names an API key of any text, other than an internal one, for which Redis counts no
  -- request passes when Redis answers, whatever the client has used up under its other keys, its
  -- wallet or its address, if the limit that holds for the premium tier is not 0.
  pub tiered_rate_limiter_new_key :
      (api_key : Text) (c : ℕ) (cs : Text) (public_key address now : ℕ) (w : World)
      → trim api_key ≡ c ∷ cs
      → is_internal_key (c ∷ cs) ≡ false
      → (w.redis (key_of (key (c ∷ cs)))).scores ≡ []
      → ltb 0 (config_of override_config premium).max_requests ≡ true
      → (tiered_rate_limiter api_key public_key address answered now w).0 ≡ passed
  unfolding tiered_rate_limiter check_rate_limit
  tiered_rate_limiter_new_key api_key c cs public_key address now w named premium_key unused
        open_limit =
      rw
        (
          resolve_tier_premium api_key c cs public_key address named premium_key,
          script_unused (config_of override_config premium) now (w.redis (key_of (key (c ∷ cs))))
              unused open_limit,
        )
        refl
