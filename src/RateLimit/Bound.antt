-- ===== src/RateLimit/Bound.antt =====
-- `checkRateLimit` of rateLimitService.ts admits no more than the limit in any window.
use dukapay.Base.{
  ℕ, ◌+◌, ◌≡◌, ◌≤◌, ◌<◌, ◌∙◌, Bool, true, false, Bool-cases, inl, inr, List, [], ◌∷◌, All, ltb, leb,
  ◌==◌, length, arith,
}
use dukapay.RateLimit.{
  RateLimitConfig, RateLimitResult, SortedSet, World, answered, prune, unexpired, admit,
  sliding_window_script, check_rate_limit,
}
use dukapay.RateLimit.Window.{
  count_live, count_window, count_window_live, count_live-length, count_live-prune,
  count_live-add_score, IsStamped, All-later, All-renewed, All-add_score, All-prune, unexpired-All,
  count_live-unexpired,
}

module _ (config : RateLimitConfig) where
  -- The admitted times so far, and the set of the identifier.
  abbrev Good : ℕ → List ℕ → SortedSet → Type 0
  Good last admitted z =
      All (IsStamped config.window last z.expires_at) z.scores
      × (((e : ℕ)
            → last ≤ e
            → count_live config.window e admitted ≤ count_live config.window e z.scores)
          × ((e : ℕ) → count_window config.window e admitted ≤ config.max_requests))

  abbrev pub note : ℕ → Bool → List ℕ → List ℕ
  note now true admitted = now ∷ admitted
  note now false admitted = admitted

  window_step :
      (now e live : ℕ) (admitted : List ℕ)
      → live < config.max_requests
      → (now ≤ e → count_live config.window e admitted ≤ live)
      → count_window config.window e admitted ≤ config.max_requests
      → count_window config.window e (now ∷ admitted) ≤ config.max_requests
  window_step now e live admitted free tracked before = elim (Bool-cases (leb now e)) [
    | inl later ↦
        let inside : count_live config.window e admitted ≤ live = tracked (ground arith) in
        ground (arith, count_window_live config.window e admitted)
    | inr earlier ↦ ground arith
  ]

  admit-Good :
      (last now : ℕ) (admitted current : List ℕ) (z : SortedSet)
      → Good last admitted z
      → last ≤ now
      → All (IsStamped config.window now z.expires_at) current
      → ((e : ℕ)
          → now ≤ e
          → count_live config.window e current ≡ count_live config.window e z.scores)
      → Good now
          (note now (admit config now current z).0.allowed admitted)
          (admit config now current z).1
  admit-Good last now admitted current z (stamped, (tracked, bounded)) le fresh same =
      elim (Bool-cases (ltb (length current) config.max_requests)) [
        | inl free ↦ rw free (
          All-add_score config.window (IsStamped config.window now (now + config.window)) now
              current (omega arith, omega arith)
              (All-renewed config.window now z.expires_at current fresh),
          (
            (λ e h.
                rw (count_live-add_score config.window e now current)
                  (ground (arith, tracked e (omega arith), same e h))),
            (λ e.
                window_step now e (length current) admitted (ground arith)
                  (λ h. omega (
                    arith,
                    tracked e (omega arith),
                    same e h,
                    count_live-length config.window e current,
                  ))
                  (bounded e)),
          ),
        )
        | inr full ↦
            rw full (fresh, ((λ e h. omega (arith, tracked e (omega arith), same e h)), bounded))
      ]

  script-Good :
      (last now : ℕ) (admitted : List ℕ) (z : SortedSet)
      → Good last admitted z
      → last ≤ now
      → Good now
          (note now (sliding_window_script config now z).0.allowed admitted)
          (sliding_window_script config now z).1
  unfolding sliding_window_script
  script-Good last now admitted z g le =
      let all_later : All (IsStamped config.window now z.expires_at) z.scores =
        All-later config.window last now z.expires_at z.scores le g.0 in
      admit-Good last now admitted (prune now config.window (unexpired now z)) z g le
        (All-prune config.window (IsStamped config.window now z.expires_at) now (unexpired now z)
          (unexpired-All config.window (IsStamped config.window now z.expires_at) now z all_later))
        (λ e h.
          count_live-prune config.window now e (unexpired now z) h
          ∙ count_live-unexpired config.window last now e z g.0 h)

  -- A run of calls for one identifier, the latest time first: the admitted times.
  abbrev pub after_call : ℕ → List ℕ → RateLimitResult × World → List ℕ × World
  after_call now admitted (r, w) = (note now r.allowed admitted, w)

  abbrev pub check_all : ℕ → List ℕ → World → List ℕ × World
  check_all key [] w = ([], w)
  check_all key (now ∷ earlier) w =
      let before = check_all key earlier w in
      after_call now before.0 (check_rate_limit key config answered now before.1)

  abbrev pub last_of : List ℕ → ℕ
  last_of [] = 0
  last_of (t ∷ ts) = t

  abbrev pub IsClock : List ℕ → Type 0
  IsClock [] = Unit {0}
  IsClock (t ∷ ts) = (last_of ts ≤ t) × IsClock ts

  check_all-Good :
      (key : ℕ) (times : List ℕ) (w : World)
      → IsClock times
      → (w.redis key).scores ≡ []
      → Good (last_of times) (check_all key times w).0 ((check_all key times w).1.redis key)
  unfolding check_rate_limit
  check_all-Good key [] w clock none_yet =
      rw none_yet (tt, ((λ e h. omega arith), (λ e. omega arith)))
  check_all-Good key (now ∷ earlier) w (le, clock) none_yet =
      let same : (key == key) ≡ true = ground arith in
      rw same (
        script-Good (last_of earlier) now (check_all key earlier w).0
          ((check_all key earlier w).1.redis key) (check_all-Good key earlier w clock none_yet) le)

  -- Of the calls for one identifier whose times do not decrease and that Redis answers, from a time on
  -- at which Redis counts none, `checkRateLimit` admits at most `maxRequests` in any window, however
  -- many calls there are and wherever the window ends.
  pub check_rate_limit_window :
      (key : ℕ) (times : List ℕ) (w : World) (e : ℕ)
      → IsClock times
      → (w.redis key).scores ≡ []
      → count_window config.window e (check_all key times w).0 ≤ config.max_requests
  check_rate_limit_window key times w e clock none_yet =
      (check_all-Good key times w clock none_yet).1.1 e
