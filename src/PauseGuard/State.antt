-- ===== src/PauseGuard/State.antt =====
-- The state of the pause guard, its copy in Redis and the fallbacks of a refresh: `applyState`,
-- `mirrorToCache`, `readFromCache` and `fallBackFromDatabase` of backend/src/middleware/pauseGuard.ts.
use dukapay.Base.{
  ℕ, Bool, true, false, not, ◌&&◌, Option, none, some, List, [], ◌∷◌, ◌==◌, if◌then◌else◌,
}

pub data PauseStateSource : Type 0 where
  database cache memory fail_closed unloaded : PauseStateSource

pub record PauseState : Type 0 where
  pub is_paused : Bool
  pub paused_at : Option ℕ
  pub reason : Option ℕ
  pub contracts : List ℕ
  pub source : PauseStateSource
  pub verified_at : Option ℕ

pub record Pending : Type 0 where
  pub reason : Option ℕ
  pub contracts : List ℕ

-- What JSON in Redis holds; `none` stands for a value that is not of the expected type.
pub record Cached : Type 0 where
  pub is_paused : Option Bool
  pub paused_at : Option ℕ
  pub reason : Option ℕ
  pub contracts : Option (List ℕ)

pub record Row : Type 0 where
  pub is_paused : Bool
  pub paused_at : Option ℕ
  pub reason : Option ℕ
  pub contracts : Option (List ℕ)

-- A round trip is answered, fails before it has an effect, or has its effect and the answer is lost
-- (a broken connection, or the 250 ms of `withCacheTimeout`).
pub data Trip : Type 0 where
  answered failed lost : Trip

pub record World : Type 0 where
  pub state : PauseState
  pub pending_pause : Option Pending
  pub alerted_source : Option PauseStateSource
  pub alerts : List PauseStateSource
  pub row : Option Row
  pub redis : Option Cached
  pub trips : List Trip
  pub now : ℕ

abbrev pub initial_state : PauseState
initial_state = record {
  is_paused = false;
  paused_at = none;
  reason = none;
  contracts = [];
  source = unloaded;
  verified_at = none;
}

-- The outcome of the next round trip; all that are not listed are answered.
abbrev pub first_trip : List Trip → Trip
first_trip [] = answered
first_trip (t ∷ ts) = t

abbrev pub other_trips : List Trip → List Trip
other_trips [] = []
other_trips (t ∷ ts) = ts

abbrev pub spend : World → World
spend w = record w { trips = other_trips w.trips }

-- `reason || null`; 0 is the empty string.
abbrev pub or_null : Option ℕ → Option ℕ
or_null none = none
or_null (some r) = if r == 0 then none else some r

abbrev pub or_empty : Option (List ℕ) → List ℕ
or_empty none = []
or_empty (some cs) = cs

abbrev pub same_source : PauseStateSource → Option PauseStateSource → Bool
same_source database (some database) = true
same_source cache (some cache) = true
same_source memory (some memory) = true
same_source fail_closed (some fail_closed) = true
same_source unloaded (some unloaded) = true
same_source _ _ = false

abbrev pub raise_fallback_alert : PauseStateSource → World → World
raise_fallback_alert source w =
    if same_source source w.alerted_source
    then w
    else record w { alerted_source = some source; alerts = source ∷ w.alerts }

abbrev pub announce : PauseStateSource → World → World
announce database w = record w { alerted_source = none }
announce source w = raise_fallback_alert source w

unfoldable pub apply_state : PauseState → World → World
apply_state next w =
    announce next.source (record w { state = record next { verified_at = some w.now } })

abbrev pub stored_copy : PauseState → Cached
stored_copy s = record {
  is_paused = some s.is_paused;
  paused_at = s.paused_at;
  reason = s.reason;
  contracts = some s.contracts;
}

abbrev pub write_redis : Trip → World → World
write_redis failed w = w
write_redis _ w = record w { redis = some (stored_copy w.state) }

-- `mirrorToCache(globalPauseState)`, which never throws.
unfoldable pub mirror_to_cache : World → World
mirror_to_cache w = write_redis (first_trip w.trips) (spend w)

abbrev pub usable : Option Cached → Option (Bool × Cached)
usable none = none
usable (some c) = usable_flag c.is_paused
  where
    usable_flag : Option Bool → Option (Bool × Cached)
    usable_flag none = none
    usable_flag (some b) = some (b, c)

-- What `readFromCache` returns, with the flag that it has checked.
abbrev pub read_from_cache : Trip → Option Cached → Option (Bool × Cached)
read_from_cache answered c = usable c
read_from_cache _ c = none

-- `knownIsReal`.
abbrev pub is_real : PauseStateSource → Bool
is_real database = true
is_real cache = true
is_real memory = true
is_real _ = false

-- 'Pause state could not be verified (database unavailable)'
abbrev pub unverified_reason : ℕ
unverified_reason = 1

abbrev pub use_known : World → World
use_known w =
    if is_real w.state.source
    then apply_state (record w.state { source = memory }) w
    else apply_state
        (record {
          is_paused = true;
          paused_at = w.state.paused_at;
          reason = some unverified_reason;
          contracts = w.state.contracts;
          source = fail_closed;
          verified_at = none;
        })
        w

abbrev pub use_cached : Option (Bool × Cached) → World → World
use_cached none w = use_known w
use_cached (some (paused, c)) w =
    if w.state.is_paused && not paused && is_real w.state.source
    then apply_state (record w.state { source = memory }) w
    else apply_state
        (record {
          is_paused = paused;
          paused_at = c.paused_at;
          reason = c.reason;
          contracts = or_empty c.contracts;
          source = cache;
          verified_at = none;
        })
        w

unfoldable pub fall_back_from_database : World → World
fall_back_from_database w = use_cached (read_from_cache (first_trip w.trips) w.redis) (spend w)
