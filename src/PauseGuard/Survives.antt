-- ===== src/PauseGuard/Survives.antt =====
-- What the pause guard guarantees.
use dukapay.Base.{ℕ, ◌≡◌, inr, true, false, Option, List, arith}
use dukapay.PauseGuard.{
  Cached, Row, Trip, failed, World, first_trip, set_pause_state, row_paused,
  update_pause_state_from_database, initialize_pause_state, Method, is_read_only, pause_guard,
}
use dukapay.PauseGuard.Holds.{
  IsHeld, set_pause_state-IsHeld, update_pause_state_from_database-IsHeld,
  initialize_pause_state-IsHeld,
}

-- What can happen to the guard while nobody lifts the pause: its calls, a `setPauseState(false)`
-- whose statement fails, and from outside, a new copy in Redis, a row that says paused, and other
-- times and outcomes of round trips.
pub data Step : World → World → Type 0 where
  updated : {w : World} → Step w (update_pause_state_from_database w)
  initialized : {w : World} → Step w (initialize_pause_state w).1
  paused :
      {w : World} (contracts : List ℕ) (reason : Option ℕ)
      → Step w (set_pause_state true contracts reason w).1
  unpause_failed :
      {w : World} (contracts : List ℕ) (reason : Option ℕ)
      → first_trip w.trips ≡ failed
      → Step w (set_pause_state false contracts reason w).1
  redis_changed : {w : World} (c : Option Cached) → Step w (record w { redis = c })
  row_changed : {w : World} (r : Option Row) → row_paused r ≡ true → Step w (record w { row = r })
  time_passed :
      {w : World} (trips : List Trip) (now : ℕ) → Step w (record w { trips = trips; now = now })

pub data Reach (start : World) : World → Type 0 where
  here : Reach start start
  next : {v w : World} → Reach start v → Step v w → Reach start w

Step-IsHeld : {v w : World} → Step v w → IsHeld v → IsHeld w
unfolding set_pause_state
Step-IsHeld (updated {w}) h = update_pause_state_from_database-IsHeld w h
Step-IsHeld (initialized {w}) h = initialize_pause_state-IsHeld w h
Step-IsHeld (paused {w} contracts reason) h = set_pause_state-IsHeld contracts reason w
Step-IsHeld (unpause_failed contracts reason e) h = rw e h
Step-IsHeld (redis_changed c) h = h
Step-IsHeld (row_changed r e) h = (h.0, inr e)
Step-IsHeld (time_passed trips now) h = h

Reach-IsHeld : {v w : World} → Reach v w → IsHeld v → IsHeld w
Reach-IsHeld here h = h
Reach-IsHeld (next r s) h = Step-IsHeld s (Reach-IsHeld r h)

-- From `setPauseState(true)` on, even when its statement failed, and through any sequence of refreshes,
-- restarts of the load, further pauses, unpauses that fail to reach the database, outages of the
-- database or of Redis and any content of Redis, `pauseGuard` lets exactly GET, HEAD and OPTIONS pass.
pub pause_guard-set_pause_state :
    (contracts : List ℕ) (reason : Option ℕ) (start w : World) (method : Method)
    → Reach (set_pause_state true contracts reason start).1 w
    → pause_guard method w ≡ is_read_only method
unfolding pause_guard
pause_guard-set_pause_state contracts reason start w method r =
    let held = Reach-IsHeld r (set_pause_state-IsHeld contracts reason start) in
    let closed = held.0.0 in ground (arith)
