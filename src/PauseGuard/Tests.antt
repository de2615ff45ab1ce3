-- ===== src/PauseGuard/Tests.antt =====
-- The pause guard in an outage: the pause is requested while the database is down, and Redis answers.
use dukapay.Base.{◌≡◌, refl, true, false, none, some, [], ◌∷◌}
use dukapay.PauseGuard.{
  memory, answered, failed, World, initial_state, empty_row, apply_state, mirror_to_cache, post,
  pause_guard, set_pause_state, fall_back_from_database, update_pause_state_from_database,
  initialize_pause_state, first_trip, health, degraded,
}
use dukapay.PauseGuard.Survives.{here, next, updated, pause_guard-set_pause_state}
use dukapay.PauseGuard.Decision.{decided, readable_copy, is_paused-update}

abbrev started : World
started =
    (initialize_pause_state (record {
      state = initial_state;
      pending_pause = none;
      alerted_source = none;
      alerts = [];
      row = some empty_row;
      redis = none;
      trips = [];
      now = 1;
    })).1

-- The statement of the pause fails, the refresh after it reads a row that is not paused, and its own
-- statement fails too.
abbrev outage : World
outage = record started { trips = failed ∷ answered ∷ answered ∷ failed ∷ [] }

abbrev after : World
after = update_pause_state_from_database (set_pause_state true (7 ∷ []) (some 3) outage).1

writes_pass : pause_guard post started ≡ true
unfolding initialize_pause_state update_pause_state_from_database fall_back_from_database
    set_pause_state apply_state mirror_to_cache pause_guard
writes_pass = refl

writes_blocked :
    (after.row ≡ some empty_row)
    × (health after.state.source ≡ degraded)
    × (after.alerts ≡ memory ∷ [])
unfolding initialize_pause_state update_pause_state_from_database fall_back_from_database
    set_pause_state apply_state mirror_to_cache pause_guard health
writes_blocked = (refl, refl, refl)

pause_guard-set_pause_state_example : pause_guard post after ≡ false
pause_guard-set_pause_state_example =
    pause_guard-set_pause_state (7 ∷ []) (some 3) outage after post (next here updated)

is_paused-update_example :
    (update_pause_state_from_database outage).state.is_paused
    ≡ decided (first_trip outage.trips) (readable_copy outage) outage
is_paused-update_example = is_paused-update outage
