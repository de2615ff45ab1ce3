-- ===== src/PauseGuard/Decision.antt =====
-- What a refresh decides, on every branch.
use dukapay.Base.{
  ◌≡◌, refl, ◌∙◌, Bool, true, false, not, ◌&&◌, ◌||◌, Option, none, some, if◌then◌else◌, Bool-cases,
  arith, inl, inr,
}
use dukapay.PauseGuard.{
  PauseStateSource, database, cache, memory, fail_closed, unloaded, PauseState, Pending, Cached,
  Row, Trip, answered, failed, lost, World, first_trip, other_trips, spend, apply_state,
  read_from_cache, is_real, row_paused, update_pause_state_from_database, fall_back_from_database,
  use_cached, use_known, mirror_to_cache, refresh, update_after, adopt_row, write_redis, announce,
  raise_fallback_alert, same_source, state_of_row,
}
use dukapay.PauseGuard.Holds.{is_waiting, set_pause_state-IsHeld}

-- Paused after a refresh: by the row or a pause still to be written if the database answers;
-- otherwise by the copy in Redis or a pause that is known; otherwise as before, if anything is known.
abbrev pub decided : Trip → Option (Bool × Cached) → World → Bool
decided answered c w = row_paused w.row || is_waiting w.pending_pause
decided _ (some (paused, c)) w = paused || (w.state.is_paused && is_real w.state.source)
decided _ none w = w.state.is_paused || not (is_real w.state.source)

-- What `readFromCache` finds if the database's trip, the first, has failed.
abbrev pub readable_copy : World → Option (Bool × Cached)
readable_copy w = read_from_cache (first_trip (other_trips w.trips)) w.redis

raise-is_paused :
    (source : PauseStateSource) (w : World)
    → (raise_fallback_alert source w).state.is_paused ≡ w.state.is_paused
raise-is_paused source w = elim (Bool-cases (same_source source w.alerted_source)) [
  | inl e ↦ rw e refl
  | inr e ↦ rw e refl
]

announce-is_paused :
    (source : PauseStateSource) (w : World)
    → (announce source w).state.is_paused ≡ w.state.is_paused
announce-is_paused database w = refl
announce-is_paused cache w = raise-is_paused cache w
announce-is_paused memory w = raise-is_paused memory w
announce-is_paused fail_closed w = raise-is_paused fail_closed w
announce-is_paused unloaded w = raise-is_paused unloaded w

apply_state-is_paused :
    (next : PauseState) (w : World) → (apply_state next w).state.is_paused ≡ next.is_paused
unfolding apply_state
apply_state-is_paused next w = announce-is_paused next.source _

mirror_to_cache-is_paused : (w : World) → (mirror_to_cache w).state.is_paused ≡ w.state.is_paused
unfolding mirror_to_cache
mirror_to_cache-is_paused w = go (first_trip w.trips)
  where
    go : (t : Trip) → (write_redis t (spend w)).state.is_paused ≡ w.state.is_paused
    go answered = refl
    go failed = refl
    go lost = refl

adopt_row-is_paused : (w : World) → (adopt_row w).state.is_paused ≡ row_paused w.row
adopt_row-is_paused w = mirror_to_cache-is_paused _ ∙ apply_state-is_paused _ _ ∙ by_row w.row
  where
    by_row : (r : Option Row) → (state_of_row r).is_paused ≡ row_paused r
    by_row none = refl
    by_row (some r) = refl

refresh-is_paused :
    (p : Option Pending) (w : World)
    → (refresh p w).state.is_paused ≡ (row_paused w.row || is_waiting p)
refresh-is_paused none w = let adopted = adopt_row-is_paused w in ground arith
refresh-is_paused (some p) w = elim (Bool-cases (row_paused w.row)) [
  | inl e ↦ let adopted = adopt_row-is_paused w in ground arith
  | inr e ↦ let held = (set_pause_state-IsHeld p.contracts p.reason w).0.0 in ground arith
]

either_is_paused :
    (c b : Bool) (v w : World)
    → (c ≡ true → v.state.is_paused ≡ b)
    → (c ≡ false → w.state.is_paused ≡ b)
    → (if c then v else w).state.is_paused ≡ b
either_is_paused true b v w g h = g refl
either_is_paused false b v w g h = h refl

use_known-is_paused :
    (w : World)
    → (use_known w).state.is_paused ≡ (w.state.is_paused || not (is_real w.state.source))
use_known-is_paused w =
    either_is_paused (is_real w.state.source) _ _ _
      (λ e.
        let known = apply_state-is_paused (record w.state { source = memory }) w in ground arith)
      (λ e. apply_state-is_paused _ w ∙ (ground arith))

use_cached-is_paused :
    (c : Option (Bool × Cached)) (w : World) → (use_cached c w).state.is_paused ≡ decided failed c w
use_cached-is_paused none w = use_known-is_paused w
use_cached-is_paused (some (paused, c)) w =
    either_is_paused (w.state.is_paused && not paused && is_real w.state.source) _ _ _
      (λ e. apply_state-is_paused (record w.state { source = memory }) w ∙ (ground arith))
      (λ e. apply_state-is_paused _ w ∙ (ground arith))

-- After `updatePauseStateFromDatabase` the guard is paused exactly if, with an answer of the database,
-- its row is paused or a pause is still to be written; without one, and with a readable copy in
-- Redis, that copy is paused or a pause is known; with neither, a pause is known or nothing is.
pub is_paused-update :
    (w : World)
    → (update_pause_state_from_database w).state.is_paused
      ≡ decided (first_trip w.trips) (readable_copy w) w
unfolding update_pause_state_from_database fall_back_from_database
is_paused-update w = go (first_trip w.trips)
  where
    fallen :
        (d : Option (Bool × Cached))
        → ((use_cached d (spend (spend w))).state.is_paused ≡ decided failed d w)
          × ((use_cached d (spend (spend w))).state.is_paused ≡ decided lost d w)
    fallen none = let same = use_cached-is_paused none (spend (spend w)) in (same, same)
    fallen (some (b, k)) =
        let same = use_cached-is_paused (some (b, k)) (spend (spend w)) in (same, same)

    go : (t : Trip) → (update_after t (spend w)).state.is_paused ≡ decided t (readable_copy w) w
    go answered = refresh-is_paused w.pending_pause (spend w)
    go failed = (fallen (readable_copy w)).0
    go lost = (fallen (readable_copy w)).1
