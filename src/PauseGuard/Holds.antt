-- ===== src/PauseGuard/Holds.antt =====
-- An enforced pause: an invariant of the guard's world.
use dukapay.Base.{
  ℕ, ◌≡◌, refl, sym, ◌⊎◌, inl, inr, Bool, true, false, ◌&&◌, Option, none, some, List,
  if◌then◌else◌, Bool-cases, arith,
}
use dukapay.PauseGuard.{
  PauseStateSource, database, cache, memory, fail_closed, unloaded, PauseState, Pending, Cached,
  Row, Trip, answered, failed, lost, World, first_trip, spend, same_source, announce, apply_state,
  write_redis, mirror_to_cache, is_real, use_cached, fall_back_from_database, set_after,
  set_pause_state, row_paused, state_of_row, refresh, adopt_row, update_after,
  update_pause_state_from_database, ensure_row, initialize_inserted, initialize_created,
  initialize_pause_state, raise_fallback_alert,
}

abbrev pub is_waiting : Option Pending → Bool
is_waiting none = false
is_waiting (some p) = true

-- What keeps a pause: it is to be written, or the row says it.
abbrev pub IsBacked : World → Type 0
IsBacked w = (is_waiting w.pending_pause ≡ true) ⊎ (row_paused w.row ≡ true)

-- The guard is paused, by a state that a fallback respects, and the pause is backed.
abbrev pub IsHeld : World → Type 0
IsHeld w = ((w.state.is_paused ≡ true) × (is_real w.state.source ≡ true)) × IsBacked w

pub mirror_to_cache-IsHeld : (w : World) → IsHeld w → IsHeld (mirror_to_cache w)
unfolding mirror_to_cache
mirror_to_cache-IsHeld w h = go (first_trip w.trips)
  where
    go : (t : Trip) → IsHeld (write_redis t (spend w))
    go answered = h
    go failed = h
    go lost = h

raise_fallback_alert-IsHeld :
    (source : PauseStateSource) (w : World) → IsHeld w → IsHeld (raise_fallback_alert source w)
raise_fallback_alert-IsHeld source w h = elim (Bool-cases (same_source source w.alerted_source)) [
  | inl e ↦ rw e h
  | inr e ↦ rw e h
]

announce-IsHeld : (source : PauseStateSource) (w : World) → IsHeld w → IsHeld (announce source w)
announce-IsHeld database w h = h
announce-IsHeld cache w h = raise_fallback_alert-IsHeld cache w h
announce-IsHeld memory w h = raise_fallback_alert-IsHeld memory w h
announce-IsHeld fail_closed w h = raise_fallback_alert-IsHeld fail_closed w h
announce-IsHeld unloaded w h = raise_fallback_alert-IsHeld unloaded w h

pub apply_state-IsHeld :
    (next : PauseState) (w : World)
    → next.is_paused ≡ true
    → is_real next.source ≡ true
    → IsBacked w
    → IsHeld (apply_state next w)
unfolding apply_state
apply_state-IsHeld next w paused real backed =
    announce-IsHeld next.source _ ((paused, real), backed)

IsHeld-then : (c : Bool) (v w : World) → c ≡ true → IsHeld v → IsHeld (if c then v else w)
IsHeld-then true v w e h = h
IsHeld-then false v w e h = absurd (ground arith)

IsHeld-either : (c : Bool) (v w : World) → IsHeld v → IsHeld w → IsHeld (if c then v else w)
IsHeld-either true v w g h = g
IsHeld-either false v w g h = h

-- The fallback neither lifts a pause that is held nor forgets that it is to be written.
pub use_cached-IsHeld :
    (c : Option (Bool × Cached)) (w : World) → IsHeld w → IsHeld (use_cached c w)
use_cached-IsHeld none w h = rw (h.0.1) (apply_state-IsHeld _ w (h.0.0) refl (h.1))
use_cached-IsHeld (some (true, c)) w h =
    IsHeld-either (w.state.is_paused && false && is_real w.state.source) _ _
      (apply_state-IsHeld _ w (h.0.0) refl (h.1)) (apply_state-IsHeld _ w refl refl (h.1))
use_cached-IsHeld (some (false, c)) w h =
    IsHeld-then (w.state.is_paused && true && is_real w.state.source) _ _ (rw (h.0.0, h.0.1) refl)
      (apply_state-IsHeld _ w (h.0.0) refl (h.1))

-- A pause is held from the call on, whether its row could be written or not.
pub set_pause_state-IsHeld :
    (contracts : List ℕ) (reason : Option ℕ) (w : World)
    → IsHeld (set_pause_state true contracts reason w).1
unfolding set_pause_state
set_pause_state-IsHeld contracts reason w = go (first_trip w.trips)
  where
    go : (t : Trip) → IsHeld (set_after t true contracts reason (spend w)).1
    go answered = mirror_to_cache-IsHeld _ (apply_state-IsHeld _ _ refl refl (inr refl))
    go failed = mirror_to_cache-IsHeld _ (apply_state-IsHeld _ _ refl refl (inl refl))
    go lost = mirror_to_cache-IsHeld _ (apply_state-IsHeld _ _ refl refl (inl refl))

adopt_row-IsHeld : (w : World) → row_paused w.row ≡ true → IsHeld (adopt_row w)
adopt_row-IsHeld w paused =
    mirror_to_cache-IsHeld _
      (apply_state-IsHeld _ _ (by_row w.row paused) (source_of w.row) (inr paused))
  where
    by_row : (r : Option Row) → row_paused r ≡ true → (state_of_row r).is_paused ≡ true
    by_row none h = h
    by_row (some r) h = h

    source_of : (r : Option Row) → is_real (state_of_row r).source ≡ true
    source_of none = refl
    source_of (some r) = refl

refresh-IsHeld :
    (p : Option Pending) (w : World)
    → (is_waiting p ≡ true) ⊎ (row_paused w.row ≡ true)
    → IsHeld (refresh p w)
refresh-IsHeld none w (inl p) = absurd (ground arith)
refresh-IsHeld none w (inr r) = adopt_row-IsHeld w r
refresh-IsHeld (some p) w b = elim (Bool-cases (row_paused w.row)) [
  | inl e ↦ rw e (adopt_row-IsHeld w e)
  | inr e ↦ rw e (set_pause_state-IsHeld p.contracts p.reason w)
]

pub update_pause_state_from_database-IsHeld :
    (w : World) → IsHeld w → IsHeld (update_pause_state_from_database w)
unfolding update_pause_state_from_database fall_back_from_database
update_pause_state_from_database-IsHeld w h = go (first_trip w.trips)
  where
    fallen : IsHeld (fall_back_from_database (spend w))
    fallen = use_cached-IsHeld _ _ h

    go : (t : Trip) → IsHeld (update_after t (spend w))
    go answered = refresh-IsHeld w.pending_pause (spend w) (h.1)
    go failed = fallen
    go lost = fallen

pub initialize_pause_state-IsHeld : (w : World) → IsHeld w → IsHeld (initialize_pause_state w).1
unfolding initialize_pause_state
initialize_pause_state-IsHeld w h = created (first_trip w.trips)
  where
    backed : (r : Option Row) → row_paused r ≡ row_paused (ensure_row r)
    backed none = refl
    backed (some r) = refl

    same : (v : World) → IsHeld v → IsHeld (record v { row = ensure_row v.row })
    same v g = rw (sym (backed v.row)) g

    inserted : (t : Trip) (v : World) → IsHeld v → IsHeld (initialize_inserted t v).1
    inserted answered v g = update_pause_state_from_database-IsHeld _ (same v g)
    inserted failed v g = g
    inserted lost v g = same v g

    created : (t : Trip) → IsHeld (initialize_created t (spend w)).1
    created answered = inserted _ _ h
    created failed = h
    created lost = h
