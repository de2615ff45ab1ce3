-- ===== src/PauseGuard/Alerts.antt =====
-- The alerts that a refresh raises.
use mathlib.Core.Path.{subst, sym}
use dukapay.Base.{
  ℕ, ◌≡◌, refl, Bool, true, false, not, ◌&&◌, Option, none, some, List, [], ◌∷◌, ◌++◌,
  if◌then◌else◌, Bool-cases, arith, inl, inr,
}
use dukapay.PauseGuard.{
  PauseStateSource, database, cache, memory, fail_closed, unloaded, PauseState, Pending, Cached,
  Trip, answered, failed, lost, World, first_trip, spend, apply_state, is_real, set_after,
  set_pause_state, row_paused, update_pause_state_from_database, fall_back_from_database,
  use_cached, mirror_to_cache, refresh, update_after, adopt_row, write_redis, announce,
  raise_fallback_alert, same_source,
}

-- The source that was alerted for after an answer from `source`: none if it is the database.
abbrev pub alerted_for : PauseStateSource → Option PauseStateSource
alerted_for database = none
alerted_for source = some source

-- One alert for a source that is not the database and was not alerted for last.
abbrev pub raised : PauseStateSource → Option PauseStateSource → List PauseStateSource
raised database before = []
raised source before = if same_source source before then [] else source ∷ []

-- `v` has the alerts of `w` and those that an answer from `source` adds.
abbrev pub IsAlertedFor : PauseStateSource → World → World → Type 0
IsAlertedFor source w v =
    (v.alerts ≡ raised source w.alerted_source ++ w.alerts)
    × (v.alerted_source ≡ alerted_for source)

-- The source is the one of which `v` says that its state came from.
abbrev pub IsAlerted : World → World → Type 0
IsAlerted w v = IsAlertedFor v.state.source w v

same_source_sound :
    (s : PauseStateSource) (o : Option PauseStateSource) → same_source s o ≡ true → o ≡ some s
same_source_sound s none e = absurd (ground arith)
same_source_sound database (some database) e = refl
same_source_sound cache (some cache) e = refl
same_source_sound memory (some memory) e = refl
same_source_sound fail_closed (some fail_closed) e = refl
same_source_sound unloaded (some unloaded) e = refl
same_source_sound s (some o) e = absurd (ground arith)

raise-IsAlertedFor :
    (s : PauseStateSource) (w : World)
    → ((raise_fallback_alert s w).alerts
        ≡ (if same_source s w.alerted_source then [] else s ∷ []) ++ w.alerts)
      × ((raise_fallback_alert s w).alerted_source ≡ some s)
raise-IsAlertedFor s w = elim (Bool-cases (same_source s w.alerted_source)) [
  | inl e ↦ let same = same_source_sound s w.alerted_source e in rw e (refl, same)
  | inr e ↦ rw e (refl, refl)
]

announce-IsAlertedFor : (s : PauseStateSource) (w : World) → IsAlertedFor s w (announce s w)
announce-IsAlertedFor database w = (refl, refl)
announce-IsAlertedFor cache w = raise-IsAlertedFor cache w
announce-IsAlertedFor memory w = raise-IsAlertedFor memory w
announce-IsAlertedFor fail_closed w = raise-IsAlertedFor fail_closed w
announce-IsAlertedFor unloaded w = raise-IsAlertedFor unloaded w

raise-source :
    (s : PauseStateSource) (w : World) → (raise_fallback_alert s w).state.source ≡ w.state.source
raise-source s w = elim (Bool-cases (same_source s w.alerted_source)) [
  | inl e ↦ rw e refl
  | inr e ↦ rw e refl
]

announce-source : (s : PauseStateSource) (w : World) → (announce s w).state.source ≡ w.state.source
announce-source database w = refl
announce-source cache w = raise-source cache w
announce-source memory w = raise-source memory w
announce-source fail_closed w = raise-source fail_closed w
announce-source unloaded w = raise-source unloaded w

apply_state-IsAlerted :
    (next : PauseState) (w v : World)
    → w.alerts ≡ v.alerts
    → w.alerted_source ≡ v.alerted_source
    → IsAlerted w (apply_state next v)
unfolding apply_state
apply_state-IsAlerted next w v same_alerts same_alerted =
    let v' : World = record v { state = record next { verified_at = some v.now } } in
    let told = announce-IsAlertedFor next.source v' in
    let source = announce-source next.source v' in
    let here : IsAlertedFor next.source w (announce next.source v') =
      (rw (same_alerts, same_alerted) (told.0), told.1) in
    subst (λ s. IsAlertedFor s w (announce next.source v')) (sym source) here

mirror_to_cache-IsAlerted : (w v : World) → IsAlerted w v → IsAlerted w (mirror_to_cache v)
unfolding mirror_to_cache
mirror_to_cache-IsAlerted w v h = go (first_trip v.trips)
  where
    go : (t : Trip) → IsAlerted w (write_redis t (spend v))
    go answered = h
    go failed = h
    go lost = h

either-IsAlerted :
    (c : Bool) (w u v : World) → IsAlerted w u → IsAlerted w v → IsAlerted w (if c then u else v)
either-IsAlerted true w u v g h = g
either-IsAlerted false w u v g h = h

adopt_row-IsAlerted : (w : World) → IsAlerted w (adopt_row w)
adopt_row-IsAlerted w = mirror_to_cache-IsAlerted w _ (apply_state-IsAlerted _ w _ refl refl)

set_pause_state-IsAlerted :
    (contracts : List ℕ) (reason : Option ℕ) (w : World)
    → IsAlerted w (set_pause_state true contracts reason w).1
unfolding set_pause_state
set_pause_state-IsAlerted contracts reason w = go (first_trip w.trips)
  where
    go : (t : Trip) → IsAlerted w (set_after t true contracts reason (spend w)).1
    go answered = mirror_to_cache-IsAlerted w _ (apply_state-IsAlerted _ w _ refl refl)
    go failed = mirror_to_cache-IsAlerted w _ (apply_state-IsAlerted _ w _ refl refl)
    go lost = mirror_to_cache-IsAlerted w _ (apply_state-IsAlerted _ w _ refl refl)

refresh-IsAlerted : (p : Option Pending) (w : World) → IsAlerted w (refresh p w)
refresh-IsAlerted none w = adopt_row-IsAlerted w
refresh-IsAlerted (some p) w =
    either-IsAlerted (row_paused w.row) w _ _ (adopt_row-IsAlerted w)
      (set_pause_state-IsAlerted p.contracts p.reason w)

use_cached-IsAlerted : (c : Option (Bool × Cached)) (w : World) → IsAlerted w (use_cached c w)
use_cached-IsAlerted none w =
    either-IsAlerted (is_real w.state.source) w _ _ (apply_state-IsAlerted _ w w refl refl)
      (apply_state-IsAlerted _ w w refl refl)
use_cached-IsAlerted (some (paused, c)) w =
    either-IsAlerted (w.state.is_paused && not paused && is_real w.state.source) w _ _
      (apply_state-IsAlerted _ w w refl refl) (apply_state-IsAlerted _ w w refl refl)

-- `updatePauseStateFromDatabase` raises one alert if its state came from elsewhere than the database
-- and the last alert was not for that source, and none otherwise; from then on that source is the
-- one alerted for, or none after an answer of the database.
pub update_pause_state_from_database-IsAlerted :
    (w : World) → IsAlerted w (update_pause_state_from_database w)
unfolding update_pause_state_from_database fall_back_from_database
update_pause_state_from_database-IsAlerted w = go (first_trip w.trips)
  where
    fallen : IsAlerted w (fall_back_from_database (spend w))
    fallen = use_cached-IsAlerted _ (spend (spend w))

    go : (t : Trip) → IsAlerted w (update_after t (spend w))
    go answered = refresh-IsAlerted w.pending_pause (spend w)
    go failed = fallen
    go lost = fallen
