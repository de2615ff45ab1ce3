-- ===== src/PauseGuard.antt =====
-- The pause guard that blocks writes while contracts are paused: backend/src/middleware/pauseGuard.ts.
-- A call is a function on the world: the module's variables, the row of `pause_state`, the copy in
-- Redis, and what each coming round trip does. Log lines and metrics are left out; the alerts are not.
use dukapay.Base.{
  ℕ, Bool, true, false, not, ◌&&◌, ◌||◌, Option, none, some, List, [], ◌∷◌, ◌==◌, if◌then◌else◌,
}
pub mod State
unfoldable pub use State.*
pub mod Holds
pub mod Survives
pub mod Decision
pub mod Alerts
mod Tests

-- The row that `setPauseState` upserts.
abbrev pub row_of : Bool → List ℕ → Option ℕ → ℕ → Row
row_of is_paused contracts reason now = record {
  is_paused = is_paused;
  paused_at = if is_paused then some now else none;
  reason = or_null reason;
  contracts = some contracts;
}

abbrev pub state_of : PauseStateSource → Bool → List ℕ → Option ℕ → ℕ → PauseState
state_of source is_paused contracts reason now = record {
  is_paused = is_paused;
  paused_at = if is_paused then some now else none;
  reason = or_null reason;
  contracts = contracts;
  source = source;
  verified_at = none;
}

-- The `try` of `setPauseState` after its query.
abbrev pub record_pause_state : Bool → List ℕ → Option ℕ → World → World
record_pause_state is_paused contracts reason w = mirror_to_cache (
    apply_state (state_of database is_paused contracts reason w.now)
      (record w { pending_pause = none }))

-- Its `catch`.
abbrev pub enforce_unrecorded : Bool → List ℕ → Option ℕ → World → World
enforce_unrecorded false contracts reason w = w
enforce_unrecorded true contracts reason w = mirror_to_cache (
    apply_state (state_of memory true contracts reason w.now) (record w {
      pending_pause = some (record { reason = or_null reason; contracts = contracts });
    }))

abbrev pub set_after : Trip → Bool → List ℕ → Option ℕ → World → Bool × World
set_after answered is_paused contracts reason w = (
  true,
  record_pause_state is_paused contracts reason
      (record w { row = some (row_of is_paused contracts reason w.now) }),
)
set_after failed is_paused contracts reason w =
    (false, enforce_unrecorded is_paused contracts reason w)
set_after lost is_paused contracts reason w = (
  false,
  enforce_unrecorded is_paused contracts reason
      (record w { row = some (row_of is_paused contracts reason w.now) }),
)

-- `setPauseState`; the flag says whether it returned, and not threw.
unfoldable pub set_pause_state : Bool → List ℕ → Option ℕ → World → Bool × World
set_pause_state is_paused contracts reason w =
    set_after (first_trip w.trips) is_paused contracts reason (spend w)

abbrev pub row_paused : Option Row → Bool
row_paused none = false
row_paused (some r) = r.is_paused

abbrev pub state_of_row : Option Row → PauseState
state_of_row none = record initial_state { source = database }
state_of_row (some r) = record {
  is_paused = r.is_paused;
  paused_at = r.paused_at;
  reason = r.reason;
  contracts = or_empty r.contracts;
  source = database;
  verified_at = none;
}

abbrev pub adopt_row : World → World
adopt_row w = mirror_to_cache (apply_state (state_of_row w.row) (record w { pending_pause = none }))

-- `updatePauseStateFromDatabase` once the database has answered.
abbrev pub refresh : Option Pending → World → World
refresh none w = adopt_row w
refresh (some p) w =
    if row_paused w.row then adopt_row w else (set_pause_state true p.contracts p.reason w).1

abbrev pub update_after : Trip → World → World
update_after answered w = refresh w.pending_pause w
update_after _ w = fall_back_from_database w

unfoldable pub update_pause_state_from_database : World → World
update_pause_state_from_database w = update_after (first_trip w.trips) (spend w)

pub data Method : Type 0 where
  get head options post put patch delete : Method

abbrev pub is_read_only : Method → Bool
is_read_only get = true
is_read_only head = true
is_read_only options = true
is_read_only _ = false

-- `pauseGuard`: whether the request goes on to the next handler; otherwise it throws 503.
unfoldable pub pause_guard : Method → World → Bool
pause_guard method w = is_read_only method || not w.state.is_paused

abbrev pub empty_row : Row
empty_row = record { is_paused = false; paused_at = none; reason = none; contracts = some [] }

-- INSERT … ON CONFLICT (id) DO NOTHING
abbrev pub ensure_row : Option Row → Option Row
ensure_row none = some empty_row
ensure_row (some r) = some r

abbrev pub initialize_inserted : Trip → World → Bool × World
initialize_inserted answered w =
    (true, update_pause_state_from_database (record w { row = ensure_row w.row }))
initialize_inserted failed w = (false, w)
initialize_inserted lost w = (false, record w { row = ensure_row w.row })

abbrev pub initialize_created : Trip → World → Bool × World
initialize_created answered w = initialize_inserted (first_trip w.trips) (spend w)
initialize_created _ w = (false, w)

-- `initializePauseState`; the table is taken to exist, so that creating it changes nothing.
unfoldable pub initialize_pause_state : World → Bool × World
initialize_pause_state w = initialize_created (first_trip w.trips) (spend w)

pub data Health : Type 0 where
  ok degraded unknown : Health

unfoldable pub health : PauseStateSource → Health
health database = ok
health unloaded = unknown
health _ = degraded
