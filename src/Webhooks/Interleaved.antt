-- ===== src/Webhooks/Interleaved.antt =====
-- The webhook service at work: backend/src/services/webhookRetryProcessor.ts starts a run of
-- `processRetries` every ten seconds, also while another one is under way, and events are dispatched
-- meanwhile. A round of the loop over the rows is one step: its request changes no table.
use dukapay.Base.{ℕ, zero, suc, ◌+◌, Bool, true, false, List, [], ◌∷◌, ◌++◌}
use dukapay.Webhooks.{World, Env, Payload}
use dukapay.Webhooks.Retry.{RetryRow, selected, ask_selected, retry_row}
use dukapay.Webhooks.Dispatch.{dispatch}

-- The world, and for each run the rows that are left.
pub record Service : Type 0 where
  pub world : World
  pub runs : List (List RetryRow)

pub data ServiceEvent : Type 0 where
  starts : ServiceEvent
  advances : ℕ → ServiceEvent
  dispatches : Payload → ServiceEvent
  waits : ℕ → ServiceEvent

abbrev pub start : List (List RetryRow) → Bool × World → Service
start runs (true, w) = record { world = w; runs = runs ++ (selected w ∷ []) }
start runs (false, w) = record { world = w; runs = runs }

-- An error ends a run.
abbrev pub rows_left : List RetryRow → Bool → List RetryRow
rows_left rows true = rows
rows_left rows false = []

module _ (env : Env) where
  abbrev pub advance_run : List RetryRow → World → List RetryRow × World
  advance_run [] w = ([], w)
  advance_run (row ∷ rows) w =
      let (returned, v) = retry_row env row w in (rows_left rows returned, v)

  unfoldable pub advance_at : ℕ → List (List RetryRow) → World → List (List RetryRow) × World
  advance_at i [] w = ([], w)
  advance_at zero (rows ∷ runs) w = let (left, v) = advance_run rows w in (left ∷ runs, v)
  advance_at (suc i) (rows ∷ runs) w = let (left, v) = advance_at i runs w in (rows ∷ left, v)

  unfoldable pub happen : ServiceEvent → Service → Service
  happen starts s = start s.runs (ask_selected env s.world)
  happen (advances i) s =
      let (runs, v) = advance_at i s.runs s.world in record { world = v; runs = runs }
  happen (dispatches event) s = record s { world = dispatch env event s.world }
  happen (waits d) s = record s { world = record s.world { now = s.world.now + d } }

  unfoldable pub happen_all : List ServiceEvent → Service → Service
  happen_all [] s = s
  happen_all (e ∷ es) s = happen_all es (happen e s)
