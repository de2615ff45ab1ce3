-- ===== src/Indexer.antt =====
-- The event indexer: backend/src/services/eventIndexer.ts, with `withTransaction` of
-- backend/src/db/connection.ts and the `ledger_checkpoints` and `indexer_state` tables. One indexer runs,
-- for one contract list, so the tables have the rows of one `contract`.
use dukapay.Base.{
  ℕ, zero, suc, ◌+◌, ◌-◌, Bool, true, false, not, ◌&&◌, ◌||◌, Option, none, some, List, [], ◌∷◌,
  ◌++◌, leb, ltb, ◌==◌, if◌then◌else◌,
}
use dukapay.Base.Int.{ℤ}
use dukapay.Scores.{ScoreRow}
pub mod Ingest
pub mod Atomic
pub mod Stored
pub mod Complete
pub mod Rules
pub mod Checkpoints
pub mod Fetch
pub mod Chunk
pub mod Reindex
pub mod Poll
pub mod Keeps
pub mod Coverage
pub mod Rollback
pub mod Cursor
mod Tests

pub data EventType : Type 0 where
  loan_repaid loan_approved loan_defaulted collateral_liquidated loan_approv : EventType
  pool_paused pool_unpaused admin_config other_event : EventType

-- What the stores use of a parsed event. `admin_config` stands for each of ADMIN_CONFIG_EVENT_TYPES, and
-- `event_name` is the text of the type; an address 0 is the empty text.
pub record ContractEvent : Type 0 where
  pub event_id : ℕ
  pub event_type : EventType
  pub event_name : ℕ
  pub loan_id : Option ℕ
  pub address : Option ℕ
  pub admin_address : Option ℕ
  pub ledger : ℕ

-- What `parseEvent` makes of a raw event: null, an error, or an event.
pub data Parsed : Type 0 where
  ignored malformed : Parsed
  parsed : ContractEvent → Parsed

pub record RawEvent : Type 0 where
  pub id : ℕ
  pub ledger : ℕ
  pub parse : Parsed

pub data CheckpointStatus : Type 0 where
  verified suspect : CheckpointStatus

pub record Checkpoint : Type 0 where
  pub range_start : ℕ
  pub range_end : ℕ
  pub status : CheckpointStatus
  pub range_digest : Option ℕ

pub record IndexerState : Type 0 where
  pub last_ledger : ℕ
  pub last_finalized_ledger : ℕ

pub data AuditAction : Type 0 where
  admin_config loan_approved reorg_reversal : AuditAction

pub record AuditRow : Type 0 where
  pub actor : Option ℕ
  pub action : AuditAction
  pub event_id : ℕ

-- `has_event_columns` says whether `loan_events` has each column that the INSERT of `storeEvents` names. In
-- the view of backend/migrations/1788000000018_unified-contract-events.cjs `address`, `interest_rate_bps`
-- and `term_ledgers` are missing.
pub record Db : Type 0 where
  pub has_event_columns : Bool
  pub state : Option IndexerState
  pub checkpoints : List Checkpoint
  pub events : List ContractEvent
  pub quarantine : List ℕ
  pub audit_logs : List AuditRow
  pub scores : List ScoreRow

-- How a query ends: answered, refused, or with its effect but the answer lost. A transient error has one
-- of the codes after which `withTransaction` tries again.
pub data Trip : Type 0 where
  fine transient fatal lost_transient lost_fatal : Trip

-- The tables, the coming queries, what Redis holds of scores, the variables `insertedEvents` and
-- `scoreUpdates` of `storeEvents`, the events handed to webhooks, streams and notifications, and the flag
-- of the lag alert.
pub record World : Type 0 where
  pub db : Db
  pub trips : List Trip
  pub cached_scores : List ℕ
  pub cached_breakdowns : List ℕ
  pub inserted_events : List ContractEvent
  pub score_updates : List (ℕ × ℤ)
  pub dispatched : List ContractEvent
  pub lag_alert_active : Bool

-- `out_of_pages` stands for a fetch that has not come to its end.
pub data Error : Type 0 where
  transient_error fatal_error out_of_pages : Error

pub data Result (A : Type 0) : Type 0 where
  ok : A → Result A
  err : Error → Result A

abbrev pub M : Type 0 → Type 0
M A = World → Result A × World

module _ {A : Type 0} where
  abbrev pub pure : A → M A
  pure a w = (ok a, w)

  abbrev pub throw : Error → M A
  throw e w = (err e, w)

  abbrev pub run_query : Trip → (Db → A × Db) → World → Result A × World
  run_query fine f w = (ok ((f w.db).0), record w { db = (f w.db).1 })
  run_query transient f w = (err transient_error, w)
  run_query fatal f w = (err fatal_error, w)
  run_query lost_transient f w = (err transient_error, record w { db = (f w.db).1 })
  run_query lost_fatal f w = (err fatal_error, record w { db = (f w.db).1 })

  abbrev pub query_with : List Trip → (Db → A × Db) → World → Result A × World
  query_with [] f w = run_query fine f w
  query_with (t ∷ ts) f w = run_query t f (record w { trips = ts })

  -- One `await query(…)`.
  unfoldable pub query : (Db → A × Db) → M A
  query f w = query_with w.trips f w

infixl 5 ◌>>=◌ ◌>>◌
abbrev pub bind_result : {A B : Type 0} → Result A × World → (A → M B) → Result B × World
bind_result (ok a, w) f = f a w
bind_result (err e, w) f = (err e, w)

unfoldable pub ◌>>=◌ : {A B : Type 0} → M A → (A → M B) → M B
◌>>=◌ m f w = bind_result (m w) f

unfoldable pub ◌>>◌ : {B : Type 0} → M (Unit {0}) → M B → M B
◌>>◌ m k w = bind_result (m w) (λ _. k)

-- A statement that only changes the tables.
abbrev pub execute : (Db → Db) → M (Unit {0})
execute f = query (λ db. (tt, f db))

abbrev pub later_trips : List Trip → List Trip
later_trips [] = []
later_trips (t ∷ ts) = ts

-- ROLLBACK puts the tables back, and not the variables of the program. Its own failure is logged: the
-- server gives a transaction up whose connection is lost.
abbrev pub rolled_back : Db → World → World
rolled_back db w = record w { db = db; trips = later_trips w.trips }

module _ {A : Type 0} where
  -- COMMIT. Where only its answer is lost, the tables are changed, and the ROLLBACK after it finds no
  -- transaction.
  abbrev pub after_commit : Db → A → Trip → World → Result A × World
  after_commit before a fine w = (ok a, w)
  after_commit before a transient w = (err transient_error, rolled_back before w)
  after_commit before a fatal w = (err fatal_error, rolled_back before w)
  after_commit before a lost_transient w = (err transient_error, rolled_back w.db w)
  after_commit before a lost_fatal w = (err fatal_error, rolled_back w.db w)

  abbrev pub commit : Db → A → List Trip → World → Result A × World
  commit before a [] w = (ok a, w)
  commit before a (t ∷ ts) w = after_commit before a t (record w { trips = ts })

  -- The end of a round, after BEGIN and the operations.
  abbrev pub concluded : Db → Result A × World → Result A × World
  concluded before (ok a, w) = commit before a w.trips w
  concluded before (err e, w) = (err e, rolled_back before w)

  -- One round of the loop of `withTransaction`.
  unfoldable pub attempt : M A → M A
  attempt m w = concluded w.db ((execute (λ db. db) >> m) w)

  abbrev pub retry_or : M A → Result A × World → Result A × World
  retry_or again (err transient_error, w) = again w
  retry_or again r = r

  -- `withTransaction`, with the retries that are left.
  unfoldable pub with_transaction : ℕ → M A → M A
  with_transaction zero m w = attempt m w
  with_transaction (suc retries) m w = retry_or (with_transaction retries m) (attempt m w)

abbrev pub max_retries : ℕ
max_retries = 3
