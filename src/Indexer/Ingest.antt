-- ===== src/Indexer/Ingest.antt =====
-- `storeEvents` of eventIndexer.ts.
use dukapay.Base.{
  ℕ, Bool, true, false, Option, none, some, List, [], ◌∷◌, ◌++◌, ◌==◌, ◌&&◌, ◌||◌, not, any,
  if◌then◌else◌, length,
}
use dukapay.Base.Int.{ℤ, pos, ◌+ℤ◌, ◌-ℤ◌}
use dukapay.Scores
use dukapay.Scores.{ScoreRow, update_user_scores_bulk}
use dukapay.Indexer.{
  EventType, loan_repaid, loan_defaulted, collateral_liquidated, loan_approv, pool_paused,
  pool_unpaused, ContractEvent, Parsed, ignored, malformed, parsed, RawEvent, AuditAction, AuditRow,
  Db, World, M, pure, throw, fatal_error, query, execute, ◌>>=◌, ◌>>◌, with_transaction,
  max_retries, Result, ok,
}

unfoldable pub has_event : ℕ → List ContractEvent → Bool
has_event id [] = false
has_event id (e ∷ es) = if e.event_id == id then true else has_event id es

-- A NULL is equal to nothing.
unfoldable pub is_same_loan : Option ℕ → Option ℕ → Bool
is_same_loan none _ = false
is_same_loan (some a) none = false
is_same_loan (some a) (some b) = a == b

-- The types of the index `loan_events_unique_status_event_per_loan`.
abbrev pub is_status_event : EventType → Bool
is_status_event EventType.loan_approved = true
is_status_event loan_defaulted = true
is_status_event _ = false

-- Whether a row has one of the unique keys of the event: the `event_id`, the `loan_id` with the type and
-- the ledger, and for a status event the `loan_id` with the type.
unfoldable pub conflicts : ContractEvent → ContractEvent → Bool
conflicts e r =
    (r.event_id == e.event_id)
    || (is_same_loan r.loan_id e.loan_id
        && ((r.event_name == e.event_name)
            && ((r.ledger == e.ledger) || is_status_event e.event_type)))

-- INSERT INTO loan_events … ON CONFLICT DO NOTHING RETURNING event_id: whether a row was inserted, none
-- when the statement is refused for a column that is not there.
unfoldable pub insert_event : ContractEvent → Db → Option Bool × Db
insert_event e db =
    if not db.has_event_columns
    then (none, db)
    else if any (conflicts e) db.events
    then (some false, db)
    else (some true, record db { events = db.events ++ e ∷ [] })

-- `map.set(user, (map.get(user) ?? 0) + delta)`
unfoldable pub add_delta : ℕ → ℤ → List (ℕ × ℤ) → List (ℕ × ℤ)
add_delta user delta [] = (user, pos 0 +ℤ delta) ∷ []
add_delta user delta ((u, z) ∷ us) =
    if u == user then (u, z +ℤ delta) ∷ us else (u, z) ∷ add_delta user delta us

-- An address that is missing or empty has no score.
abbrev pub add_for : Option ℕ → ℤ → List (ℕ × ℤ) → List (ℕ × ℤ)
add_for none delta us = us
add_for (some a) delta us = if a == 0 then us else add_delta a delta us

-- The rows of `audit_logs` that an inserted event adds.
abbrev pub audit_rows : EventType → ContractEvent → List AuditRow
audit_rows EventType.admin_config e =
    record { actor = e.address; action = AuditAction.admin_config; event_id = e.event_id } ∷ []
audit_rows loan_approv e =
    record { actor = e.admin_address; action = AuditAction.loan_approved; event_id = e.event_id }
    ∷ []
audit_rows _ e = []

abbrev pub audit_all : List AuditRow → M (Unit {0})
audit_all [] = pure tt
audit_all (r ∷ rs) =
    execute (λ db. record db { audit_logs = db.audit_logs ++ r ∷ [] }) >> audit_all rs

abbrev pub note_inserted : ContractEvent → M (Unit {0})
note_inserted e w = (ok tt, record w { inserted_events = w.inserted_events ++ e ∷ [] })

abbrev pub is_pause : EventType → Bool
is_pause pool_paused = true
is_pause pool_unpaused = true
is_pause _ = false

-- `setPauseState`, of which the loop sees that its statement fails.
abbrev pub pause_for : ContractEvent → M (Unit {0})
pause_for e = if is_pause e.event_type then execute (λ db. db) else pure tt

-- The loop after the commit: webhooks, streams and notifications, whose failures are caught, and the
-- pause state, whose failure is not.
unfoldable pub dispatch_events : List ContractEvent → M (Unit {0})
dispatch_events [] = pure tt
dispatch_events (e ∷ es) = do
  λ w. (ok tt, record w { dispatched = w.dispatched ++ e ∷ [] })
  pause_for e
  dispatch_events es

abbrev pub reset_accumulators : M (Unit {0})
reset_accumulators w = (ok tt, record w { inserted_events = []; score_updates = [] })

unfoldable pub parsed_events : List RawEvent → List ContractEvent
parsed_events [] = []
parsed_events (r ∷ rs) =
    let rest = parsed_events rs in
    elim r.parse [ ignored ↦ rest | malformed ↦ rest | parsed e ↦ e ∷ rest ]

unfoldable pub has_id : ℕ → List ℕ → Bool
has_id id [] = false
has_id id (k ∷ ks) = if k == id then true else has_id id ks

-- `quarantineEvent`: a query that fails is logged.
abbrev pub swallow : Result (Unit {0}) × World → Result (Unit {0}) × World
swallow (r, w) = (ok tt, w)

abbrev pub quarantine_event : RawEvent → M (Unit {0})
quarantine_event r w = swallow (
    execute
      (λ db.
        if has_id r.id db.quarantine
        then db
        else record db { quarantine = db.quarantine ++ r.id ∷ [] })
      w)

abbrev pub quarantine_if : Parsed → RawEvent → M (Unit {0})
quarantine_if malformed r = quarantine_event r
quarantine_if _ r = pure tt

unfoldable pub quarantine_all : List RawEvent → M (Unit {0})
quarantine_all [] = pure tt
quarantine_all (r ∷ rs) = quarantine_if r.parse r >> quarantine_all rs

unfoldable pub has_malformed : List RawEvent → Bool
has_malformed [] = false
has_malformed (r ∷ rs) = elim r.parse [ malformed ↦ true | _ ↦ has_malformed rs ]

-- `logQuarantineGrowth`: a query for a count, which may fail.
abbrev pub log_quarantine_growth : Bool → M (Unit {0})
log_quarantine_growth true w = swallow (execute (λ db. db) w)
log_quarantine_growth false w = (ok tt, w)

-- The malformed events, in quarantine before anything else.
unfoldable pub quarantine_malformed : List RawEvent → M (Unit {0})
quarantine_malformed rs = quarantine_all rs >> log_quarantine_growth (has_malformed rs)

-- `sorobanService.getScoreConfig()`.
module _ (repayment_delta default_penalty : ℤ) where
  abbrev pub event_delta : EventType → ContractEvent → List (ℕ × ℤ) → List (ℕ × ℤ)
  event_delta loan_repaid e us = add_for e.address repayment_delta us
  event_delta loan_defaulted e us = add_for e.address (pos 0 -ℤ default_penalty) us
  event_delta collateral_liquidated e us = add_for e.address (pos 0 -ℤ default_penalty) us
  event_delta _ e us = us

  abbrev pub note_delta : ContractEvent → M (Unit {0})
  note_delta e w = (ok tt, record w { score_updates = event_delta e.event_type e w.score_updates })

  abbrev pub after_insert : Option Bool → ContractEvent → M (Unit {0})
  after_insert none e = throw fatal_error
  after_insert (some false) e = pure tt
  after_insert (some true) e = do
    note_inserted e
    audit_all (audit_rows e.event_type e)
    note_delta e

  -- The loop of the transaction.
  unfoldable pub insert_events : List ContractEvent → M (Unit {0})
  insert_events [] = pure tt
  insert_events (e ∷ es) = do
    inserted ← query (insert_event e)
    after_insert inserted e
    insert_events es

  abbrev pub scores_world : World → Scores.World
  scores_world w = record {
    scores = w.db.scores;
    cached_scores = w.cached_scores;
    cached_breakdowns = w.cached_breakdowns;
  }

  abbrev pub put_scores : Scores.World → World → World
  put_scores s w = record w {
    db = record w.db { scores = s.scores };
    cached_scores = s.cached_scores;
    cached_breakdowns = s.cached_breakdowns;
  }

  -- `updateUserScoresBulk(updates, client)`: its query, and then the rows and the cache.
  abbrev pub update_scores : List (ℕ × ℤ) → M (Unit {0})
  update_scores updates = do
    execute (λ db. db)
    λ w. (ok tt, put_scores (update_user_scores_bulk updates false (scores_world w)).1 w)

  abbrev pub update_scores_if_any : List (ℕ × ℤ) → M (Unit {0})
  update_scores_if_any [] = pure tt
  update_scores_if_any (u ∷ us) = update_scores (u ∷ us)

  -- The callback of `withTransaction`; its accumulators are variables of `storeEvents`.
  unfoldable pub store_rows : List ContractEvent → M (Unit {0})
  store_rows es = insert_events es >> (λ w. update_scores_if_any w.score_updates w)

  abbrev pub store_parsed : List ContractEvent → M ℕ
  store_parsed [] = pure 0
  store_parsed (e ∷ es) = do
    with_transaction max_retries (store_rows (e ∷ es))
    λ w. dispatch_events w.inserted_events w
    λ w. (ok (length w.inserted_events), w)

  -- `storeEvents`: the number of inserted events.
  unfoldable pub store_events : List RawEvent → M ℕ
  store_events rs = do quarantine_malformed rs; reset_accumulators; store_parsed (parsed_events rs)
