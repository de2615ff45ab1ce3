-- ===== src/Indexer/Poll.antt =====
-- `rollbackFromLedger`, `detectAndRollbackReorg` and `pollOnce` of eventIndexer.ts.
use dukapay.Base.{
  ℕ, ◌+◌, ◌-◌, min, Bool, true, false, not, ◌&&◌, Option, none, some, List, [], ◌∷◌, ◌++◌, ltb, leb,
  ◌==◌, if◌then◌else◌,
}
use dukapay.Base.Int.{ℤ, pos, ◌-ℤ◌}
use dukapay.Indexer.{
  EventType, loan_repaid, loan_defaulted, collateral_liquidated, RawEvent, ContractEvent,
  AuditAction, AuditRow, reorg_reversal, Checkpoint, Db, M, ok, pure, query, execute, ◌>>=◌, ◌>>◌,
  with_transaction, max_retries,
}
use dukapay.Indexer.Ingest.{has_event, add_for, update_scores_if_any}
use dukapay.Indexer.Fetch.{Rpc, fetch_events_in_range, digest_events}
use dukapay.Indexer.Checkpoints.{
  latest_verified, is_range, update_where, record_checkpoint, get_last_indexed_ledger,
  update_last_indexed_ledger,
}
use dukapay.Indexer.Chunk.{lift, process_chunk, backfill_missing_ranges}

-- The rows of `ledger >= $2`.
unfoldable pub orphaned_events : ℕ → List ContractEvent → List ContractEvent
orphaned_events ledger [] = []
orphaned_events ledger (e ∷ es) =
    let rest = orphaned_events ledger es in if leb ledger e.ledger then e ∷ rest else rest

-- DELETE … WHERE ledger >= $2
unfoldable pub delete_events : ℕ → List ContractEvent → List ContractEvent
delete_events ledger [] = []
delete_events ledger (e ∷ es) =
    let rest = delete_events ledger es in if leb ledger e.ledger then rest else e ∷ rest

-- DELETE … WHERE range_end >= $2
unfoldable pub delete_checkpoints : ℕ → List Checkpoint → List Checkpoint
delete_checkpoints ledger [] = []
delete_checkpoints ledger (c ∷ cs) =
    let rest = delete_checkpoints ledger cs in if leb ledger c.range_end then rest else c ∷ rest

-- The row of a reversal has no `eventId` of its own.
abbrev pub is_reversal : AuditAction → Bool
is_reversal reorg_reversal = true
is_reversal _ = false

-- The audit rows of orphaned events, reversed.
unfoldable pub reversals : List ContractEvent → List AuditRow → List AuditRow
reversals orphans [] = []
reversals orphans (r ∷ rs) =
    let rest = reversals orphans rs in
    if not (is_reversal r.action) && has_event r.event_id orphans
    then record { actor = none; action = reorg_reversal; event_id = r.event_id } ∷ rest
    else rest

abbrev pub lower_state : ℕ → Db → Db
lower_state ledger db = elim db.state [
  | none ↦ db
  | some s ↦ record db {
    state = some (record {
      last_ledger = min s.last_ledger (ledger - 1);
      last_finalized_ledger = min s.last_finalized_ledger (ledger - 1);
    });
  }
]

module _ (repayment_delta default_penalty : ℤ) where
  abbrev pub rollback_delta : EventType → ContractEvent → List (ℕ × ℤ) → List (ℕ × ℤ)
  rollback_delta loan_repaid e us = add_for e.address (pos 0 -ℤ repayment_delta) us
  rollback_delta loan_defaulted e us = add_for e.address default_penalty us
  rollback_delta collateral_liquidated e us = add_for e.address default_penalty us
  rollback_delta _ e us = us

  unfoldable pub score_rollbacks : List ContractEvent → List (ℕ × ℤ) → List (ℕ × ℤ)
  score_rollbacks [] us = us
  score_rollbacks (e ∷ es) us = score_rollbacks es (rollback_delta e.event_type e us)

  -- The callback of the transaction.
  unfoldable pub rollback_rows : ℕ → M (Unit {0})
  rollback_rows ledger = do
    orphans ← query (λ db. (orphaned_events ledger db.events, db))
    execute (λ db. record db {
      audit_logs = db.audit_logs ++ reversals (orphaned_events ledger db.events) db.audit_logs;
    })
    execute (λ db. record db { events = delete_events ledger db.events })
    update_scores_if_any repayment_delta default_penalty (score_rollbacks orphans [])
    execute (λ db. record db { checkpoints = delete_checkpoints ledger db.checkpoints })
    execute (lower_state ledger)

  -- `rollbackFromLedger`.
  unfoldable pub rollback_from_ledger : ℕ → M (Unit {0})
  rollback_from_ledger ledger = with_transaction max_retries (rollback_rows ledger)

-- `recordLag`: the flag of the alert.
unfoldable pub record_lag : ℕ → ℕ → ℕ → M (Unit {0})
record_lag threshold last_finalized_ledger chain_tip w =
    let lag = chain_tip - last_finalized_ledger in
    let active =
      if ltb threshold lag && not w.lag_alert_active
      then true
      else (if leb lag threshold then false else w.lag_alert_active) in
    (ok tt, record w { lag_alert_active = active })

abbrev pub or_zero : Option ℕ → ℕ
or_zero none = 0
or_zero (some l) = l

module _ (repayment_delta default_penalty : ℤ) (rpc : Rpc) (hash : List RawEvent → ℕ)
    (pages finality_depth batch_size lag_alert_threshold : ℕ) where
  abbrev pub compare_digest : Checkpoint → Option ℕ → ℕ → M Bool
  compare_digest checkpoint none current = do
    execute (λ db. record db {
      checkpoints =
          update_where (is_range true checkpoint.range_start checkpoint.range_end)
            (λ c. record c { range_digest = some current }) db.checkpoints;
    })
    pure false
  compare_digest checkpoint (some digest) current =
      if current == digest
      then pure false
      else (rollback_from_ledger repayment_delta default_penalty checkpoint.range_start
          >> pure true)

  abbrev pub detect_from : Option Checkpoint → M Bool
  detect_from none = pure false
  detect_from (some checkpoint) = do
    events ← lift (fetch_events_in_range rpc pages checkpoint.range_start checkpoint.range_end)
    compare_digest checkpoint checkpoint.range_digest (digest_events hash events)

  -- `detectAndRollbackReorg`.
  unfoldable pub detect_and_rollback_reorg : M Bool
  detect_and_rollback_reorg = do
    checkpoint ← query (λ db. (latest_verified db.checkpoints, db))
    detect_from checkpoint

  abbrev pub poll_range : ℕ → ℕ → ℕ → M (Unit {0})
  poll_range from_ledger to_ledger latest_ledger = do
    result ← process_chunk repayment_delta default_penalty rpc hash pages from_ledger to_ledger
    record_checkpoint from_ledger result.last_processed_ledger result.range_digest
    update_last_indexed_ledger result.last_processed_ledger
    record_lag lag_alert_threshold result.last_processed_ledger latest_ledger

  abbrev pub poll_finalized : ℕ → ℕ → M (Unit {0})
  poll_finalized finalized_ledger latest_ledger = do
    reorg ← detect_and_rollback_reorg
    checkpoint_after_reorg ← get_last_indexed_ledger
    backfilled ←
        backfill_missing_ranges repayment_delta default_penalty rpc hash pages finalized_ledger
    if leb finalized_ledger checkpoint_after_reorg
        then record_lag lag_alert_threshold checkpoint_after_reorg latest_ledger
        else poll_range (checkpoint_after_reorg + 1)
            (min (checkpoint_after_reorg + 1 + batch_size - 1) finalized_ledger) latest_ledger

  -- `pollOnce`, when the indexer runs; a latest ledger 0 stands for an RPC that failed.
  unfoldable pub poll_once : M (Unit {0})
  poll_once = do
    last_indexed ← get_last_indexed_ledger
    let latest_ledger = or_zero rpc.latest
    if latest_ledger == 0
        then pure tt
        else poll_finalized (latest_ledger - finality_depth) latest_ledger
