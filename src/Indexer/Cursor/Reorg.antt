-- ===== src/Indexer/Cursor/Reorg.antt =====
-- The cursor after `rollbackFromLedger` and `detectAndRollbackReorg` of eventIndexer.ts.
use mathlib.Core.Path.{subst}
use dukapay.Base.{
  ℕ, ◌≡◌, refl, sym, true, false, Bool-cases, inl, inr, Option, none, some, List, [], ◌==◌, arith,
}
use dukapay.Base.Int.{ℤ}
use dukapay.Indexer.{
  RawEvent, IndexerState, Checkpoint, Db, World, Result, ok, err, pure, execute, bind_result, ◌>>=◌,
  ◌>>◌, with_transaction, max_retries,
}
use dukapay.Indexer.Ingest.{update_scores_if_any}
use dukapay.Indexer.Fetch.{Rpc, fetch_events_in_range, digest_events}
use dukapay.Indexer.Checkpoints.{latest_verified}
use dukapay.Indexer.Poll.{
  rollback_from_ledger, rollback_rows, lower_state, delete_checkpoints, orphaned_events,
  score_rollbacks, compare_digest, detect_from, detect_and_rollback_reorg,
}
use dukapay.Indexer.Keeps.{
  Keeps, Any, Keeps-bind_result, Keeps-query, Keeps-execute, Keeps-with_transaction,
}
use dukapay.Indexer.Rollback.{CursorAtMost}
use dukapay.Indexer.Cursor.{Bounded, updates-Bounded}

module _ (bound : ℕ) where
  lower_state-Bounded :
      (ledger : ℕ) (s : Option IndexerState) (db : Db)
      → db.state ≡ s
      → CursorAtMost bound s
      → Bounded bound (lower_state ledger db)
  lower_state-Bounded ledger none db e h = rw e tt
  lower_state-Bounded ledger (some s) db e h = rw e (omega arith)

  module _ (repayment_delta default_penalty : ℤ) (ledger : ℕ) where
    -- The last two statements of the callback.
    ranges_and_cursor-Bounded :
        (w : World)
        → Bounded bound w.db
        → Keeps (Bounded bound) Any (
            bind_result
              (execute
                (λ db. record db { checkpoints = delete_checkpoints ledger db.checkpoints })
                w)
              (λ _. execute (lower_state ledger)))
    ranges_and_cursor-Bounded w h =
        Keeps-query (Bounded bound)
          (λ db. (tt, record db { checkpoints = delete_checkpoints ledger db.checkpoints }))
          (λ _. execute (lower_state ledger)) Any w h h
          (λ v same.
            let before : Bounded bound v.db = subst (Bounded bound) (sym same) h in
            Keeps-execute (Bounded bound) (lower_state ledger) v before
              (lower_state-Bounded ledger v.db.state v.db refl before))

    scores_and_on-Bounded :
        (updates : List (ℕ × ℤ)) (w : World)
        → Bounded bound w.db
        → Keeps (Bounded bound) Any (
            bind_result (update_scores_if_any repayment_delta default_penalty updates w) (λ _ v.
              bind_result
                (execute
                  (λ db. record db { checkpoints = delete_checkpoints ledger db.checkpoints })
                  v)
                (λ _. execute (lower_state ledger))))
    scores_and_on-Bounded updates w h =
        Keeps-bind_result (Bounded bound) Any Any
          (update_scores_if_any repayment_delta default_penalty updates w)
          (λ _ v.
            bind_result
              (execute (λ db. record db { checkpoints = delete_checkpoints ledger db.checkpoints })
                v)
              (λ _. execute (lower_state ledger)))
          (updates-Bounded bound repayment_delta default_penalty updates w h)
          (λ a v k _. ranges_and_cursor-Bounded v k)

    rollback_rows-Bounded :
        (w : World)
        → Bounded bound w.db
        → Keeps (Bounded bound) Any (rollback_rows repayment_delta default_penalty ledger w)
    unfolding rollback_rows ◌>>=◌ ◌>>◌
    rollback_rows-Bounded w h =
        Keeps-query (Bounded bound) (λ db. (orphaned_events ledger db.events, db)) _ Any w h h
          (λ w1 e1.
            let h1 : Bounded bound w1.db = subst (Bounded bound) (sym e1) h in
            Keeps-query (Bounded bound) _ _ Any w1 h1 h1 (λ w2 e2.
              let h2 : Bounded bound w2.db = subst (Bounded bound) (sym e2) h1 in
              Keeps-query (Bounded bound) _ _ Any w2 h2 h2 (λ w3 e3.
                scores_and_on-Bounded
                  (score_rollbacks repayment_delta default_penalty
                    (orphaned_events ledger w.db.events) [])
                  w3 (subst (Bounded bound) (sym e3) h2))))

  module _ (repayment_delta default_penalty : ℤ) (rpc : Rpc) (hash : List RawEvent → ℕ)
      (pages depth batch threshold : ℕ) where
    compare_digest-Bounded :
        (c : Checkpoint) (digest : Option ℕ) (current : ℕ) (w : World)
        → Bounded bound w.db
        → Keeps (Bounded bound) Any (
            compare_digest repayment_delta default_penalty rpc hash pages depth batch threshold c
              digest current w)
    unfolding ◌>>◌ rollback_from_ledger
    compare_digest-Bounded c none current w h =
        Keeps-query (Bounded bound) _ (λ _. pure false) Any w h h
          (λ v same. (subst (Bounded bound) (sym same) h, tt))
    compare_digest-Bounded c (some digest) current w h = elim (Bool-cases (current == digest)) [
      | inl same ↦ rw same (h, tt)
      | inr other ↦ rw other (
          Keeps-bind_result (Bounded bound) Any Any
            (with_transaction max_retries
              (rollback_rows repayment_delta default_penalty c.range_start) w)
            (λ _. pure true)
            (Keeps-with_transaction (Bounded bound) max_retries
              (rollback_rows repayment_delta default_penalty c.range_start) w h
              (rollback_rows-Bounded repayment_delta default_penalty c.range_start))
            (λ a v k _. (k, tt)))
    ]

    fetched-Bounded :
        (c : Checkpoint) (r : Result (List RawEvent)) (w : World)
        → Bounded bound w.db
        → Keeps (Bounded bound) Any (
            bind_result
              (r, w)
              (λ events.
                compare_digest repayment_delta default_penalty rpc hash pages depth batch threshold
                  c c.range_digest
                  (digest_events hash events)))
    fetched-Bounded c (ok es) w h =
        compare_digest-Bounded c c.range_digest (digest_events hash es) w h
    fetched-Bounded c (err e) w h = h

    detect_from-Bounded :
        (c : Option Checkpoint) (w : World)
        → Bounded bound w.db
        → Keeps
            (Bounded bound)
            Any
            (detect_from repayment_delta default_penalty rpc hash pages depth batch threshold c w)
    unfolding ◌>>=◌
    detect_from-Bounded none w h = (h, tt)
    detect_from-Bounded (some c) w h =
        fetched-Bounded c (fetch_events_in_range rpc pages c.range_start c.range_end) w h

    pub detect_and_rollback_reorg-Bounded :
        (w : World)
        → Bounded bound w.db
        → Keeps (Bounded bound) Any (
            detect_and_rollback_reorg repayment_delta default_penalty rpc hash pages depth batch
              threshold w)
    unfolding detect_and_rollback_reorg ◌>>=◌
    detect_and_rollback_reorg-Bounded w h =
        Keeps-query (Bounded bound) (λ db. (latest_verified db.checkpoints, db)) _ Any w h h
          (λ v same.
            detect_from-Bounded (latest_verified w.db.checkpoints) v
              (subst (Bounded bound) (sym same) h))
