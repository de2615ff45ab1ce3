-- ===== src/Indexer/Rollback.antt =====
-- `rollbackFromLedger` of eventIndexer.ts is all or nothing.
use mathlib.Core.Path.{subst}
use dukapay.Base.{
  ℕ, ◌-◌, ◌≡◌, ◌≤◌, ◌<◌, refl, sym, Bool-cases, inl, inr, Option, none, some, List, [], ◌∷◌, All,
  leb, arith,
}
use dukapay.Base.Int.{ℤ}
use dukapay.Indexer.{
  ContractEvent, IndexerState, Checkpoint, Db, World, M, Result, execute, bind_result, ◌>>=◌, ◌>>◌,
  max_retries,
}
use dukapay.Indexer.Ingest.{update_scores_if_any}
use dukapay.Indexer.Atomic.{Atomic, with_transaction-Atomic}
use dukapay.Indexer.Rules.{OnOk, OnOk-bind_result, OnOk-query, OnOk-execute_to}
use dukapay.Indexer.Checkpoints.{cursor_of}
use dukapay.Indexer.Poll.{
  orphaned_events, delete_events, delete_checkpoints, lower_state, score_rollbacks, rollback_rows,
  rollback_from_ledger,
}

-- The cursor, if the table has one, is at most a ledger.
abbrev pub CursorAtMost : ℕ → Option IndexerState → Type 0
CursorAtMost bound none = Unit {0}
CursorAtMost bound (some s) = cursor_of s ≤ bound

module _ (ledger : ℕ) where
  -- No event, no range and no cursor is left from the ledger on.
  abbrev pub IsRolledBack : Db → Type 0
  IsRolledBack db =
      All (λ e. e.ledger < ledger) db.events
      × (All (λ c. c.range_end < ledger) db.checkpoints × CursorAtMost (ledger - 1) db.state)

  delete_events-All :
      (es : List ContractEvent) → All (λ e. e.ledger < ledger) (delete_events ledger es)
  unfolding delete_events
  delete_events-All [] = tt
  delete_events-All (e ∷ es) = elim (Bool-cases (leb ledger e.ledger)) [
    | inl late ↦ rw late (delete_events-All es)
    | inr early ↦ rw early (ground arith, delete_events-All es)
  ]

  delete_checkpoints-All :
      (cs : List Checkpoint) → All (λ c. c.range_end < ledger) (delete_checkpoints ledger cs)
  unfolding delete_checkpoints
  delete_checkpoints-All [] = tt
  delete_checkpoints-All (c ∷ cs) = elim (Bool-cases (leb ledger c.range_end)) [
    | inl late ↦ rw late (delete_checkpoints-All cs)
    | inr early ↦ rw early (ground arith, delete_checkpoints-All cs)
  ]

  lower_state-IsRolledBack :
      (state : Option IndexerState) (db : Db)
      → db.state ≡ state
      → All (λ e. e.ledger < ledger) db.events
      → All (λ c. c.range_end < ledger) db.checkpoints
      → IsRolledBack (lower_state ledger db)
  lower_state-IsRolledBack none db e h k = rw e (h, (k, tt))
  lower_state-IsRolledBack (some s) db e h k = rw e (h, (k, omega arith))

  -- The conditions between the statements of the callback.
  abbrev NoEvents : Db → Type 0
  NoEvents db = All (λ e. e.ledger < ledger) db.events

  abbrev NoRanges : Db → Type 0
  NoRanges db = NoEvents db × All (λ c. c.range_end < ledger) db.checkpoints

  module _ (repayment_delta default_penalty : ℤ) where
    updates-NoEvents :
        (updates : List (ℕ × ℤ)) (w : World)
        → NoEvents w.db
        → OnOk
            (λ a v. NoEvents v.db)
            (update_scores_if_any repayment_delta default_penalty updates w)
    unfolding ◌>>◌
    updates-NoEvents [] w h = h
    updates-NoEvents (u ∷ us) w h =
        OnOk-query (λ db. (tt, db)) _ (λ a v. NoEvents v.db) w
          (λ v same. subst NoEvents (sym same) h)

    -- The last two statements.
    ranges_and_cursor : M (Unit {0})
    unfolding ◌>>◌
    ranges_and_cursor =
        execute (λ db. record db { checkpoints = delete_checkpoints ledger db.checkpoints })
        >> execute (lower_state ledger)

    ranges_and_cursor-OnOk :
        (w : World) → NoEvents w.db → OnOk (λ a v. IsRolledBack v.db) (ranges_and_cursor w)
    unfolding ◌>>◌ ranges_and_cursor
    ranges_and_cursor-OnOk w gone =
        OnOk-query
          (λ db. (tt, record db { checkpoints = delete_checkpoints ledger db.checkpoints }))
          (λ _. execute (lower_state ledger)) (λ a v. IsRolledBack v.db) w
          (λ v cut.
            let none_left : NoRanges v.db =
              subst NoRanges (sym cut) (gone, delete_checkpoints-All w.db.checkpoints) in
            OnOk-execute_to IsRolledBack (lower_state ledger) v
              (lower_state-IsRolledBack v.db.state v.db refl none_left.0 none_left.1))

    scores_and_on-OnOk :
        (updates : List (ℕ × ℤ)) (w : World)
        → NoEvents w.db
        → OnOk
            (λ a v. IsRolledBack v.db)
            (bind_result
              (update_scores_if_any repayment_delta default_penalty updates w)
              (λ _. ranges_and_cursor))
    scores_and_on-OnOk updates w gone =
        OnOk-bind_result (λ a v. NoEvents v.db) (λ a v. IsRolledBack v.db)
          (update_scores_if_any repayment_delta default_penalty updates w) (λ _. ranges_and_cursor)
          (updates-NoEvents updates w gone) (λ a v h. ranges_and_cursor-OnOk v h)

    rollback_rows-OnOk :
        (w : World)
        → OnOk (λ a v. IsRolledBack v.db) (rollback_rows repayment_delta default_penalty ledger w)
    unfolding rollback_rows ◌>>=◌ ◌>>◌ ranges_and_cursor
    rollback_rows-OnOk w =
        OnOk-query (λ db. (orphaned_events ledger db.events, db)) _ (λ a v. IsRolledBack v.db) w
          (λ w1 _.
            OnOk-query _ _ (λ a v. IsRolledBack v.db) w1
              (λ w2 _.
                OnOk-query (λ db. (tt, record db { events = delete_events ledger db.events })) _
                  (λ a v. IsRolledBack v.db) w2
                  (λ w3 deleted.
                    scores_and_on-OnOk
                      (score_rollbacks repayment_delta default_penalty
                        (orphaned_events ledger w.db.events) [])
                      w3 (subst NoEvents (sym deleted) (delete_events-All w2.db.events)))))

    -- How a run ends that either did its work or changed no table, where one that throws may have done
    -- either.
    abbrev pub AllOrNothing : Db → Result (Unit {0}) × World → Type 0
    AllOrNothing before r = Atomic IsRolledBack before r

    -- `rollbackFromLedger` is all or nothing, whatever statements fail and however often the
    -- transaction is tried again: when it returns, no event and no checkpoint reaches the ledger, and
    -- the cursor is at most the ledger before it, or 0; when it throws, every table is as before, or, where
    -- the answer of a COMMIT was lost, all this is done.
    pub rollback_from_ledger-AllOrNothing :
        (w : World)
        → AllOrNothing w.db (rollback_from_ledger repayment_delta default_penalty ledger w)
    unfolding rollback_from_ledger
    rollback_from_ledger-AllOrNothing =
        with_transaction-Atomic IsRolledBack max_retries
          (rollback_rows repayment_delta default_penalty ledger) rollback_rows-OnOk
