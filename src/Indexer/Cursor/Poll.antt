-- ===== src/Indexer/Cursor/Poll.antt =====
-- The cursor after the statements of `pollOnce` of eventIndexer.ts.
use mathlib.Core.Path.{subst}
use dukapay.Base.{
  ℕ, ◌+◌, ◌-◌, min, ◌≤◌, refl, sym, Bool, true, false, Bool-cases, inl, inr, Option, none, some,
  List, leb, ltb, ◌==◌, arith, if◌then◌else◌,
}
use dukapay.Base.Int.{ℤ}
use dukapay.Indexer.{RawEvent, verified, suspect, IndexerState, World, pure, execute, ◌>>=◌, ◌>>◌}
use dukapay.Indexer.Fetch.{Rpc}
use dukapay.Indexer.Checkpoints.{
  advance, insert_state, add_checkpoint, latest_range_end, insert_gap, record_checkpoint,
  get_last_indexed_ledger, or_insert_state, update_last_indexed_ledger,
}
use dukapay.Indexer.Chunk.{process_chunk, backfill_missing_ranges}
use dukapay.Indexer.Poll.{
  record_lag, or_zero, detect_and_rollback_reorg, poll_range, poll_finalized, poll_once,
}
use dukapay.Indexer.Keeps.{Keeps, Any, Keeps-db, Keeps-bind_result, Keeps-query, Keeps-execute}
use dukapay.Indexer.Rollback.{CursorAtMost}
use dukapay.Indexer.Cursor.Reorg.{detect_and_rollback_reorg-Bounded}
use dukapay.Indexer.Cursor.Chunk.{EndsAt, process_chunk-Bounded, backfill_missing_ranges-Bounded}
use dukapay.Indexer.Cursor.{Bounded, leave}

module _ (bound : ℕ) where
  or_insert_state-Bounded :
      (s : Option IndexerState) (w : World)
      → Bounded bound w.db
      → CursorAtMost bound s
      → Keeps (Bounded bound) (λ c. c ≤ bound) (or_insert_state s w)
  unfolding ◌>>◌
  or_insert_state-Bounded none w h s =
      Keeps-query (Bounded bound) (λ db. (tt, insert_state 0 db)) _ (λ c. c ≤ bound) w h
        (omega arith) (λ v same. (subst (Bounded bound) (sym same) (omega arith), omega arith))
  or_insert_state-Bounded (some s) w h le = (h, le)

  get_last_indexed_ledger-Bounded :
      (w : World)
      → Bounded bound w.db
      → Keeps (Bounded bound) (λ c. c ≤ bound) (get_last_indexed_ledger w)
  unfolding get_last_indexed_ledger ◌>>=◌
  get_last_indexed_ledger-Bounded w h =
      Keeps-query (Bounded bound) (λ db. (db.state, db)) _ (λ c. c ≤ bound) w h h
        (λ v same. or_insert_state-Bounded w.db.state v (subst (Bounded bound) (sym same) h) h)

  advance-CursorAtMost :
      (ledger : ℕ) (s : Option IndexerState)
      → ledger ≤ bound
      → CursorAtMost bound s
      → CursorAtMost bound (advance ledger s).1
  advance-CursorAtMost ledger none le h = tt
  advance-CursorAtMost ledger (some s) le h = omega arith

  insert_if :
      (b : Bool) (ledger : ℕ) (w : World)
      → ledger ≤ bound
      → Bounded bound w.db
      → Keeps (Bounded bound) Any ((if b then execute (insert_state ledger) else pure tt) w)
  insert_if true ledger w le h = Keeps-execute (Bounded bound) (insert_state ledger) w h le
  insert_if false ledger w le h = (h, tt)

  update_last_indexed_ledger-Bounded :
      (ledger : ℕ) (w : World)
      → ledger ≤ bound
      → Bounded bound w.db
      → Keeps (Bounded bound) Any (update_last_indexed_ledger ledger w)
  unfolding update_last_indexed_ledger ◌>>=◌
  update_last_indexed_ledger-Bounded ledger w le h =
      Keeps-query (Bounded bound)
        (λ db. ((advance ledger db.state).0, record db { state = (advance ledger db.state).1 })) _
        Any w h (advance-CursorAtMost ledger w.db.state le h)
        (λ v same.
          insert_if ((advance ledger w.db.state).0 == 0) ledger v le
            (subst (Bounded bound) (sym same) (advance-CursorAtMost ledger w.db.state le h)))

  insert_gap-Bounded :
      (previous : Option ℕ) (start : ℕ) (w : World)
      → Bounded bound w.db
      → Keeps (Bounded bound) Any (insert_gap previous start w)
  insert_gap-Bounded none start w h = (h, tt)
  insert_gap-Bounded (some p) start w h = elim (Bool-cases (ltb (p + 1) start)) [
    | inl far ↦ rw far (
        leave bound
          (add_checkpoint (record {
            range_start = p + 1;
            range_end = start - 1;
            status = suspect;
            range_digest = none;
          }))
          w refl h)
    | inr near ↦ rw near (h, tt)
  ]

  record_checkpoint-Bounded :
      (range_start range_end digest : ℕ) (w : World)
      → Bounded bound w.db
      → Keeps (Bounded bound) Any (record_checkpoint range_start range_end digest w)
  unfolding record_checkpoint ◌>>=◌ ◌>>◌
  record_checkpoint-Bounded s e d w h =
      Keeps-query (Bounded bound) (λ db. (latest_range_end db.checkpoints, db)) _ Any w h h
        (λ v same.
          Keeps-bind_result (Bounded bound) Any Any
            (insert_gap (latest_range_end w.db.checkpoints) s v) _
            (insert_gap-Bounded (latest_range_end w.db.checkpoints) s v
              (subst (Bounded bound) (sym same) h))
            (λ a u k _.
              leave bound
                (add_checkpoint (record {
                  range_start = s;
                  range_end = e;
                  status = verified;
                  range_digest = some d;
                }))
                u refl k))

  module _ (repayment_delta default_penalty : ℤ) (rpc : Rpc) (hash : List RawEvent → ℕ)
      (pages depth batch threshold : ℕ) where
    poll_range-Bounded :
        (from to latest : ℕ) (w : World)
        → to ≤ bound
        → from - 1 ≤ bound
        → Bounded bound w.db
        → Keeps (Bounded bound) Any (
            poll_range repayment_delta default_penalty rpc hash pages depth batch threshold from to
              latest w)
    unfolding ◌>>=◌ ◌>>◌ record_lag
    poll_range-Bounded from to latest w hi lo h =
        Keeps-bind_result (Bounded bound)
          (EndsAt bound repayment_delta default_penalty rpc hash pages from to) Any
          (process_chunk repayment_delta default_penalty rpc hash pages from to w) _
          (process_chunk-Bounded bound repayment_delta default_penalty rpc hash pages from to w h)
          (λ r v k ends.
            Keeps-bind_result (Bounded bound) Any Any
              (record_checkpoint from r.last_processed_ledger r.range_digest v) _
              (record_checkpoint-Bounded from r.last_processed_ledger r.range_digest v k)
              (λ a u l _.
                Keeps-bind_result (Bounded bound) Any Any
                  (update_last_indexed_ledger r.last_processed_ledger u) _
                  (update_last_indexed_ledger-Bounded r.last_processed_ledger u
                    (elim ends [ inl e ↦ omega (arith, e) | inr e ↦ omega (arith, e.1) ]) l)
                  (λ b x m _. (m, tt))))

    poll_finalized-Bounded :
        (finalized latest : ℕ) (w : World)
        → finalized ≤ bound
        → Bounded bound w.db
        → Keeps (Bounded bound) Any (
            poll_finalized repayment_delta default_penalty rpc hash pages depth batch threshold
              finalized latest w)
    unfolding ◌>>=◌ record_lag
    poll_finalized-Bounded finalized latest w hi h =
        Keeps-bind_result (Bounded bound) Any Any
          (detect_and_rollback_reorg repayment_delta default_penalty rpc hash pages depth batch
            threshold w)
          _
          (detect_and_rollback_reorg-Bounded bound repayment_delta default_penalty rpc hash pages
            depth batch threshold w h)
          (λ r v k _.
            Keeps-bind_result (Bounded bound) (λ c. c ≤ bound) Any (get_last_indexed_ledger v) _
              (get_last_indexed_ledger-Bounded v k)
              (λ c u l le.
                Keeps-bind_result (Bounded bound) Any Any
                  (backfill_missing_ranges repayment_delta default_penalty rpc hash pages finalized
                    u)
                  _
                  (backfill_missing_ranges-Bounded bound repayment_delta default_penalty rpc hash
                    pages finalized u l)
                  (λ n x m _. elim (Bool-cases (leb finalized c)) [
                    | inl caught_up ↦ rw caught_up (m, tt)
                    | inr behind ↦ rw behind (
                        poll_range-Bounded (c + 1) (min (c + 1 + batch - 1) finalized) latest x
                          (omega arith) (omega arith) m)
                  ])))

    poll_once-Bounded :
        (w : World)
        → or_zero rpc.latest - depth ≤ bound
        → Bounded bound w.db
        → Keeps
            (Bounded bound)
            Any
            (poll_once repayment_delta default_penalty rpc hash pages depth batch threshold w)
    unfolding poll_once ◌>>=◌
    poll_once-Bounded w hi h =
        Keeps-bind_result (Bounded bound) (λ c. c ≤ bound) Any (get_last_indexed_ledger w) _
          (get_last_indexed_ledger-Bounded w h)
          (λ c v k _. elim (Bool-cases (or_zero rpc.latest == 0)) [
            | inl silent ↦ rw silent (k, tt)
            | inr told ↦
                rw told
                  (poll_finalized-Bounded (or_zero rpc.latest - depth) (or_zero rpc.latest) v hi k)
          ])

    -- `pollOnce` moves the cursor no further than the finalized ledger: where the cursor and the latest
    -- ledger less the finality depth are at most some ledger, so is the cursor after the call, whatever the
    -- RPC answers, also where a query fails or a reorganization is rolled back.
    pub poll_once-CursorAtMost :
        (w : World)
        → or_zero rpc.latest - depth ≤ bound
        → CursorAtMost bound w.db.state
        → CursorAtMost bound
            (poll_once repayment_delta default_penalty rpc hash pages depth batch threshold
              w).1.db.state
    poll_once-CursorAtMost w hi h =
        Keeps-db (Bounded bound) Any
          (poll_once repayment_delta default_penalty rpc hash pages depth batch threshold w)
          (poll_once-Bounded w hi h)
