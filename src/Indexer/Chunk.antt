-- ===== src/Indexer/Chunk.antt =====
-- `processChunk`, `reindexRange` and `backfillMissingRanges` of eventIndexer.ts.
use dukapay.Base.{
  ℕ, zero, suc, ◌+◌, ◌-◌, max, min, false, some, List, [], ◌∷◌, ltb, ◌==◌, if◌then◌else◌, length,
}
use dukapay.Base.Int.{ℤ}
use dukapay.Indexer.{
  RawEvent, out_of_pages, verified, Checkpoint, Db, M, Result, pure, throw, query, execute, ◌>>=◌,
  ◌>>◌,
}
use dukapay.Indexer.Ingest.{store_events}
use dukapay.Indexer.Fetch.{Rpc, fetch_events_in_range, digest_events}
use dukapay.Indexer.Checkpoints.{suspect_ranges, update_where, is_range, add_checkpoint}

pub record ProcessChunkResult : Type 0 where
  pub last_processed_ledger : ℕ
  pub fetched_events : ℕ
  pub inserted_events : ℕ
  pub range_digest : ℕ

abbrev pub lift : {A : Type 0} → Result A → M A
lift r w = (r, w)

-- `events.reduce((max, event) => Math.max(max, event.ledger), startLedger)`
unfoldable pub max_ledger : ℕ → List RawEvent → ℕ
max_ledger m [] = m
max_ledger m (e ∷ es) = max_ledger (max m e.ledger) es

pub record ReindexResult : Type 0 where
  pub total_fetched : ℕ
  pub total_inserted : ℕ
  pub last_processed : ℕ

-- UPDATE … SET status = 'verified', range_digest = $1, of a suspect range.
abbrev pub verify_range : Checkpoint → ℕ → Db → Db
verify_range range digest db = record db {
  checkpoints =
      update_where (is_range false range.range_start range.range_end)
        (λ c. record c { status = verified; range_digest = some digest }) db.checkpoints;
}

-- UPDATE … SET range_start = $1, of a suspect range.
abbrev pub raise_start : Checkpoint → ℕ → Db → Db
raise_start range start db = record db {
  checkpoints =
      update_where (is_range false range.range_start range.range_end)
        (λ c. record c { range_start = start }) db.checkpoints;
}

abbrev pub verified_part : Checkpoint → ℕ → ℕ → Checkpoint
verified_part range last digest = record {
  range_start = range.range_start;
  range_end = last;
  status = verified;
  range_digest = some digest;
}

-- The score configuration, the RPC, the digest, and how many pages a fetch may ask for.
module _ (repayment_delta default_penalty : ℤ) (rpc : Rpc) (hash : List RawEvent → ℕ)
    (pages : ℕ) where
  abbrev pub process_events : ℕ → ℕ → List RawEvent → M ProcessChunkResult
  process_events start_ledger end_ledger [] = pure (record {
    last_processed_ledger = end_ledger;
    fetched_events = 0;
    inserted_events = 0;
    range_digest = digest_events hash [];
  })
  process_events start_ledger end_ledger (e ∷ es) = do
    inserted ← store_events repayment_delta default_penalty (e ∷ es)
    pure (record {
      last_processed_ledger = max (max_ledger start_ledger (e ∷ es)) end_ledger;
      fetched_events = length (e ∷ es);
      inserted_events = inserted;
      range_digest = digest_events hash (e ∷ es);
    })

  -- `processChunk`.
  unfoldable pub process_chunk : ℕ → ℕ → M ProcessChunkResult
  process_chunk start_ledger end_ledger =
      if ltb end_ledger start_ledger
      then pure (record {
        last_processed_ledger = start_ledger - 1;
        fetched_events = 0;
        inserted_events = 0;
        range_digest = digest_events hash [];
      })
      else (lift (fetch_events_in_range rpc pages start_ledger end_ledger)
          >>= process_events start_ledger end_ledger)

  -- The loop of `reindexRange`, with the rounds that it may take.
  unfoldable pub reindex_from : ℕ → ℕ → ℕ → ℕ → ReindexResult → M ReindexResult
  reindex_from batch_size zero current to_ledger totals = throw out_of_pages
  reindex_from batch_size (suc rounds) current to_ledger totals =
      if ltb to_ledger current
      then pure totals
      else (process_chunk current (min (current + batch_size - 1) to_ledger) >>= (λ result.
          reindex_from batch_size rounds (min (current + batch_size - 1) to_ledger + 1) to_ledger
            (record {
              total_fetched = totals.total_fetched + result.fetched_events;
              total_inserted = totals.total_inserted + result.inserted_events;
              last_processed = result.last_processed_ledger;
            })))

  -- `reindexRange`, in as many rounds as the range has ledgers, and one.
  unfoldable pub reindex_range : ℕ → ℕ → ℕ → M ReindexResult
  reindex_range batch_size from_ledger to_ledger =
      reindex_from batch_size (to_ledger + 1 - from_ledger + 1) from_ledger to_ledger
        (record { total_fetched = 0; total_inserted = 0; last_processed = from_ledger - 1 })

  -- A range, or the first part of it, is recorded as verified.
  abbrev pub settle_range : Checkpoint → ℕ → ProcessChunkResult → M (Unit {0})
  settle_range range last result =
      if last == range.range_end
      then execute (verify_range range result.range_digest)
      else (execute (raise_start range (last + 1))
          >> execute (add_checkpoint (verified_part range last result.range_digest)))

  abbrev pub backfill_range : Checkpoint → ℕ → M ℕ
  backfill_range range last = do
    result ← process_chunk range.range_start last
    settle_range range last result
    pure (last - range.range_start + 1)

  unfoldable pub backfill_ranges : ℕ → List Checkpoint → ℕ → M ℕ
  backfill_ranges finalized_tip [] backfilled = pure backfilled
  backfill_ranges finalized_tip (range ∷ ranges) backfilled =
      let last = min range.range_end finalized_tip in
      if ltb last range.range_start
      then backfill_ranges finalized_tip ranges backfilled
      else (backfill_range range last
          >>= (λ n. backfill_ranges finalized_tip ranges (backfilled + n)))

  -- `backfillMissingRanges(finalizedLedger)`.
  unfoldable pub backfill_missing_ranges : ℕ → M ℕ
  backfill_missing_ranges zero = pure 0
  backfill_missing_ranges (suc tip) = do
    ranges ← query (λ db. (suspect_ranges db.checkpoints, db))
    backfill_ranges (suc tip) ranges 0
