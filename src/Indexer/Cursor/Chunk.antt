-- ===== src/Indexer/Cursor/Chunk.antt =====
-- The cursor after `processChunk`, `backfillMissingRanges` and `pollOnce` of eventIndexer.ts.
use mathlib.Core.Path.{subst}
use dukapay.Base.{
  ℕ, zero, suc, ◌+◌, ◌-◌, min, max, ◌≡◌, ◌≤◌, ◌<◌, refl, sym, ap, ◌∙◌, Bool-cases, inl, inr, ◌⊎◌,
  Option, none, some, List, [], ◌∷◌, All, ltb, ◌==◌, arith,
}
use dukapay.Base.Int.{ℤ}
use dukapay.Indexer.{
  RawEvent, IndexerState, Checkpoint, World, M, Result, ok, err, pure, execute, bind_result, ◌>>=◌,
  ◌>>◌,
}
use dukapay.Indexer.Ingest.{store_events}
use dukapay.Indexer.Fetch.{Rpc, fetch_events_in_range}
use dukapay.Indexer.Fetch.Laws.{IsInRange, Read, fetch_events_in_range-Read, IsAscending}
use dukapay.Indexer.Checkpoints.{cursor_of, add_checkpoint, suspect_ranges}
use dukapay.Indexer.Chunk.{
  ProcessChunkResult, max_ledger, process_events, process_chunk, verify_range, raise_start,
  verified_part, settle_range, backfill_range, backfill_ranges, backfill_missing_ranges,
}
use dukapay.Indexer.Rules.{ok_injective}
use dukapay.Indexer.Keeps.{Keeps, Any, Keeps-bind_result, Keeps-query}
use dukapay.Indexer.Rollback.{CursorAtMost}
use dukapay.Indexer.Cursor.{Bounded, leave, store_events-Bounded}

max_ledger_bound :
    (lo hi m : ℕ) (es : List RawEvent) → All (IsInRange lo hi) es → m ≤ hi → max_ledger m es ≤ hi
unfolding max_ledger
max_ledger_bound lo hi m [] h le = le
max_ledger_bound lo hi m (e ∷ es) (h, hs) le =
    max_ledger_bound lo hi (max m e.ledger) es hs (omega (arith, h.1))

module _ (bound : ℕ) (repayment_delta default_penalty : ℤ) (rpc : Rpc) (hash : List RawEvent → ℕ)
    (pages : ℕ) where
  -- The last ledger is the end of the range, or the one before an empty range.
  abbrev pub EndsAt : ℕ → ℕ → ProcessChunkResult → Type 0
  EndsAt start_ledger end_ledger r =
      (r.last_processed_ledger ≡ end_ledger)
      ⊎ ((end_ledger < start_ledger) × (r.last_processed_ledger ≡ start_ledger - 1))

  process_events-Bounded :
      (start_ledger end_ledger : ℕ) (es : List RawEvent) (w : World)
      → start_ledger ≤ end_ledger
      → All (IsInRange start_ledger end_ledger) es
      → Bounded bound w.db
      → Keeps (Bounded bound) (EndsAt start_ledger end_ledger) (
          process_events repayment_delta default_penalty rpc hash pages start_ledger end_ledger es
            w)
  unfolding ◌>>=◌
  process_events-Bounded s e [] w le all h = (h, inl refl)
  process_events-Bounded s e (x ∷ xs) w le all h =
      Keeps-bind_result (Bounded bound) Any (EndsAt s e)
        (store_events repayment_delta default_penalty (x ∷ xs) w) _
        (store_events-Bounded bound repayment_delta default_penalty (x ∷ xs) w h)
        (λ n v k _. (k, inl (omega (arith, max_ledger_bound s e s (x ∷ xs) all le))))

  fetched-Bounded :
      (start_ledger end_ledger : ℕ) (r : Result (List RawEvent)) (w : World)
      → start_ledger ≤ end_ledger
      → Read start_ledger end_ledger
          (λ es. All (IsInRange start_ledger end_ledger) es × IsAscending es)
          r
      → Bounded bound w.db
      → Keeps (Bounded bound) (EndsAt start_ledger end_ledger) (
          bind_result
            (r, w)
            (process_events repayment_delta default_penalty rpc hash pages start_ledger end_ledger))
  fetched-Bounded s e (ok es) w le read h = process_events-Bounded s e es w le read.0 h
  fetched-Bounded s e (err f) w le read h = h

  pub process_chunk-Bounded :
      (start_ledger end_ledger : ℕ) (w : World)
      → Bounded bound w.db
      → Keeps
          (Bounded bound)
          (EndsAt start_ledger end_ledger)
          (process_chunk repayment_delta default_penalty rpc hash pages start_ledger end_ledger w)
  unfolding process_chunk ◌>>=◌
  process_chunk-Bounded s e w h = elim (Bool-cases (ltb e s)) [
    | inl short ↦ rw short (h, inr (ground arith, refl))
    | inr long ↦ rw long (
        fetched-Bounded s e (fetch_events_in_range rpc pages s e) w (ground arith)
          (fetch_events_in_range-Read s e rpc pages) h)
  ]

  settle_range-Bounded :
      (range : Checkpoint) (last : ℕ) (result : ProcessChunkResult) (w : World)
      → Bounded bound w.db
      → Keeps
          (Bounded bound)
          Any
          (settle_range repayment_delta default_penalty rpc hash pages range last result w)
  unfolding ◌>>◌
  settle_range-Bounded range last result w h = elim (Bool-cases (last == range.range_end)) [
    | inl whole ↦ rw whole (leave bound (verify_range range result.range_digest) w refl h)
    | inr part ↦
        let rest : M (Unit {0}) =
          execute (add_checkpoint (verified_part range last result.range_digest)) in
        rw part (
          Keeps-bind_result (Bounded bound) Any Any (execute (raise_start range (last + 1)) w)
            (λ _. rest) (leave bound (raise_start range (last + 1)) w refl h)
            (λ a v k _.
              leave bound (add_checkpoint (verified_part range last result.range_digest)) v refl k))
  ]

  backfill_range-Bounded :
      (range : Checkpoint) (last : ℕ) (w : World)
      → Bounded bound w.db
      → Keeps
          (Bounded bound)
          Any
          (backfill_range repayment_delta default_penalty rpc hash pages range last w)
  unfolding ◌>>=◌ ◌>>◌
  backfill_range-Bounded range last w h =
      Keeps-bind_result (Bounded bound) (EndsAt range.range_start last) Any
        (process_chunk repayment_delta default_penalty rpc hash pages range.range_start last w) _
        (process_chunk-Bounded range.range_start last w h)
        (λ result v k _.
          Keeps-bind_result (Bounded bound) Any Any
            (settle_range repayment_delta default_penalty rpc hash pages range last result v)
            (λ _. pure (last - range.range_start + 1)) (settle_range-Bounded range last result v k)
            (λ a u l _. (l, tt)))

  backfill_ranges-Bounded :
      (tip : ℕ) (ranges : List Checkpoint) (backfilled : ℕ) (w : World)
      → Bounded bound w.db
      → Keeps
          (Bounded bound)
          Any
          (backfill_ranges repayment_delta default_penalty rpc hash pages tip ranges backfilled w)
  unfolding backfill_ranges ◌>>=◌
  backfill_ranges-Bounded tip [] n w h = (h, tt)
  backfill_ranges-Bounded tip (range ∷ ranges) n w h =
      elim (Bool-cases (ltb (min range.range_end tip) range.range_start)) [
        | inl later ↦ rw later (backfill_ranges-Bounded tip ranges n w h)
        | inr now ↦ rw now (
            Keeps-bind_result (Bounded bound) Any Any
              (backfill_range repayment_delta default_penalty rpc hash pages range
                (min range.range_end tip) w)
              (λ k.
                backfill_ranges repayment_delta default_penalty rpc hash pages tip ranges (n + k))
              (backfill_range-Bounded range (min range.range_end tip) w h)
              (λ k v l _. backfill_ranges-Bounded tip ranges (n + k) v l))
      ]

  pub backfill_missing_ranges-Bounded :
      (tip : ℕ) (w : World)
      → Bounded bound w.db
      → Keeps
          (Bounded bound)
          Any
          (backfill_missing_ranges repayment_delta default_penalty rpc hash pages tip w)
  unfolding backfill_missing_ranges ◌>>=◌
  backfill_missing_ranges-Bounded zero w h = (h, tt)
  backfill_missing_ranges-Bounded (suc tip) w h =
      Keeps-query (Bounded bound) (λ db. (suspect_ranges db.checkpoints, db)) _ Any w h h
        (λ v same.
          backfill_ranges-Bounded (suc tip) (suspect_ranges w.db.checkpoints) 0 v
            (subst (Bounded bound) (sym same) h))

  EndsAt-elim :
      (start_ledger end_ledger : ℕ) (r : Result ProcessChunkResult × World) (a : ProcessChunkResult)
      → start_ledger ≤ end_ledger
      → r.0 ≡ ok a
      → Keeps (Bounded bound) (EndsAt start_ledger end_ledger) r
      → a.last_processed_ledger ≡ end_ledger
  EndsAt-elim s e (ok b, w) a le same h = elim h.1 [
    | inl end ↦ sym (ap (λ r. r.last_processed_ledger) (ok_injective b a same)) ∙ end
    | inr short ↦ absurd (omega (arith, short.0))
  ]
  EndsAt-elim s e (err f, w) a le same h = absurd (ground arith)

cursor_or_zero : Option IndexerState → ℕ
cursor_or_zero none = 0
cursor_or_zero (some s) = cursor_of s

cursor_or_zero-CursorAtMost : (s : Option IndexerState) → CursorAtMost (cursor_or_zero s) s
unfolding cursor_or_zero
cursor_or_zero-CursorAtMost none = tt
cursor_or_zero-CursorAtMost (some s) = omega arith

-- When `processChunk` returns for a range that is not empty, the last processed ledger is the end of
-- the range, whatever ledgers the events have that the RPC answers.
pub process_chunk_last :
    (repayment_delta default_penalty : ℤ) (rpc : Rpc) (hash : List RawEvent → ℕ)
    (pages start_ledger end_ledger : ℕ) (w : World) (r : ProcessChunkResult)
    → start_ledger ≤ end_ledger
    → (process_chunk repayment_delta default_penalty rpc hash pages start_ledger end_ledger w).0
      ≡ ok r
    → r.last_processed_ledger ≡ end_ledger
process_chunk_last d p rpc hash pages s e w r le same =
    let bound : ℕ = cursor_or_zero w.db.state in
    EndsAt-elim bound d p rpc hash pages s e (process_chunk d p rpc hash pages s e w) r le same (
      process_chunk-Bounded bound d p rpc hash pages s e w (cursor_or_zero-CursorAtMost w.db.state))
