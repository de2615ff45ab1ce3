-- ===== src/Indexer/Reindex.antt =====
-- The loop of `reindexRange` of eventIndexer.ts.
use dukapay.Base.{
  ℕ, zero, suc, ◌+◌, ◌-◌, min, ◌≡◌, ◌≤◌, ◌<◌, refl, Bool-cases, inl, inr, List, ltb, arith,
}
use dukapay.Base.Int.{ℤ}
use dukapay.Indexer.{RawEvent, World, M, Result, ok, err, bind_result, ◌>>=◌}
use dukapay.Indexer.Fetch.{Rpc}
use dukapay.Indexer.Chunk.{ReindexResult, process_chunk, reindex_from, reindex_range}

bind_same :
    {A B : Type 0} (r : Result A × World) (f g : A → M B)
    → ((a : A) (w : World) → f a w ≡ g a w)
    → bind_result r f ≡ bind_result r g
bind_same (ok a, w) f g h = h a w
bind_same (err e, w) f g h = refl

module _ (repayment_delta default_penalty : ℤ) (rpc : Rpc) (hash : List RawEvent → ℕ)
    (pages batch_size : ℕ) where
  more_rounds :
      (rounds more current to_ledger : ℕ) (totals : ReindexResult) (w : World)
      → 0 < batch_size
      → to_ledger + 1 - current < rounds
      → rounds ≤ more
      → reindex_from repayment_delta default_penalty rpc hash pages batch_size more current
          to_ledger totals w
        ≡ reindex_from repayment_delta default_penalty rpc hash pages batch_size rounds current
            to_ledger totals w
  unfolding reindex_from ◌>>=◌
  more_rounds zero more current to totals w b h le = absurd (omega arith)
  more_rounds (suc n) zero current to totals w b h le = absurd (omega arith)
  more_rounds (suc n) (suc m) current to totals w b h le = elim (Bool-cases (ltb to current)) [
    | inl done ↦ rw done refl
    | inr on ↦ rw on (
        bind_same
          (process_chunk repayment_delta default_penalty rpc hash pages current
            (min (current + batch_size - 1) to) w)
          _ _
          (λ result v.
            more_rounds n m (min (current + batch_size - 1) to + 1) to _ v b (ground arith)
              (omega arith)))
  ]

  -- The loop of `reindexRange` ends for every batch size from 1: the rounds that the range has ledgers,
  -- and one, are enough, so that any greater number of rounds gives the same result, errors included.
  pub reindex_range_ends :
      (rounds from_ledger to_ledger : ℕ) (w : World)
      → 0 < batch_size
      → to_ledger + 1 - from_ledger + 1 ≤ rounds
      → reindex_from repayment_delta default_penalty rpc hash pages batch_size rounds from_ledger
          to_ledger
          (record { total_fetched = 0; total_inserted = 0; last_processed = from_ledger - 1 })
          w
        ≡ reindex_range repayment_delta default_penalty rpc hash pages batch_size from_ledger
            to_ledger w
  unfolding reindex_range
  reindex_range_ends rounds from to w b h =
      more_rounds (to + 1 - from + 1) rounds from to _ w b (omega arith) h
