-- ===== src/Indexer/Tests.antt =====
-- Runs of the indexer: one repayment in ledger 12, polled, stored again and rolled back.
use mathlib.Core.Path.{subst}
use dukapay.Base.{
  ℕ, zero, suc, ◌≡◌, ◌≢◌, ◌<◌, refl, sym, true, false, Option, none, some, List, [], ◌∷◌, All, ◌==◌,
  if◌then◌else◌, arith, inl, inr,
}
use dukapay.Base.Int.{pos}
use dukapay.Indexer.{
  ContractEvent, loan_repaid, RawEvent, parsed, verified, Db, World, err, out_of_pages, fine,
  transient, lost_fatal, execute, query, ◌>>=◌, ◌>>◌, attempt, with_transaction,
}
use dukapay.Indexer.Ingest.{
  store_events, parsed_events, conflicts, is_same_loan, insert_event, insert_events, store_rows,
  dispatch_events, has_id, quarantine_all, quarantine_malformed, has_malformed, add_delta,
}
use dukapay.Indexer.Rules.{OnOk-execute_to}
use dukapay.Indexer.Atomic.{Atomic, with_transaction-Atomic}
use dukapay.Indexer.Stored.{AllStored}
use dukapay.Indexer.Complete.{store_events-AllStored}
use dukapay.Indexer.Fetch.{
  Request, ledger_range, from_cursor, Page, Rpc, fetch_events_in_range, fetch_pages, keep_in_range,
  sort_events, insert_sorted,
}
use dukapay.Indexer.Fetch.Laws.{
  Progresses, IsInRange, IsAscending, fetch_events_in_range_ends, fetch_events_in_range-IsInRange,
}
use dukapay.Indexer.Checkpoints.{latest_range_end, record_checkpoint}
use dukapay.Indexer.Chunk.{reindex_from, reindex_range, ProcessChunkResult}
use dukapay.Indexer.Reindex.{reindex_range_ends}
use dukapay.Indexer.Coverage.{Covers, record_checkpoint-Covers}
use dukapay.Indexer.Poll.{rollback_from_ledger, poll_once}
use dukapay.Indexer.Rollback.{CursorAtMost, AllOrNothing, rollback_from_ledger-AllOrNothing}
use dukapay.Indexer.Cursor.Poll.{poll_once-CursorAtMost}

abbrev repayment : ContractEvent
repayment = record {
  event_id = 70;
  event_type = loan_repaid;
  event_name = 5;
  loan_id = some 3;
  address = some 4;
  admin_address = none;
  ledger = 12;
}

abbrev repaid : RawEvent
repaid = record { id = 70; ledger = 12; parse = parsed repayment }

abbrev empty_db : Db
empty_db = record {
  has_event_columns = true;
  state = some (record { last_ledger = 10; last_finalized_ledger = 10 });
  checkpoints =
      record { range_start = 1; range_end = 10; status = verified; range_digest = none } ∷ [];
  events = [];
  quarantine = [];
  audit_logs = [];
  scores = [];
}

abbrev world_of : Db → World
world_of db = record {
  db = db;
  trips = [];
  cached_scores = [];
  cached_breakdowns = [];
  inserted_events = [];
  score_updates = [];
  dispatched = [];
  lag_alert_active = false;
}

abbrev stored_db : Db
stored_db = record empty_db { events = repayment ∷ [] }

-- A statement that notes event 5, and a COMMIT that takes effect with its answer lost.
abbrev note_five : Db → Db
note_five db = record db { quarantine = 5 ∷ db.quarantine }

with_transaction-Atomic_example :
    Atomic
      (λ db. has_id 5 db.quarantine ≡ true)
      empty_db
      (with_transaction 3
        (execute note_five)
        (record (world_of empty_db) { trips = fine ∷ fine ∷ lost_fatal ∷ [] }))
unfolding has_id
with_transaction-Atomic_example =
    with_transaction-Atomic (λ db. has_id 5 db.quarantine ≡ true) 3 (execute note_five)
      (λ v. OnOk-execute_to (λ db. has_id 5 db.quarantine ≡ true) note_five v refl)
      (record (world_of empty_db) { trips = fine ∷ fine ∷ lost_fatal ∷ [] })

store_events-AllStored_example :
    AllStored
      (parsed_events (repaid ∷ []))
      (store_events
        (pos 15)
        (pos 50)
        (repaid ∷ [])
        (record (world_of empty_db) { trips = transient ∷ [] })).1.db.events
unfolding store_events parsed_events quarantine_all quarantine_malformed has_malformed
    with_transaction attempt query store_rows insert_events insert_event conflicts is_same_loan
    dispatch_events add_delta ◌>>=◌ ◌>>◌
store_events-AllStored_example =
    store_events-AllStored (pos 15) (pos 50) (repaid ∷ []) 1
      (record (world_of empty_db) { trips = transient ∷ [] }) refl

-- Two pages: the first holds an event and a cursor, the second is the last.
abbrev answer : Request → Option Page
answer (ledger_range s e) = some (record { events = repaid ∷ []; next_cursor = some 7 })
answer (from_cursor c) =
    some (record { events = record repaid { id = 71; ledger = 11 } ∷ []; next_cursor = none })

abbrev rpc : Rpc
rpc = record { latest = some 20; get_events = answer }

abbrev pages_left : Option ℕ → ℕ
pages_left none = 1
pages_left (some c) = if c == 0 then 1 else 0

some_injective : {A : Type 0} (a b : A) → some a ≡ some b → a ≡ b
some_injective a b e = cc

abbrev page_of : List RawEvent → Option ℕ → Page
page_of es next = record { events = es; next_cursor = next }

-- Only the first page leads to another.
rpc-Progresses : Progresses rpc 11 20 pages_left
rpc-Progresses none page next got named _ _ _ _ =
    let first : page_of (repaid ∷ []) (some 7) ≡ page =
      some_injective (page_of (repaid ∷ []) (some 7)) page got in
    let seven : some 7 ≡ some next = subst (λ p. p.next_cursor ≡ some next) (sym first) named in
    subst (λ n. pages_left (some n) < 1) (some_injective 7 next seven) (omega arith)
rpc-Progresses (some zero) page next got named _ _ _ _ =
    let first : page_of (repaid ∷ []) (some 7) ≡ page =
      some_injective (page_of (repaid ∷ []) (some 7)) page got in
    let seven : some 7 ≡ some next = subst (λ p. p.next_cursor ≡ some next) (sym first) named in
    subst (λ n. pages_left (some n) < 1) (some_injective 7 next seven) (omega arith)
rpc-Progresses (some (suc c)) page next got named _ _ _ _ =
    let last_page : Page = page_of (record repaid { id = 71; ledger = 11 } ∷ []) none in
    let other : (suc c == 0) ≡ false = ground arith in
    let last : some last_page ≡ some page =
      subst (λ b. answer (if b then ledger_range 11 20 else from_cursor (suc c)) ≡ some page) other
        got in
    let ended : none ≡ some next =
      subst (λ p. p.next_cursor ≡ some next) (sym (some_injective last_page page last)) named in
    absurd (ground arith)

fetch_events_in_range_ends_example : fetch_events_in_range rpc 2 11 20 ≢ err out_of_pages
fetch_events_in_range_ends_example =
    fetch_events_in_range_ends rpc 11 20 pages_left 2 rpc-Progresses (omega arith)

fetch_events_in_range-IsInRange_example :
    All (IsInRange 11 20) (record repaid { id = 71; ledger = 11 } ∷ repaid ∷ [])
    × IsAscending (record repaid { id = 71; ledger = 11 } ∷ repaid ∷ [])
unfolding fetch_events_in_range fetch_pages keep_in_range sort_events insert_sorted
fetch_events_in_range-IsInRange_example =
    fetch_events_in_range-IsInRange 11 20 rpc 2
      (record repaid { id = 71; ledger = 11 } ∷ repaid ∷ []) refl

abbrev hash : List RawEvent → ℕ
hash [] = 5
hash (e ∷ es) = 6

record_checkpoint-Covers_example :
    Covers 1 (record_checkpoint 15 20 6 (world_of empty_db)).1.db.checkpoints
unfolding latest_range_end
record_checkpoint-Covers_example =
    record_checkpoint-Covers 1 15 20 6 (world_of empty_db)
      (λ ledger lo reached. elim reached [ inl hi ↦ inl (lo, hi) | inr gone ↦ absurd gone ])
      (λ e. absurd (ground arith))

rollback_from_ledger-AllOrNothing_example :
    AllOrNothing 5
      (pos 15)
      (pos 50)
      stored_db
      (rollback_from_ledger (pos 15) (pos 50) 5 (world_of stored_db))
rollback_from_ledger-AllOrNothing_example =
    rollback_from_ledger-AllOrNothing 5 (pos 15) (pos 50) (world_of stored_db)

poll_once-CursorAtMost_example :
    CursorAtMost 18 (poll_once (pos 15) (pos 50) rpc hash 2 2 100 5 (world_of empty_db)).1.db.state
poll_once-CursorAtMost_example =
    poll_once-CursorAtMost 18 (pos 15) (pos 50) rpc hash 2 2 100 5 (world_of empty_db) (omega arith)
      (omega arith)

abbrev chunk : ProcessChunkResult
chunk = record {
  last_processed_ledger = 20;
  fetched_events = 2;
  inserted_events = 1;
  range_digest = 6;
}

reindex_range_ends_example :
    reindex_from
      (pos 15)
      (pos 50)
      rpc
      hash
      2
      4
      30
      11
      20
      (record { total_fetched = 0; total_inserted = 0; last_processed = 10 })
      (world_of empty_db)
    ≡ reindex_range (pos 15) (pos 50) rpc hash 2 4 11 20 (world_of empty_db)
reindex_range_ends_example =
    reindex_range_ends (pos 15) (pos 50) rpc hash 2 4 30 11 20 (world_of empty_db) (omega arith)
      (omega arith)
