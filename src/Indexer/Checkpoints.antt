-- ===== src/Indexer/Checkpoints.antt =====
-- The tables `ledger_checkpoints` and `indexer_state` in eventIndexer.ts, and ledgerCheckpoints.ts.
use dukapay.Base.{
  ℕ, ◌+◌, ◌-◌, max, Bool, true, false, not, ◌&&◌, ◌||◌, Option, none, some, List, [], ◌∷◌, ◌++◌,
  leb, ltb, ◌==◌, if◌then◌else◌,
}
use dukapay.Indexer.{
  CheckpointStatus, verified, suspect, Checkpoint, IndexerState, Db, World, M, Result, ok, err,
  pure, query, execute, ◌>>=◌, ◌>>◌,
}

abbrev pub is_verified : CheckpointStatus → Bool
is_verified verified = true
is_verified suspect = false

abbrev pub add_checkpoint : Checkpoint → Db → Db
add_checkpoint c db = record db { checkpoints = db.checkpoints ++ c ∷ [] }

-- SELECT range_end … ORDER BY range_end DESC LIMIT 1
unfoldable pub latest_range_end : List Checkpoint → Option ℕ
latest_range_end [] = none
latest_range_end (c ∷ cs) =
    let rest = latest_range_end cs in
    elim rest [ none ↦ some c.range_end | some e ↦ some (max c.range_end e) ]

-- A range that was never scanned is inserted before the range that follows it.
abbrev pub insert_gap : Option ℕ → ℕ → M (Unit {0})
insert_gap none range_start = pure tt
insert_gap (some previous) range_start =
    if ltb (previous + 1) range_start
    then execute (
        add_checkpoint (record {
          range_start = previous + 1;
          range_end = range_start - 1;
          status = suspect;
          range_digest = none;
        }))
    else pure tt

-- `recordCheckpoint`.
unfoldable pub record_checkpoint : ℕ → ℕ → ℕ → M (Unit {0})
record_checkpoint range_start range_end range_digest = do
  previous ← query (λ db. (latest_range_end db.checkpoints, db))
  insert_gap previous range_start
  execute (
      add_checkpoint (record {
        range_start = range_start;
        range_end = range_end;
        status = verified;
        range_digest = some range_digest;
      }))

-- The one of two rows that ORDER BY range_end DESC puts first; which of two with one `range_end` it is,
-- the query leaves open.
abbrev pub later : Checkpoint → Option Checkpoint → Checkpoint
later c none = c
later c (some d) = if ltb c.range_end d.range_end then d else c

-- `getLatestVerifiedCheckpoint`.
unfoldable pub latest_verified : List Checkpoint → Option Checkpoint
latest_verified [] = none
latest_verified (c ∷ cs) =
    let rest = latest_verified cs in if is_verified c.status then some (later c rest) else rest

-- ORDER BY range_start ASC
unfoldable pub insert_by_start : Checkpoint → List Checkpoint → List Checkpoint
insert_by_start c [] = c ∷ []
insert_by_start c (d ∷ ds) =
    if leb c.range_start d.range_start then c ∷ d ∷ ds else d ∷ insert_by_start c ds

-- `getSuspectRanges`.
unfoldable pub suspect_ranges : List Checkpoint → List Checkpoint
suspect_ranges [] = []
suspect_ranges (c ∷ cs) =
    let rest = suspect_ranges cs in if is_verified c.status then rest else insert_by_start c rest

-- `hasUnresolvedLedgerGaps`: no gap when the query fails.
abbrev pub or_false : Result Bool × World → Bool × World
or_false (ok b, w) = (b, w)
or_false (err e, w) = (false, w)

unfoldable pub has_suspect : List Checkpoint → Bool
has_suspect [] = false
has_suspect (c ∷ cs) = not (is_verified c.status) || has_suspect cs

unfoldable pub has_unresolved_ledger_gaps : World → Bool × World
has_unresolved_ledger_gaps w = or_false (query (λ db. (has_suspect db.checkpoints, db)) w)

-- The rows of one status and one range.
abbrev pub is_range : Bool → ℕ → ℕ → Checkpoint → Bool
is_range checked range_start range_end c =
    (if is_verified c.status then checked else not checked)
    && ((c.range_start == range_start) && (c.range_end == range_end))

unfoldable pub update_where :
    (Checkpoint → Bool) → (Checkpoint → Checkpoint) → List Checkpoint → List Checkpoint
update_where p f [] = []
update_where p f (c ∷ cs) = (if p c then f c else c) ∷ update_where p f cs

-- COALESCE(last_finalized_ledger, last_ledger); the first column is not nullable.
abbrev pub cursor_of : IndexerState → ℕ
cursor_of s = s.last_finalized_ledger

abbrev pub insert_state : ℕ → Db → Db
insert_state ledger db = record db {
  state = some (record { last_ledger = ledger; last_finalized_ledger = ledger });
}

-- `getLastIndexedLedger`.
abbrev pub or_insert_state : Option IndexerState → M ℕ
or_insert_state none = do execute (insert_state 0); pure 0
or_insert_state (some s) = pure (cursor_of s)

unfoldable pub get_last_indexed_ledger : M ℕ
get_last_indexed_ledger = do row ← query (λ db. (db.state, db)); or_insert_state row

-- UPDATE indexer_state: the row, if any, and how many were updated.
abbrev pub advance : ℕ → Option IndexerState → ℕ × Option IndexerState
advance ledger none = (0, none)
advance ledger (some s) = (
  1,
  some (record {
    last_ledger = max s.last_ledger ledger;
    last_finalized_ledger = max s.last_finalized_ledger ledger;
  }),
)

-- `updateLastIndexedLedger`.
unfoldable pub update_last_indexed_ledger : ℕ → M (Unit {0})
update_last_indexed_ledger ledger = do
  rows ←
      query (λ db. ((advance ledger db.state).0, record db { state = (advance ledger db.state).1 }))
  if rows == 0 then execute (insert_state ledger) else pure tt
