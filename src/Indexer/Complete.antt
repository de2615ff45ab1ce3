-- ===== src/Indexer/Complete.antt =====
-- What `storeEvents` of eventIndexer.ts has stored when it returns, whatever queries failed on the way.
use mathlib.Core.Path.{subst}
use dukapay.Base.{
  Bool-cases, inl, inr, Option, none, some, not, any, ℕ, ◌≡◌, refl, sym, ap, Bool, true, false,
  List, [], ◌∷◌, ◌++◌, if◌then◌else◌,
}
use dukapay.Base.Int.{ℤ}
use dukapay.Indexer.{
  ContractEvent, RawEvent, AuditRow, World, Db, ok, ◌>>=◌, ◌>>◌, pure, execute, with_transaction,
  max_retries,
}
use dukapay.Indexer.Ingest.{
  conflicts, insert_event, insert_events, after_insert, note_delta, audit_all, audit_rows,
  store_events, parsed_events, quarantine_malformed, store_rows, store_parsed, dispatch_events,
  pause_for, is_pause, update_scores_if_any,
}
use dukapay.Indexer.Rules.{
  OnOk, OnOk-elim, OnOk-trivial, OnOk-weaken, OnOk-bind_result, OnOk-query, OnOk-execute,
  OnOk-with_transaction,
}
use dukapay.Indexer.Stored.{IsStored, AllStored, Grows, any-IsStored, IsStored-added, IsStored-last}

-- The rows of the events are as given.
abbrev pub Rows : List ContractEvent → {A : Type 0} → A → World → Type 0
Rows rows a v = v.db.events ≡ rows

audit_all-OnOk : (rs : List AuditRow) (w : World) → OnOk (Rows w.db.events) (audit_all rs w)
unfolding ◌>>◌
audit_all-OnOk [] w = refl
audit_all-OnOk (r ∷ rs) w =
    OnOk-query (λ db. (tt, record db { audit_logs = db.audit_logs ++ r ∷ [] })) (λ _. audit_all rs)
      (Rows w.db.events) w
      (λ v same.
        subst (λ x. OnOk (Rows x) (audit_all rs v)) (ap (λ db. db.events) same)
          (audit_all-OnOk rs v))

pause_for-OnOk :
    (pausing : Bool) (w : World)
    → OnOk (Rows w.db.events) ((if pausing then execute (λ db. db) else pure tt) w)
pause_for-OnOk true w =
    OnOk-weaken _ (Rows w.db.events) (execute (λ db. db) w) (λ a v same. ap (λ db. db.events) same)
      (OnOk-execute (λ db. db) w)
pause_for-OnOk false w = refl

dispatch_events-OnOk :
    (es : List ContractEvent) (w : World) → OnOk (Rows w.db.events) (dispatch_events es w)
unfolding dispatch_events ◌>>◌
dispatch_events-OnOk [] w = refl
dispatch_events-OnOk (e ∷ es) w =
    OnOk-bind_result (Rows w.db.events) (Rows w.db.events)
      (pause_for e (record w { dispatched = w.dispatched ++ e ∷ [] })) (λ _. dispatch_events es)
      (pause_for-OnOk (is_pause e.event_type) (record w { dispatched = w.dispatched ++ e ∷ [] }))
      (λ a v same.
        subst (λ x. OnOk (Rows x) (dispatch_events es v)) same (dispatch_events-OnOk es v))

module _ (repayment_delta default_penalty : ℤ) where
  -- The tables have the rows of these events and all those they had.
  abbrev pub Inserted : List ContractEvent → List ContractEvent → {A : Type 0} → A → World → Type 0
  Inserted es rows a v = AllStored es v.db.events × Grows rows v.db.events

  -- An INSERT that is answered.
  abbrev Put : ContractEvent → List ContractEvent → Option Bool × Db → Type 0
  Put e rows (none, db) = Unit {0}
  Put e rows (some inserted, db) = IsStored e db.events × Grows rows db.events

  insert_event_lem : (e : ContractEvent) (db : Db) → Put e db.events (insert_event e db)
  unfolding insert_event
  insert_event_lem e db = elim (Bool-cases (not db.has_event_columns)) [
    | inl refused ↦ rw refused tt
    | inr taken ↦ elim (Bool-cases (any (conflicts e) db.events)) [
      | inl known ↦ rw (taken, known) (any-IsStored e db.events known, λ f h. h)
      | inr fresh ↦
          rw (taken, fresh) (IsStored-last db.events e, λ f h. IsStored-added f db.events e h)
    ]
  ]

  after_insert-OnOk :
      (rows : List ContractEvent) (r : Option Bool × Db) (e : ContractEvent) (w : World)
      → w.db ≡ r.1
      → Put e rows r
      → OnOk
          (λ a v. IsStored e v.db.events × Grows rows v.db.events)
          (after_insert repayment_delta default_penalty r.0 e w)
  unfolding ◌>>◌
  after_insert-OnOk rows (none, db) e w same put = tt
  after_insert-OnOk rows (some false, db) e w same put = rw same put
  after_insert-OnOk rows (some true, db) e w same put =
      OnOk-bind_result (Rows w.db.events) (λ a v. IsStored e v.db.events × Grows rows v.db.events) _
        (λ _. note_delta repayment_delta default_penalty e)
        (audit_all-OnOk (audit_rows e.event_type e)
          (record w { inserted_events = w.inserted_events ++ e ∷ [] }))
        (λ a v h. rw h (rw same put))

  insert_events-OnOk :
      (es : List ContractEvent) (w : World)
      → OnOk (Inserted es w.db.events) (insert_events repayment_delta default_penalty es w)
  unfolding insert_events ◌>>=◌ ◌>>◌
  insert_events-OnOk [] w = (tt, λ e h. h)
  insert_events-OnOk (e ∷ es) w =
      OnOk-query (insert_event e) _ (Inserted (e ∷ es) w.db.events) w (λ v same.
        OnOk-bind_result (λ a u. IsStored e u.db.events × Grows w.db.events u.db.events)
          (Inserted (e ∷ es) w.db.events) _ _
          (after_insert-OnOk w.db.events (insert_event e w.db) e v same (insert_event_lem e w.db))
          (λ a u put.
            OnOk-weaken _ _ (insert_events repayment_delta default_penalty es u)
              (λ b x h. ((h.1 e put.0, h.0), λ f k. h.1 f (put.1 f k))) (insert_events-OnOk es u)))

  updates-OnOk :
      (es : List ContractEvent) (updates : List (ℕ × ℤ)) (w : World)
      → AllStored es w.db.events
      → OnOk
          (λ a v. AllStored es v.db.events)
          (update_scores_if_any repayment_delta default_penalty updates w)
  unfolding ◌>>◌
  updates-OnOk es [] w h = h
  updates-OnOk es (u ∷ us) w h =
      OnOk-query (λ db. (tt, db)) _ (λ a v. AllStored es v.db.events) w
        (λ v same. subst (λ db. AllStored es db.events) (sym same) h)

  OnOk-store_rows :
      (es : List ContractEvent) (w : World)
      → OnOk (λ a v. AllStored es v.db.events) (store_rows repayment_delta default_penalty es w)
  unfolding store_rows ◌>>◌
  OnOk-store_rows es w =
      OnOk-bind_result (Inserted es w.db.events) (λ a v. AllStored es v.db.events)
        (insert_events repayment_delta default_penalty es w)
        (λ _ v. update_scores_if_any repayment_delta default_penalty v.score_updates v)
        (insert_events-OnOk es w) (λ a v h. updates-OnOk es v.score_updates v h.0)

  store_parsed-OnOk :
      (es : List ContractEvent) (w : World)
      → OnOk (λ n v. AllStored es v.db.events) (store_parsed repayment_delta default_penalty es w)
  unfolding ◌>>◌
  store_parsed-OnOk [] w = tt
  store_parsed-OnOk (e ∷ es) w =
      OnOk-bind_result (λ a v. AllStored (e ∷ es) v.db.events)
        (λ n v. AllStored (e ∷ es) v.db.events)
        (with_transaction max_retries (store_rows repayment_delta default_penalty (e ∷ es)) w) _
        (OnOk-with_transaction (λ db. AllStored (e ∷ es) db.events) max_retries
          (store_rows repayment_delta default_penalty (e ∷ es)) (OnOk-store_rows (e ∷ es)) w)
        (λ a v h.
          OnOk-bind_result (Rows v.db.events) (λ n v. AllStored (e ∷ es) v.db.events)
            (dispatch_events v.inserted_events v) _ (dispatch_events-OnOk v.inserted_events v)
            (λ b u same. subst (AllStored (e ∷ es)) (sym same) h))

  -- Whatever queries fail and however often the transaction is tried again: when `storeEvents` returns,
  -- `loan_events` has, for every event that it was given and could parse, a row with its id or one that
  -- stands for it: of the same loan and type, and of the same ledger or of a type of which a loan has one
  -- event.
  pub store_events-AllStored :
      (rs : List RawEvent) (n : ℕ) (w : World)
      → (store_events repayment_delta default_penalty rs w).0 ≡ ok n
      → AllStored (parsed_events rs) (store_events repayment_delta default_penalty rs w).1.db.events
  unfolding store_events ◌>>◌
  store_events-AllStored rs n w e =
      OnOk-elim (λ n v. AllStored (parsed_events rs) v.db.events)
        (store_events repayment_delta default_penalty rs w) n e
        (OnOk-bind_result (λ a v. Unit {0}) (λ n v. AllStored (parsed_events rs) v.db.events)
          (quarantine_malformed rs w) _ (OnOk-trivial (quarantine_malformed rs w))
          (λ a v h.
            store_parsed-OnOk (parsed_events rs)
              (record v { inserted_events = []; score_updates = [] })))
