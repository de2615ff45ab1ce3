-- ===== src/Indexer/Cursor.antt =====
-- How far `pollOnce` of eventIndexer.ts moves the cursor.
pub mod Chunk
pub mod Reorg
pub mod Poll
use mathlib.Core.Path.{subst}
use dukapay.Base.{
  ℕ, zero, suc, ◌+◌, ◌-◌, min, max, ◌≡◌, ◌≤◌, ◌<◌, refl, sym, ap, ◌∙◌, Bool, true, false,
  Bool-cases, inl, inr, ◌⊎◌, Option, none, some, List, [], ◌∷◌, ◌++◌, All, leb, ltb, ◌==◌, arith,
  if◌then◌else◌,
}
use dukapay.Base.Int.{ℤ}
use dukapay.Indexer.{
  ContractEvent, Parsed, ignored, malformed, parsed, RawEvent, AuditRow, IndexerState, Checkpoint,
  Db, World, M, Error, Result, ok, err, pure, query, execute, bind_result, ◌>>=◌, ◌>>◌,
  with_transaction, max_retries,
}
use dukapay.Indexer.Ingest.{
  has_event, insert_event, insert_events, after_insert, note_delta, audit_all, audit_rows,
  store_events, parsed_events, quarantine_all, quarantine_malformed, has_malformed,
  log_quarantine_growth, quarantine_event, quarantine_if, has_id, store_rows, store_parsed,
  dispatch_events, pause_for, is_pause, update_scores_if_any,
}
use dukapay.Indexer.Keeps.{
  Keeps, Any, Keeps-db, Keeps-bind_result, Keeps-query, Keeps-execute, Keeps-with_transaction,
}
use dukapay.Indexer.Rollback.{CursorAtMost}

module _ (bound : ℕ) where
  abbrev pub Bounded : Db → Type 0
  Bounded db = CursorAtMost bound db.state

  -- A statement that leaves the cursor.
  leave :
      (f : Db → Db) (w : World)
      → (f w.db).state ≡ w.db.state
      → Bounded w.db
      → Keeps Bounded Any (execute f w)
  leave f w same h = Keeps-execute Bounded f w h (subst (CursorAtMost bound) (sym same) h)

  audit_all-Bounded :
      (rs : List AuditRow) (w : World) → Bounded w.db → Keeps Bounded Any (audit_all rs w)
  unfolding ◌>>◌
  audit_all-Bounded [] w h = (h, tt)
  audit_all-Bounded (r ∷ rs) w h =
      Keeps-bind_result Bounded Any Any
        (execute (λ db. record db { audit_logs = db.audit_logs ++ r ∷ [] }) w) (λ _. audit_all rs)
        (leave (λ db. record db { audit_logs = db.audit_logs ++ r ∷ [] }) w refl h)
        (λ a v k _. audit_all-Bounded rs v k)

  pause_for-Bounded :
      (pausing : Bool) (w : World)
      → Bounded w.db
      → Keeps Bounded Any ((if pausing then execute (λ db. db) else pure tt) w)
  pause_for-Bounded true w h = leave (λ db. db) w refl h
  pause_for-Bounded false w h = (h, tt)

  dispatch_events-Bounded :
      (es : List ContractEvent) (w : World)
      → Bounded w.db
      → Keeps Bounded Any (dispatch_events es w)
  unfolding dispatch_events ◌>>◌
  dispatch_events-Bounded [] w h = (h, tt)
  dispatch_events-Bounded (e ∷ es) w h =
      Keeps-bind_result Bounded Any Any
        (pause_for e (record w { dispatched = w.dispatched ++ e ∷ [] })) (λ _. dispatch_events es)
        (pause_for-Bounded (is_pause e.event_type)
          (record w { dispatched = w.dispatched ++ e ∷ [] }) h)
        (λ a v k _. dispatch_events-Bounded es v k)

  add_id : ℕ → Db → Db
  add_id id db =
      if has_id id db.quarantine then db else record db { quarantine = db.quarantine ++ id ∷ [] }

  add_id_state : (id : ℕ) (db : Db) → (add_id id db).state ≡ db.state
  unfolding add_id
  add_id_state id db = ground arith

  quarantine_if-Bounded :
      (p : Parsed) (r : RawEvent) (w : World)
      → Bounded w.db
      → Keeps Bounded Any (quarantine_if p r w)
  unfolding add_id
  quarantine_if-Bounded ignored r w h = (h, tt)
  quarantine_if-Bounded malformed r w h = (
    Keeps-db Bounded Any (execute (add_id r.id) w)
        (leave (add_id r.id) w (add_id_state r.id w.db) h),
    tt,
  )
  quarantine_if-Bounded (parsed e) r w h = (h, tt)

  quarantine_all-Bounded :
      (rs : List RawEvent) (w : World) → Bounded w.db → Keeps Bounded Any (quarantine_all rs w)
  unfolding quarantine_all ◌>>◌
  quarantine_all-Bounded [] w h = (h, tt)
  quarantine_all-Bounded (r ∷ rs) w h =
      Keeps-bind_result Bounded Any Any (quarantine_if r.parse r w) (λ _. quarantine_all rs)
        (quarantine_if-Bounded r.parse r w h) (λ a v k _. quarantine_all-Bounded rs v k)

  log_quarantine_growth-Bounded :
      (b : Bool) (w : World) → Bounded w.db → Keeps Bounded Any (log_quarantine_growth b w)
  log_quarantine_growth-Bounded true w h =
      (Keeps-db Bounded Any (execute (λ db. db) w) (leave (λ db. db) w refl h), tt)
  log_quarantine_growth-Bounded false w h = (h, tt)

  quarantine_malformed-Bounded :
      (rs : List RawEvent) (w : World)
      → Bounded w.db
      → Keeps Bounded Any (quarantine_malformed rs w)
  unfolding quarantine_malformed ◌>>◌
  quarantine_malformed-Bounded rs w h =
      Keeps-bind_result Bounded Any Any (quarantine_all rs w)
        (λ _. log_quarantine_growth (has_malformed rs)) (quarantine_all-Bounded rs w h)
        (λ a v k _. log_quarantine_growth-Bounded (has_malformed rs) v k)

  insert_event_state : (e : ContractEvent) (db : Db) → (insert_event e db).1.state ≡ db.state
  unfolding insert_event
  insert_event_state e db = ground arith

  module _ (repayment_delta default_penalty : ℤ) where
    after_insert-Bounded :
        (inserted : Option Bool) (e : ContractEvent) (w : World)
        → Bounded w.db
        → Keeps Bounded Any (after_insert repayment_delta default_penalty inserted e w)
    unfolding ◌>>◌
    after_insert-Bounded none e w h = h
    after_insert-Bounded (some false) e w h = (h, tt)
    after_insert-Bounded (some true) e w h =
        Keeps-bind_result Bounded Any Any
          (audit_all (audit_rows e.event_type e)
            (record w { inserted_events = w.inserted_events ++ e ∷ [] }))
          (λ _. note_delta repayment_delta default_penalty e)
          (audit_all-Bounded (audit_rows e.event_type e)
            (record w { inserted_events = w.inserted_events ++ e ∷ [] }) h)
          (λ a v k _. (k, tt))

    insert_events-Bounded :
        (es : List ContractEvent) (w : World)
        → Bounded w.db
        → Keeps Bounded Any (insert_events repayment_delta default_penalty es w)
    unfolding insert_events ◌>>=◌ ◌>>◌
    insert_events-Bounded [] w h = (h, tt)
    insert_events-Bounded (e ∷ es) w h =
        Keeps-query Bounded (insert_event e) _ Any w h
          (subst (CursorAtMost bound) (sym (insert_event_state e w.db)) h)
          (λ v same.
            Keeps-bind_result Bounded Any Any
              (after_insert repayment_delta default_penalty (insert_event e w.db).0 e v)
              (λ _. insert_events repayment_delta default_penalty es)
              (after_insert-Bounded (insert_event e w.db).0 e v (
                subst Bounded (sym same)
                  (subst (CursorAtMost bound) (sym (insert_event_state e w.db)) h)))
              (λ a u k _. insert_events-Bounded es u k))

    updates-Bounded :
        (updates : List (ℕ × ℤ)) (w : World)
        → Bounded w.db
        → Keeps Bounded Any (update_scores_if_any repayment_delta default_penalty updates w)
    unfolding ◌>>◌
    updates-Bounded [] w h = (h, tt)
    updates-Bounded (u ∷ us) w h =
        Keeps-query Bounded (λ db. (tt, db)) _ Any w h h
          (λ v same. (subst Bounded (sym same) h, tt))

    store_rows-Bounded :
        (es : List ContractEvent) (w : World)
        → Bounded w.db
        → Keeps Bounded Any (store_rows repayment_delta default_penalty es w)
    unfolding store_rows ◌>>◌
    store_rows-Bounded es w h =
        Keeps-bind_result Bounded Any Any (insert_events repayment_delta default_penalty es w)
          (λ _ v. update_scores_if_any repayment_delta default_penalty v.score_updates v)
          (insert_events-Bounded es w h) (λ a v k _. updates-Bounded v.score_updates v k)

    store_parsed-Bounded :
        (es : List ContractEvent) (w : World)
        → Bounded w.db
        → Keeps Bounded Any (store_parsed repayment_delta default_penalty es w)
    unfolding ◌>>◌
    store_parsed-Bounded [] w h = (h, tt)
    store_parsed-Bounded (e ∷ es) w h =
        Keeps-bind_result Bounded Any Any
          (with_transaction max_retries (store_rows repayment_delta default_penalty (e ∷ es)) w) _
          (Keeps-with_transaction Bounded max_retries
            (store_rows repayment_delta default_penalty (e ∷ es)) w h (store_rows-Bounded (e ∷ es)))
          (λ a v k _.
            Keeps-bind_result Bounded Any Any (dispatch_events v.inserted_events v) _
              (dispatch_events-Bounded v.inserted_events v k) (λ b u l _. (l, tt)))

    pub store_events-Bounded :
        (rs : List RawEvent) (w : World)
        → Bounded w.db
        → Keeps Bounded Any (store_events repayment_delta default_penalty rs w)
    unfolding store_events ◌>>◌
    store_events-Bounded rs w h =
        Keeps-bind_result Bounded Any Any (quarantine_malformed rs w) _
          (quarantine_malformed-Bounded rs w h)
          (λ a v k _.
            store_parsed-Bounded (parsed_events rs)
              (record v { inserted_events = []; score_updates = [] }) k)
