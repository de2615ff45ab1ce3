-- ===== src/AgentFloat/Stuck.antt =====
-- What becomes of float transfers in a table without the column `error_message`, the one that
-- backend/migrations/1804000000000_agent-float-transfers.cjs makes.
use mathlib.Core.Path.{subst}
use dukapay.Base.{
  ℕ, ◌≡◌, refl, Bool, true, false, not, ◌&&◌, Option, none, some, List, [], ◌∷◌, ◌++◌, All,
  Bool-cases, inl, inr, leb, ◌==◌, if◌then◌else◌, arith,
}
use dukapay.Base.Int.{ℤ}
use dukapay.AgentFloat.Store.{
  UserRole, is_admin, Transfer, Approval, AuditEntry, Db, World, Error, Result, ok, err, M,
  throw_if, query, catch, ◌>>=◌, ◌>>◌, find_transfer, has_approval, update_transfer,
}
use dukapay.AgentFloat.Initiate.{
  log_audit, insert_approval, insert_transfer, InitiateInput, initiate_transfer, store_transfer,
  check_limits, get_pair_limits, total_since, new_transfer, is_some,
}
use dukapay.AgentFloat.Approve.{
  BuildResult, or_not_found, load_transfer, approver_role, update_returning, update_executed,
  finish_transfer, count_approval, settle, select_approvals, add_approval, approve_transfer,
  reject_transfer,
}
use dukapay.AgentFloat.Ends.{Ends, query_rule, bind_rule, catch_rule, then_rule, throw_if_rule}
use dukapay.AgentFloat.Signed.{is_executed, All-update, All-append}

module _ (P : Db → Type 0) where
  abbrev Post : {A : Type 0} → A → Db → Type 0
  Post a db = P db

  -- A method that keeps the condition, whether it returns or throws.
  abbrev Keeps : {A : Type 0} → M A → Type 0
  Keeps {A = A} m = (w : World) → P w.db → Ends {A = A} Post Post (m w)

  query-Keeps :
      {A : Type 0} (f : Db → Option (A × Db))
      → ((db : Db) (a : A) (db' : Db) → P db → f db ≡ some (a, db') → P db')
      → Keeps (query f)
  query-Keeps f h w p = query_rule Post Post f w p (λ a db e. h w.db a db p e)

  read-Keeps : {A : Type 0} (g : Db → A) → Keeps (query (λ db. some (g db, db)))
  read-Keeps g = query-Keeps _ (λ db a db' p e. subst P (ground arith) p)

  bind-Keeps :
      {A B : Type 0} (m : M A) (f : A → M B) → Keeps m → ((a : A) → Keeps (f a)) → Keeps (m >>= f)
  bind-Keeps m f h k w p = bind_rule Post Post Post m f w (h w p) (λ a v q. k a v q)

  then-Keeps : {B : Type 0} (m : M (Unit {0})) (k : M B) → Keeps m → Keeps k → Keeps (m >> k)
  then-Keeps m k h g w p = then_rule Post Post Post m k w (h w p) (λ v q. g v q)

  guard-Keeps : {B : Type 0} (c : Bool) (e : Error) (m : M B) → Keeps m → Keeps (throw_if c e >> m)
  guard-Keeps c e m h w p = throw_if_rule Post Post c e m w (λ _. p) (λ _. h w p)

  throw_if-Keeps : (c : Bool) (e : Error) → Keeps (throw_if c e)
  unfolding throw_if
  throw_if-Keeps true e w p = p
  throw_if-Keeps false e w p = p

  catch-Keeps : {A : Type 0} (m : M A) (a : A) → Keeps m → Keeps (catch m a)
  catch-Keeps m a h w p = catch_rule Post Post m a w (h w p)

-- The table has no column `error_message`, and no transfer is COMPLETED or FAILED.
abbrev pub Stuck : Db → Type 0
Stuck db = (db.has_error_message ≡ false) × All (λ t. is_executed t.status ≡ false) db.transfers

log_audit-Keeps : (e : AuditEntry) → Keeps Stuck (log_audit e)
unfolding log_audit
log_audit-Keeps e =
    catch-Keeps Stuck _ tt
      (query-Keeps Stuck _ (λ db a db' p eq. subst Stuck (stored db a db' eq) p))
  where
    stored :
        (db : Db) (a : Unit {0}) (db' : Db)
        → ◌≡◌ {A = Option (Unit {0} × Db)}
            (some (tt, record db { audit_logs = db.audit_logs ++ e ∷ [] }))
            (some (a, db'))
        → record db { audit_logs = db.audit_logs ++ e ∷ [] } ≡ db'
    stored db a db' eq = ground arith

insert_transfer-Keeps :
    (t : Transfer) → is_executed t.status ≡ false → Keeps Stuck (insert_transfer t)
unfolding insert_transfer
insert_transfer-Keeps t new = query-Keeps Stuck _ (λ db a db' p eq.
    subst Stuck (stored db a db' eq)
      (p.0, All-append (λ u. is_executed u.status ≡ false) db.transfers t p.1 new))
  where
    stored :
        (db : Db) (a : Transfer) (db' : Db)
        → if◌then◌else◌ {A = Option (Transfer × Db)}
            (is_some (find_transfer t.id db.transfers))
            none
            (some (t, record db { transfers = db.transfers ++ t ∷ [] }))
          ≡ some (a, db')
        → record db { transfers = db.transfers ++ t ∷ [] } ≡ db'
    stored db a db' eq = ground arith

insert_approval-Keeps : (a : Approval) → Keeps Stuck (insert_approval a)
unfolding insert_approval
insert_approval-Keeps a = query-Keeps Stuck _ (λ db b db' p eq. subst Stuck (stored db b db' eq) p)
  where
    stored :
        (db : Db) (b : Approval) (db' : Db)
        → if◌then◌else◌ {A = Option (Approval × Db)}
            (is_some (find_transfer a.transfer_id db.transfers)
              && not (has_approval a.transfer_id a.approver db.approvals))
            (some (a, record db { approvals = db.approvals ++ a ∷ [] }))
            none
          ≡ some (b, db')
        → record db { approvals = db.approvals ++ a ∷ [] } ≡ db'
    stored db b db' eq = ground arith

update_returning-Keeps :
    (id : ℕ) (f : Transfer → Transfer)
    → ((t : Transfer) → is_executed t.status ≡ false → is_executed (f t).status ≡ false)
    → Keeps Stuck (update_returning id f)
unfolding update_returning
update_returning-Keeps id f kept = query-Keeps Stuck _ (λ db a db' p eq.
    subst Stuck (stored db a db' eq) (
      p.0,
      All-update (λ u. is_executed u.status ≡ false) id f db.transfers (λ t _ q. kept t q) p.1,
    ))
  where
    stored :
        (db : Db) (a : Option Transfer) (db' : Db)
        → ◌≡◌ {A = Option (Option Transfer × Db)}
            (some (
              find_transfer id (update_transfer id f db.transfers),
              record db { transfers = update_transfer id f db.transfers },
            ))
            (some (a, db'))
        → record db { transfers = update_transfer id f db.transfers } ≡ db'
    stored db a db' eq = ground arith

-- The UPDATE that executes is refused.
update_executed-Keeps : (id : ℕ) (f : Transfer → Transfer) → Keeps Stuck (update_executed id f)
unfolding update_executed
update_executed-Keeps id f = query-Keeps Stuck _ (λ db a db' p eq. absurd (refused db a db' p.0 eq))
  where
    refused :
        (db : Db) (a : Option Transfer) (db' : Db)
        → db.has_error_message ≡ false
        → if◌then◌else◌ {A = Option (Option Transfer × Db)} db.has_error_message
            (some (
              find_transfer id (update_transfer id f db.transfers),
              record db { transfers = update_transfer id f db.transfers },
            ))
            none
          ≡ some (a, db')
        → ⊥
    refused db a db' no_column eq = ground arith

load_transfer-Keeps : (id : ℕ) → Keeps Stuck (load_transfer id)
unfolding load_transfer
load_transfer-Keeps id =
    bind-Keeps Stuck _ or_not_found (read-Keeps Stuck (λ db. find_transfer id db.transfers)) found
  where
    found : (o : Option Transfer) → Keeps Stuck (or_not_found o)
    found none w p = p
    found (some t) w p = p

approver_role-Keeps :
    (t : Transfer) (approver : ℕ) (role : Option UserRole)
    → Keeps Stuck (approver_role t approver role)
unfolding approver_role
approver_role-Keeps t approver role w p = elim (Bool-cases (approver == t.from_agent)) [
  | inl a ↦ rw a p
  | inr a ↦ elim (Bool-cases (approver == t.to_agent)) [
    | inl b ↦ rw (a, b) p
    | inr b ↦ elim (Bool-cases (is_admin role)) [ inl c ↦ rw (a, b, c) p | inr c ↦ rw (a, b, c) p ]
  ]
]

initiate_transfer-Keeps :
    (id : ℕ) (input : InitiateInput) → Keeps Stuck (initiate_transfer id input)
unfolding initiate_transfer check_limits get_pair_limits total_since store_transfer
initiate_transfer-Keeps id input =
    guard-Keeps Stuck _ _ _
      (guard-Keeps Stuck _ _ _ (guard-Keeps Stuck _ _ _ (then-Keeps Stuck _ _ limits stored)))
  where
    limits : Keeps Stuck (check_limits input.from_agent input.to_agent input.amount)
    limits = bind-Keeps Stuck _ _ (catch-Keeps Stuck _ _ (read-Keeps Stuck _)) (λ l.
        bind-Keeps Stuck _ _ (λ w. read-Keeps Stuck _ w)
          (λ daily. guard-Keeps Stuck _ _ _ (
            bind-Keeps Stuck _ _ (λ w. read-Keeps Stuck _ w) (λ weekly. throw_if-Keeps Stuck _ _))))

    stored : Keeps Stuck (store_transfer id input)
    stored w =
        bind-Keeps Stuck _ _ (insert_transfer-Keeps (new_transfer id w.now input) refl)
          (λ t.
            bind-Keeps Stuck _ _ (insert_approval-Keeps _)
              (λ a. then-Keeps Stuck _ _ (log_audit-Keeps _) (λ v p. p)))
          w

reject_transfer-Keeps :
    (id rejector : ℕ) (role : Option UserRole) → Keeps Stuck (reject_transfer id rejector role)
unfolding reject_transfer
reject_transfer-Keeps id rejector role = bind-Keeps Stuck _ _ (load_transfer-Keeps id) (λ t.
    guard-Keeps Stuck _ _ _ (
      guard-Keeps Stuck _ _ _ (
        bind-Keeps Stuck _ _ (update_returning-Keeps id _ (λ r q. refl))
          (λ o. then-Keeps Stuck _ _ (log_audit-Keeps _) (λ v p. p)))))

module _ (configured : Bool) (build_tx : ℕ → ℕ → ℤ → BuildResult) where
  settle-Keeps :
      (id : ℕ) (t : Transfer) (approver n : ℕ)
      → Keeps Stuck (settle configured build_tx id t approver n)
  unfolding settle finish_transfer count_approval
  settle-Keeps id t approver n w p = go (leb t.required_approvals n)
    where
      finish : Keeps Stuck (finish_transfer configured build_tx id t approver n)
      finish =
          bind-Keeps Stuck _ _ (update_executed-Keeps id _)
            (λ o. then-Keeps Stuck _ _ (log_audit-Keeps _) (λ v q. q))

      count : Keeps Stuck (count_approval configured build_tx id t n)
      count = bind-Keeps Stuck _ _ (update_returning-Keeps id _ (λ r q. q)) (λ o v q. q)

      go :
          (b : Bool)
          → Ends (Post Stuck) (Post Stuck) (
              (if b
                  then finish_transfer configured build_tx id t approver n
                  else count_approval configured build_tx id t n)
                w)
      go true = finish w p
      go false = count w p

  approve_transfer-Keeps :
      (id approver : ℕ) (role : Option UserRole)
      → Keeps Stuck (approve_transfer configured build_tx id approver role)
  unfolding approve_transfer add_approval select_approvals
  approve_transfer-Keeps id approver role = bind-Keeps Stuck _ _ (load_transfer-Keeps id) (λ t.
      guard-Keeps Stuck _ _ _ (
        bind-Keeps Stuck _ _ (approver_role-Keeps t approver role) (λ r.
          bind-Keeps Stuck _ _ (read-Keeps Stuck _) (λ existing. guard-Keeps Stuck _ _ _ (
            bind-Keeps Stuck _ _ (insert_approval-Keeps _) (λ a.
              then-Keeps Stuck _ _ (log_audit-Keeps _) (
                bind-Keeps Stuck _ _ (settle-Keeps id t approver _)
                  (λ o. bind-Keeps Stuck _ _ (read-Keeps Stuck _) (λ l v p. p)))))))))

  tables : {A : Type 0} (r : Result A × World) → Ends (Post Stuck) (Post Stuck) r → Stuck r.1.db
  tables (ok a, w) h = h
  tables (err e, w) h = h

  -- A request with its clock and its failing queries.
  pub data Request : Type 0 where
    initiates : ℕ → InitiateInput → Request
    approves rejects : ℕ → ℕ → Option UserRole → Request

  abbrev pub serve : Request → World → Db
  serve (initiates id input) w = (initiate_transfer id input w).1.db
  serve (approves id approver role) w =
      (approve_transfer configured build_tx id approver role w).1.db
  serve (rejects id rejector role) w = (reject_transfer id rejector role w).1.db

  unfoldable pub serve_all : List (Request × (List Bool × ℕ)) → Db → Db
  serve_all [] db = db
  serve_all ((r, (faults, now)) ∷ rs) db =
      serve_all rs (serve r (record { db = db; faults = faults; now = now }))

  serve-Stuck : (r : Request) (w : World) → Stuck w.db → Stuck (serve r w)
  serve-Stuck (initiates id input) w p = tables _ (initiate_transfer-Keeps id input w p)
  serve-Stuck (approves id approver role) w p =
      tables _ (approve_transfer-Keeps id approver role w p)
  serve-Stuck (rejects id rejector role) w p = tables _ (reject_transfer-Keeps id rejector role w p)

  -- In a table without the column `error_message`, in which no transfer is COMPLETED or FAILED, none ever
  -- is, whatever requests come, with however many approvals, and whichever of their queries fail.
  pub serve_all-Stuck :
      (rs : List (Request × (List Bool × ℕ))) (db : Db) → Stuck db → Stuck (serve_all rs db)
  unfolding serve_all
  serve_all-Stuck [] db p = p
  serve_all-Stuck ((r, (faults, now)) ∷ rs) db p =
      serve_all-Stuck rs _ (serve-Stuck r (record { db = db; faults = faults; now = now }) p)
