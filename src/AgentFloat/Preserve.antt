-- ===== src/AgentFloat/Preserve.antt =====
-- `approveTransfer`, `rejectTransfer` and the invariant of the two signatures.
use mathlib.Core.Path.{subst, subst₂}
use dukapay.Base.{
  ℕ, ◌+◌, ◌≤◌, ◌≡◌, refl, sym, Bool, true, false, not, ◌&&◌, Option, none, some, List, [], ◌∷◌,
  ◌++◌, arith, ◌==◌, if◌then◌else◌, Bool-cases, inl, inr, leb, leb→le,
}
use dukapay.Base.Int.{ℤ}
use dukapay.AgentFloat.Store.{
  Transfer, Approval, AuditEntry, Db, World, Error, ApproverRole, UserRole, find_transfer,
  has_approval, update_transfer, is_admin,
}
use dukapay.AgentFloat.Initiate.{log_audit, insert_approval, is_some}
use dukapay.AgentFloat.Approve.{
  BuildResult, or_not_found, load_transfer, approver_role, update_returning, update_executed,
  finish_transfer, count_approval, settle, select_approvals, add_approval, approve_transfer,
  reject_transfer,
}
use dukapay.AgentFloat.Ends.{Ends, query_rule, bind_rule, catch_rule, throw_if_rule, then_rule}
use dukapay.AgentFloat.Signed.{
  IsSigned, AllSigned, DbSigned, signatures, signatures-append, All-IsSigned-append,
  IsDistinct-append, All-update, All-find_transfer,
}

-- A predicate of the two tables survives the audit log.
pub log_audit_rule :
    (P : List Transfer → List Approval → Type 0) (Exc : Error → Db → Type 0) (entry : AuditEntry)
    (w : World)
    → P w.db.transfers w.db.approvals
    → Ends (λ _ db. P db.transfers db.approvals) Exc (log_audit entry w)
unfolding log_audit
log_audit_rule P Exc entry w h =
    catch_rule (λ _ db. P db.transfers db.approvals) Exc _ _ _
      (query_rule (λ _ db. P db.transfers db.approvals) (λ _ db. P db.transfers db.approvals) _ _ h
        (λ a db e. subst₂ P (ground arith) (ground arith) h))

abbrev pub Kept : {A : Type 0} → A → Db → Type 0
Kept _ db = DbSigned db

pub record Found (id : ℕ) (t : Transfer) (db : Db) : Type 0 where
  pub tables : DbSigned db
  pub row : IsSigned db.approvals t
  pub same : t.id ≡ id

abbrev Looked : ℕ → Option Transfer → Db → Type 0
Looked id o db = DbSigned db × (o ≡ find_transfer id db.transfers)

load_transfer_rule :
    (id : ℕ) (w : World) → DbSigned w.db → Ends (Found id) Kept (load_transfer id w)
unfolding load_transfer
load_transfer_rule id w h =
    bind_rule (Found id) Kept (Looked id) _ _ _
      (query_rule (Looked id) Kept _ _ h (λ o db e. ground arith)) (λ o v hv. found o v hv.0 hv.1)
  where
    found :
        (o : Option Transfer) (v : World)
        → DbSigned v.db
        → o ≡ find_transfer id v.db.transfers
        → Ends (Found id) Kept (or_not_found o v)
    found none v hv e = hv
    found (some t) v hv e =
        let (row, same) =
          All-find_transfer (IsSigned v.db.approvals) id v.db.transfers t hv.signed (sym e) in
        record { tables = hv; row = row; same = same }

-- The tables are sound, and transfer `id` has at least `n` approval rows.
abbrev Covered : ℕ → ℕ → List Transfer → List Approval → Type 0
Covered id n ts as' = AllSigned ts as' × (n ≤ signatures id as')

insert_approval_rule :
    (a : Approval) (t : Transfer) (w : World)
    → Found a.transfer_id t w.db
    → Ends
        (λ _ db. Covered a.transfer_id (t.approval_count + 1) db.transfers db.approvals)
        Kept
        (insert_approval a w)
unfolding insert_approval
insert_approval_rule a t w h =
    query_rule (λ _ db. Covered a.transfer_id (t.approval_count + 1) db.transfers db.approvals) Kept
      _ _ h.tables
      (λ a' db e.
        let (new, same) = accepted a' db e in
        subst (λ (d : Db). Covered a.transfer_id (t.approval_count + 1) d.transfers d.approvals)
          same
          (
            record {
              signed = All-IsSigned-append w.db.approvals a w.db.transfers h.tables.signed;
              distinct = IsDistinct-append w.db.approvals a new h.tables.distinct;
            },
            one_more,
          ))
  where
    one_more : t.approval_count + 1 ≤ signatures a.transfer_id (w.db.approvals ++ a ∷ [])
    one_more =
        let counted : t.approval_count ≤ signatures a.transfer_id w.db.approvals =
          subst (λ (i : ℕ). t.approval_count ≤ signatures i w.db.approvals) h.same h.row.counted in
        ground (arith, signatures-append a.transfer_id w.db.approvals a)

    accepted :
        (a' : Approval) (db : Db)
        → if◌then◌else◌ {A = Option (Approval × Db)}
            (is_some (find_transfer a.transfer_id w.db.transfers)
              && not (has_approval a.transfer_id a.approver w.db.approvals))
            (some (a, record (w.db) { approvals = w.db.approvals ++ a ∷ [] }))
            none
          ≡ some (a', db)
        → (has_approval a.transfer_id a.approver w.db.approvals ≡ false)
          × (record (w.db) { approvals = w.db.approvals ++ a ∷ [] } ≡ db)
    accepted a' db e = ground arith

-- An UPDATE of one transfer's rows keeps the tables sound if it keeps each row sound.
update_returning_rule :
    (id n : ℕ) (f : Transfer → Transfer) (w : World)
    → ((as' : List Approval) (r : Transfer)
        → n ≤ signatures id as'
        → r.id ≡ id
        → IsSigned as' r
        → IsSigned as' (f r))
    → Covered id n w.db.transfers w.db.approvals
    → Ends Kept Kept (update_returning id f w)
unfolding update_returning
update_returning_rule id n f w keep (h, c) = query_rule Kept Kept _ _ h (λ o db e.
    let same : record (w.db) { transfers = update_transfer id f w.db.transfers } ≡ db =
      ground arith in
    subst DbSigned same (record {
      signed =
          All-update (IsSigned w.db.approvals) id f w.db.transfers
            (λ r e' s. keep w.db.approvals r c e' s) h.signed;
      distinct = h.distinct;
    }))

-- So does the UPDATE that executes, answered or refused.
update_executed_rule :
    (id n : ℕ) (f : Transfer → Transfer) (w : World)
    → ((as' : List Approval) (r : Transfer)
        → n ≤ signatures id as'
        → r.id ≡ id
        → IsSigned as' r
        → IsSigned as' (f r))
    → Covered id n w.db.transfers w.db.approvals
    → Ends Kept Kept (update_executed id f w)
unfolding update_executed
update_executed_rule id n f w keep (h, c) = query_rule Kept Kept _ _ h (λ o db e.
    let same : record (w.db) { transfers = update_transfer id f w.db.transfers } ≡ db =
      accepted o db e in
    subst DbSigned same (record {
      signed =
          All-update (IsSigned w.db.approvals) id f w.db.transfers
            (λ r e' s. keep w.db.approvals r c e' s) h.signed;
      distinct = h.distinct;
    }))
  where
    accepted :
        (o : Option Transfer) (db : Db)
        → if◌then◌else◌ {A = Option (Option Transfer × Db)} w.db.has_error_message
            (some (
              find_transfer id (update_transfer id f w.db.transfers),
              record (w.db) { transfers = update_transfer id f w.db.transfers },
            ))
            none
          ≡ some (o, db)
        → record (w.db) { transfers = update_transfer id f w.db.transfers } ≡ db
    accepted o db e = ground arith

module _ (configured : Bool) (build_tx : ℕ → ℕ → ℤ → BuildResult) where
  module _ (id : ℕ) (t : Transfer) (n : ℕ) (w : World)
      (h : Covered id n w.db.transfers w.db.approvals) where
    finish_transfer_rule :
        (approver : ℕ)
        → 2 ≤ n
        → Ends Kept Kept (finish_transfer configured build_tx id t approver n w)
    unfolding finish_transfer
    finish_transfer_rule approver two =
        bind_rule Kept Kept Kept _ _ _
          (update_executed_rule id n _ w
            (λ as' r c e s.
              let c' : n ≤ signatures r.id as' =
                subst (λ (i : ℕ). n ≤ signatures i as') (sym e) c in
              record { threshold = s.threshold; counted = c'; executed = λ _. omega arith })
            h)
          (λ o v hv.
            then_rule Kept Kept Kept _ _ _ (log_audit_rule AllSigned Kept _ v hv) (λ v' hv'. hv'))

    count_approval_rule : Ends Kept Kept (count_approval configured build_tx id t n w)
    unfolding count_approval
    count_approval_rule =
        bind_rule Kept Kept Kept _ _ _
          (update_returning_rule id n _ w
            (λ as' r c e s.
              let c' : n ≤ signatures r.id as' =
                subst (λ (i : ℕ). n ≤ signatures i as') (sym e) c in
              record { threshold = s.threshold; counted = c'; executed = s.executed })
            h)
          (λ o v hv. hv)

  settle_rule :
      (id : ℕ) (t : Transfer) (approver n : ℕ) (w : World)
      → t.required_approvals ≡ 2
      → Covered id n w.db.transfers w.db.approvals
      → Ends Kept Kept (settle configured build_tx id t approver n w)
  unfolding settle
  settle_rule id t approver n w two h = go (leb t.required_approvals n) refl
    where
      go :
          (b : Bool)
          → leb t.required_approvals n ≡ b
          → Ends Kept Kept (
              (if b
                  then finish_transfer configured build_tx id t approver n
                  else count_approval configured build_tx id t n)
                w)
      go true e = finish_transfer_rule id t n w h approver (omega (arith, leb→le _ _ e))
      go false e = count_approval_rule id t n w h

  add_approval_rule :
      (id : ℕ) (t : Transfer) (approver : ℕ) (role : ApproverRole) (w : World)
      → Found id t w.db
      → Ends Kept Kept (add_approval configured build_tx id t approver role w)
  unfolding add_approval select_approvals
  add_approval_rule id t approver role w h =
      bind_rule Kept Kept (λ _ db. Covered id (t.approval_count + 1) db.transfers db.approvals) _ _
        _
        (insert_approval_rule (record { transfer_id = id; approver = approver; role = role }) t w h)
        (λ a v hv.
          then_rule Kept Kept (λ _ db. Covered id (t.approval_count + 1) db.transfers db.approvals)
            _ _ _ (log_audit_rule (Covered id (t.approval_count + 1)) Kept _ v hv)
            (λ v' hv'.
              bind_rule Kept Kept Kept _ _ _
                (settle_rule id t approver (t.approval_count + 1) v' h.row.threshold hv')
                (λ o u hu.
                  bind_rule Kept Kept Kept _ _ _
                    (query_rule Kept Kept _ _ hu
                      (λ l db e. subst₂ AllSigned (ground arith) (ground arith) hu))
                    (λ l u' hu'. hu'))))

  approver_role_rule :
      (id : ℕ) (t : Transfer) (approver : ℕ) (user_role : Option UserRole) (w : World)
      → Found id t w.db
      → Ends (λ _ db. Found id t db) Kept (approver_role t approver user_role w)
  unfolding approver_role
  approver_role_rule id t approver user_role w h = elim (Bool-cases (approver == t.from_agent)) [
    | inl a ↦ rw a h
    | inr a ↦ elim (Bool-cases (approver == t.to_agent)) [
      | inl b ↦ rw (a, b) h
      | inr b ↦ elim (Bool-cases (is_admin user_role)) [
        | inl c ↦ rw (a, b, c) h
        | inr c ↦ rw (a, b, c) (h.tables)
      ]
    ]
  ]

  pub approve_transfer_rule :
      (id approver : ℕ) (user_role : Option UserRole) (w : World)
      → DbSigned w.db
      → Ends Kept Kept (approve_transfer configured build_tx id approver user_role w)
  unfolding approve_transfer
  approve_transfer_rule id approver user_role w h =
      bind_rule Kept Kept (Found id) _ _ _ (load_transfer_rule id w h) (λ t v hv.
        throw_if_rule Kept Kept _ _ _ v (λ _. hv.tables)
          (λ _.
            bind_rule Kept Kept (λ _ db. Found id t db) _ _ v
              (approver_role_rule id t approver user_role v hv)
              (λ role u hu.
                bind_rule Kept Kept (λ _ db. Found id t db) _ _ u
                  (query_rule (λ _ db. Found id t db) Kept _ u hu.tables
                    (λ b db e. subst (Found id t) (ground arith) hu))
                  (λ b u' hu'.
                    throw_if_rule Kept Kept _ _ _ u' (λ _. hu'.tables)
                      (λ _. add_approval_rule id t approver role u' hu')))))

pub reject_transfer_rule :
    (id rejector : ℕ) (user_role : Option UserRole) (w : World)
    → DbSigned w.db
    → Ends Kept Kept (reject_transfer id rejector user_role w)
unfolding reject_transfer
reject_transfer_rule id rejector user_role w h =
    bind_rule Kept Kept (Found id) _ _ _ (load_transfer_rule id w h) (λ t v hv.
      throw_if_rule Kept Kept _ _ _ v (λ _. hv.tables)
        (λ _.
          throw_if_rule Kept Kept _ _ _ v (λ _. hv.tables)
            (λ _.
              bind_rule Kept Kept Kept _ _ v
                (update_returning_rule id 0 _ v
                  (λ as' r c e s. record {
                    threshold = s.threshold;
                    counted = s.counted;
                    executed = λ e'. cc;
                  })
                  (hv.tables, omega arith))
                (λ o u hu.
                  then_rule Kept Kept Kept _ _ u (log_audit_rule AllSigned Kept _ u hu)
                    (λ u' hu'. hu')))))
