-- ===== src/AgentFloat/Laws.antt =====
-- What the float transfers guarantee.
use mathlib.Core.Path.{subst, sym, ap}
use dukapay.Base.{ℕ, ◌≤◌, ◌≡◌, ◌≢◌, refl, Bool, Option, some, List}
use dukapay.Base.Int.{ℤ}
use dukapay.AgentFloat.Store.{
  completed, Transfer, Db, World, Result, ok, err, db_error, UserRole, find_transfer,
}
use dukapay.AgentFloat.Initiate.{InitiateInput, initiate_transfer}
use dukapay.AgentFloat.Approve.{BuildResult, approve_transfer, reject_transfer}
use dukapay.AgentFloat.Ends.{Ends}
use dukapay.AgentFloat.Signed.{IsSigned, IsDistinct, DbSigned, signatures, All-find_transfer}
use dukapay.AgentFloat.Preserve.{Kept, approve_transfer_rule, reject_transfer_rule}
use dukapay.AgentFloat.Opening.{KeptUnlessFault, initiate_transfer_rule}

Ends-tables : {A : Type 0} (r : Result A × World) → Ends Kept Kept r → DbSigned r.1.db
Ends-tables (ok a, w) h = h
Ends-tables (err e, w) h = h

Ends-tables_unless :
    {A : Type 0} (r : Result A × World)
    → r.0 ≢ err db_error
    → Ends Kept KeptUnlessFault r
    → DbSigned r.1.db
Ends-tables_unless (ok a, w) n h = h
Ends-tables_unless (err e, w) n h = h (λ same. n (ap err same))

module _ (configured : Bool) (build_tx : ℕ → ℕ → ℤ → BuildResult) where
  -- One request leads from one state of the database to another. Each has its own clock and its own
  -- failing queries; an `initiateTransfer` that a failing query broke off is not in this relation.
  pub data Step : Db → Db → Type 0 where
    initiated :
        {db db' : Db} (id : ℕ) (input : InitiateInput) (faults : List Bool) (now : ℕ)
        → (initiate_transfer id input (record { db = db; faults = faults; now = now })).0
          ≢ err db_error
        → db' ≡ (initiate_transfer id input (record { db = db; faults = faults; now = now })).1.db
        → Step db db'
    approved :
        {db db' : Db} (id approver : ℕ) (role : Option UserRole) (faults : List Bool) (now : ℕ)
        → db'
          ≡ (approve_transfer configured build_tx id approver role
              (record { db = db; faults = faults; now = now })).1.db
        → Step db db'
    rejected :
        {db db' : Db} (id rejector : ℕ) (role : Option UserRole) (faults : List Bool) (now : ℕ)
        → db'
          ≡ (reject_transfer id rejector role (record { db = db; faults = faults; now = now })).1.db
        → Step db db'

  pub data Reach (start : Db) : Db → Type 0 where
    here : Reach start start
    next : {db db' : Db} → Reach start db → Step db db' → Reach start db'

  Step-DbSigned : {db db' : Db} → Step db db' → DbSigned db → DbSigned db'
  Step-DbSigned (initiated id input faults now n e) h = subst DbSigned (sym e) (
      Ends-tables_unless _ n
        (initiate_transfer_rule id input (record { db = _; faults = faults; now = now }) h))
  Step-DbSigned (approved id approver role faults now e) h = subst DbSigned (sym e) (
      Ends-tables _ (
        approve_transfer_rule configured build_tx id approver role
          (record { db = _; faults = faults; now = now }) h))
  Step-DbSigned (rejected id rejector role faults now e) h = subst DbSigned (sym e) (
      Ends-tables _
        (reject_transfer_rule id rejector role (record { db = _; faults = faults; now = now }) h))

  Reach-DbSigned : {start db : Db} → Reach start db → DbSigned start → DbSigned db
  Reach-DbSigned here h = h
  Reach-DbSigned (next r s) h = Step-DbSigned s (Reach-DbSigned r h)

  -- 2-of-3: after any sequence of requests on sound tables, in which queries of `approveTransfer` and
  -- `rejectTransfer` may fail anywhere but no `initiateTransfer` is broken off by a failing query, a
  -- transfer that is found COMPLETED has at least two approval rows, and no two approval rows of one
  -- transfer have the same approver, whether or not the table has the column `error_message`.
  pub completed-two_signatures :
      {start db : Db} (id : ℕ) (t : Transfer)
      → Reach start db
      → DbSigned start
      → find_transfer id db.transfers ≡ some t
      → t.status ≡ completed
      → (2 ≤ signatures id db.approvals) × IsDistinct db.approvals
  completed-two_signatures {db = db} id t r h found done =
      let signed = Reach-DbSigned r h in
      let (row, same) =
        All-find_transfer (IsSigned db.approvals) id db.transfers t signed.signed found in
      (
        subst (λ (i : ℕ). 2 ≤ signatures i db.approvals) same (row.executed (rw done refl)),
        signed.distinct,
      )
