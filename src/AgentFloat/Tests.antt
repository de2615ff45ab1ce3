-- ===== src/AgentFloat/Tests.antt =====
-- The float transfers at concrete tables: agent 10 sends 500 stroops to agent 20, who approves.
use mathlib.Core.Path.{subst}
use dukapay.Base.{ℕ, ◌≡◌, ◌≢◌, ◌≤◌, inl, inr, refl, Bool, true, false, none, some, List, [], ◌∷◌}
use dukapay.Base.Int.{ℤ, pos, ◌+ℤ◌}
use dukapay.AgentFloat.Store.{
  completed, UserRole, Transfer, Db, World, db_error, Result, ok, err, query, catch, throw_if,
  ◌>>=◌, ◌>>◌, find_transfer, has_approval, approvals_of, find_limits, pair_total, update_transfer,
}
use dukapay.AgentFloat.Initiate.{
  InitiateInput, get_pair_limits, log_audit, total_since, check_limits, insert_transfer,
  insert_approval, store_transfer, initiate_transfer,
}
use dukapay.AgentFloat.Approve.{
  BuildResult, built, load_transfer, approver_role, update_returning, update_executed, final_status,
  execute, finish_transfer, settle, select_approvals, add_approval, approve_transfer,
}
use dukapay.AgentFloat.Signed.{IsDistinct, DbSigned, signatures}
use dukapay.AgentFloat.Stuck.{Request, initiates, approves, Stuck, serve_all, serve_all-Stuck}
use dukapay.AgentFloat.Laws.{initiated, approved, here, next, completed-two_signatures}
use dukapay.AgentFloat.Refusals.{IsRefused, IsRejected, approve_transfer-refused}

abbrev build : ℕ → ℕ → ℤ → BuildResult
build from_agent to_agent amount = built 7

abbrev empty : Db
empty = record {
  has_error_message = true;
  transfers = [];
  approvals = [];
  limits = [];
  audit_logs = [];
}

abbrev at : Db → World
at db = record { db = db; faults = []; now = 1_000_000 }

abbrev input : InitiateInput
input = record {
  from_agent = 10;
  to_agent = 20;
  amount = pos 500;
  reason = none;
  created_by = 10;
  user_role = none;
}

abbrev opened : Db
opened = (initiate_transfer 1 input (at empty)).1.db

abbrev closed : Db
closed = (approve_transfer true build 1 20 none (at opened)).1.db

abbrev row : Transfer
row = record {
  id = 1;
  from_agent = 10;
  to_agent = 20;
  amount = pos 500;
  reason = none;
  status = completed;
  required_approvals = 2;
  approval_count = 2;
  created_by = 10;
  created_at = 1_000_000;
  error_message = none;
}

empty-DbSigned : DbSigned empty
empty-DbSigned = record { signed = tt; distinct = tt }

closed_found : find_transfer 1 closed.transfers ≡ some row
unfolding initiate_transfer check_limits get_pair_limits total_since store_transfer insert_transfer
    insert_approval log_audit query catch throw_if ◌>>=◌ ◌>>◌ find_transfer find_limits pair_total
    has_approval approve_transfer load_transfer approver_role add_approval settle finish_transfer
    execute update_executed update_returning update_transfer final_status select_approvals
    approvals_of ◌+ℤ◌
closed_found = refl

abbrev Returned : {A : Type 0} → Result A → Type 0
Returned (ok a) = Unit
Returned (err e) = ⊥

opened_ok : (initiate_transfer 1 input (at empty)).0 ≢ err db_error
unfolding initiate_transfer check_limits get_pair_limits total_since store_transfer insert_transfer
    insert_approval log_audit query catch throw_if ◌>>=◌ ◌>>◌ find_transfer find_limits pair_total
    has_approval ◌+ℤ◌
opened_ok e = subst Returned e tt

completed-two_signatures_example : (2 ≤ signatures 1 closed.approvals) × IsDistinct closed.approvals
completed-two_signatures_example =
    completed-two_signatures true build 1 row
      (next (next here (initiated 1 input [] 1_000_000 opened_ok refl))
        (approved 1 20 none [] 1_000_000 refl))
      empty-DbSigned closed_found refl

-- Agent 10 has approved by initiating the transfer.
opened-IsRefused : IsRefused 1 10 none opened
unfolding initiate_transfer check_limits get_pair_limits total_since store_transfer insert_transfer
    insert_approval log_audit query catch throw_if ◌>>=◌ ◌>>◌ find_transfer find_limits pair_total
    has_approval ◌+ℤ◌
opened-IsRefused t found = inr (inl refl)

approve_transfer-refused_example :
    IsRejected true build 1 10 none (at opened) (approve_transfer true build 1 10 none (at opened))
approve_transfer-refused_example =
    approve_transfer-refused true build 1 10 none (at opened) opened-IsRefused

-- Opened, and approved by the recipient and by an administrator, in a table without the column.
abbrev requests : List (Request true build × (List Bool × ℕ))
requests =
    (initiates 1 input, ([], 1_000_000))
    ∷ (approves 1 20 none, ([], 1_000_000))
    ∷ (approves 1 30 (some UserRole.admin), ([], 1_000_000))
    ∷ []

serve_all-Stuck_example :
    Stuck (serve_all true build requests (record empty { has_error_message = false }))
serve_all-Stuck_example =
    serve_all-Stuck true build requests (record empty { has_error_message = false }) (refl, tt)
