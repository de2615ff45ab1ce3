-- ===== src/AgentFloat/Approve.antt =====
-- `approveTransfer` and `rejectTransfer` of agentFloatService.ts.
use dukapay.Base.{
  ℕ, ◌+◌, Bool, true, false, not, ◌&&◌, Option, none, some, List, leb, ◌==◌, if◌then◌else◌,
}
use dukapay.Base.Int.{ℤ}
use dukapay.AgentFloat.Store.{
  Status, pending_approval, completed, rejected, failed, ApproverRole, initiator, recipient, admin,
  UserRole, is_admin, is_plain_admin, Transfer, Approval, approved, executed, rejection, transfer,
  bad_request, forbidden, not_found, M, pure, throw, throw_if, query, ◌>>=◌, ◌>>◌, find_transfer,
  approvals_of, has_approval, update_transfer,
}
use dukapay.AgentFloat.Initiate.{log_audit, insert_approval}

abbrev pub or_not_found : {A : Type 0} → Option A → M A
or_not_found none = throw not_found
or_not_found (some a) = pure a

unfoldable pub load_transfer : ℕ → M Transfer
load_transfer transfer_id = do
  found ← query (λ db. some (find_transfer transfer_id db.transfers, db))
  or_not_found found

abbrev pub is_pending : Status → Bool
is_pending pending_approval = true
is_pending _ = false

-- 'Determine approver role'.
unfoldable pub approver_role : Transfer → ℕ → Option UserRole → M ApproverRole
approver_role t approver user_role =
    if approver == t.from_agent
    then pure initiator
    else (if approver == t.to_agent
        then pure recipient
        else (if is_admin user_role then pure admin else throw forbidden))

-- `UPDATE … RETURNING *`, of which the first row is read.
unfoldable pub update_returning : ℕ → (Transfer → Transfer) → M (Option Transfer)
update_returning id f = query (λ db.
    let ts = update_transfer id f db.transfers in
    some (find_transfer id ts, record db { transfers = ts }))

-- The UPDATE of the branch that executes, which names `error_message`: PostgreSQL refuses it for a table
-- without that column.
unfoldable pub update_executed : ℕ → (Transfer → Transfer) → M (Option Transfer)
update_executed id f = query (λ db.
    let ts = update_transfer id f db.transfers in
    if db.has_error_message then some (find_transfer id ts, record db { transfers = ts }) else none)

-- `sorobanService.buildTransferToAgentTx`, which returns an unsigned transaction or throws.
pub data BuildResult : Type 0 where
  built : ℕ → BuildResult
  build_failed : ℕ → BuildResult

-- What the attempt on the chain leaves: `onChainError`, `executedOnChain` and `unsignedTxXdr`.
pub record OnChain : Type 0 where
  pub error : Option ℕ
  pub executed_on_chain : Bool
  pub unsigned_tx_xdr : Option ℕ

pub record ApproveOutcome : Type 0 where
  pub transfer : Option Transfer
  pub approvals : List Approval
  pub executed_on_chain : Bool
  pub unsigned_tx_xdr : Option ℕ

-- `onChainError ? 'FAILED' : 'COMPLETED'`; an empty message is falsy.
unfoldable pub final_status : Option ℕ → Status
final_status none = completed
final_status (some message) = if message == 0 then completed else failed

-- The chain: `AGENT_VAULT_CONTRACT_ID` may be unset, and the builder may throw.
module _ (configured : Bool) (build_tx : ℕ → ℕ → ℤ → BuildResult) where
  abbrev pub from_build : BuildResult → OnChain
  from_build (built xdr) = record {
    error = none;
    executed_on_chain = true;
    unsigned_tx_xdr = some xdr;
  }
  from_build (build_failed message) = record {
    error = some message;
    executed_on_chain = false;
    unsigned_tx_xdr = none;
  }

  unfoldable pub execute : Transfer → OnChain
  execute t =
      if configured
      then from_build (build_tx t.from_agent t.to_agent t.amount)
      else record { error = none; executed_on_chain = true; unsigned_tx_xdr = none }

  -- 'Threshold check (2-of-3)': the branch that executes.
  unfoldable pub finish_transfer : ℕ → Transfer → ℕ → ℕ → M (Option Transfer × OnChain)
  finish_transfer transfer_id t approver new_count = do
    let chain = execute t
    updated ← update_executed transfer_id (λ r. record r {
      status = final_status chain.error;
      approval_count = new_count;
      error_message = chain.error;
    })
    log_audit (record {
      actor = approver;
      action = executed;
      target = transfer transfer_id;
      status = 200;
    })
    pure (updated, chain)

  -- The branch below the threshold.
  unfoldable pub count_approval : ℕ → Transfer → ℕ → M (Option Transfer × OnChain)
  count_approval transfer_id t new_count = do
    updated ← update_returning transfer_id (λ r. record r { approval_count = new_count })
    pure (updated, record { error = none; executed_on_chain = false; unsigned_tx_xdr = none })

  unfoldable pub settle : ℕ → Transfer → ℕ → ℕ → M (Option Transfer × OnChain)
  settle transfer_id t approver new_count =
      if leb t.required_approvals new_count
      then finish_transfer transfer_id t approver new_count
      else count_approval transfer_id t new_count

  unfoldable pub select_approvals : ℕ → M (List Approval)
  select_approvals transfer_id = query (λ db. some (approvals_of transfer_id db.approvals, db))

  -- From 'Insert approval' to the end of `approveTransfer`.
  unfoldable pub add_approval : ℕ → Transfer → ℕ → ApproverRole → M ApproveOutcome
  add_approval transfer_id t approver role = do
    _ ← insert_approval (record { transfer_id = transfer_id; approver = approver; role = role })
    let new_count = t.approval_count + 1
    log_audit (record {
      actor = approver;
      action = approved;
      target = transfer transfer_id;
      status = 200;
    })
    (updated, chain) ← settle transfer_id t approver new_count
    approvals ← select_approvals transfer_id
    pure (record {
      transfer = updated;
      approvals = approvals;
      executed_on_chain = chain.executed_on_chain;
      unsigned_tx_xdr = chain.unsigned_tx_xdr;
    })

  unfoldable pub approve_transfer : ℕ → ℕ → Option UserRole → M ApproveOutcome
  approve_transfer transfer_id approver user_role = do
    t ← load_transfer transfer_id
    throw_if (not (is_pending t.status)) bad_request
    role ← approver_role t approver user_role
    existing ← query (λ db. some (has_approval transfer_id approver db.approvals, db))
    throw_if existing bad_request
    add_approval transfer_id t approver role

unfoldable pub reject_transfer : ℕ → ℕ → Option UserRole → M (Option Transfer)
reject_transfer transfer_id rejector user_role = do
  t ← load_transfer transfer_id
  throw_if (not (is_pending t.status)) bad_request
  throw_if
      (not (rejector == t.from_agent)
        && not (rejector == t.to_agent)
        && not (is_plain_admin user_role))
      forbidden
  updated ← update_returning transfer_id (λ r. record r { status = rejected })
  log_audit
      (record { actor = rejector; action = rejection; target = transfer transfer_id; status = 200 })
  pure updated
