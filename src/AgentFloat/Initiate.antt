-- ===== src/AgentFloat/Initiate.antt =====
-- Limits of an agent pair, and the start of a transfer: `getPairLimits` to `initiateTransfer` and
-- `logAudit` of agentFloatService.ts.
use dukapay.Base.{
  ℕ, ◌-◌, ◌*◌, Bool, true, false, not, ◌&&◌, ◌||◌, Option, none, some, List, [], ◌∷◌, ◌++◌, ◌==◌,
  if◌then◌else◌,
}
use dukapay.Base.Int.{ℤ, pos, ◌+ℤ◌, ltb_ℤ, leb_ℤ}
use dukapay.AgentFloat.Store.{
  pending_approval, initiator, admin, UserRole, is_admin, Transfer, Approval, Limits,
  limits_updated, initiated, transfer, pair, AuditEntry, bad_request, forbidden, M, pure, throw_if,
  query, catch, ◌>>=◌, ◌>>◌, find_transfer, has_approval, find_limits, pair_total,
}

-- `DEFAULT_DAILY_LIMIT` and `DEFAULT_WEEKLY_LIMIT`, in stroops.
abbrev pub default_daily_limit : ℤ
default_daily_limit = pos 1_000_000_000_000

abbrev pub default_weekly_limit : ℤ
default_weekly_limit = pos 5_000_000_000_000

abbrev pub day : ℕ
day = 86_400

abbrev pub limits_pair : Option Limits → ℤ × ℤ
limits_pair none = (default_daily_limit, default_weekly_limit)
limits_pair (some l) = (l.daily_limit, l.weekly_limit)

-- The `catch` falls through to the defaults.
unfoldable pub get_pair_limits : ℕ → ℕ → M (ℤ × ℤ)
get_pair_limits from_agent to_agent =
    catch (query (λ db. some (limits_pair (find_limits from_agent to_agent db.limits), db)))
      (default_daily_limit, default_weekly_limit)

-- `logAudit` never fails.
unfoldable pub log_audit : AuditEntry → M (Unit {0})
log_audit entry =
    catch (query (λ db. some (tt, record db { audit_logs = db.audit_logs ++ entry ∷ [] }))) tt

-- INSERT … ON CONFLICT (from_agent, to_agent) DO UPDATE
unfoldable pub upsert_limits : Limits → List Limits → List Limits
upsert_limits l [] = l ∷ []
upsert_limits l (k ∷ ks) =
    if k.from_agent == l.from_agent && k.to_agent == l.to_agent
    then l ∷ ks
    else k ∷ upsert_limits l ks

unfoldable pub set_pair_limits : Limits → ℕ → M Limits
set_pair_limits input updated_by = do
  throw_if (input.from_agent == input.to_agent) bad_request
  throw_if (leb_ℤ input.daily_limit (pos 0) || leb_ℤ input.weekly_limit (pos 0)) bad_request
  query (λ db. some (tt, record db { limits = upsert_limits input db.limits }))
  log_audit (record {
    actor = updated_by;
    action = limits_updated;
    target = pair input.from_agent input.to_agent;
    status = 200;
  })
  pure input

-- SELECT COALESCE(SUM(amount), 0) … AND created_at >= NOW() - INTERVAL
unfoldable pub total_since : ℕ → ℕ → ℕ → M ℤ
total_since from_agent to_agent interval w =
    query (λ db. some (pair_total from_agent to_agent (w.now - interval) db.transfers, db)) w

unfoldable pub check_limits : ℕ → ℕ → ℤ → M (Unit {0})
check_limits from_agent to_agent amount = do
  limits ← get_pair_limits from_agent to_agent
  daily_total ← total_since from_agent to_agent day
  throw_if (ltb_ℤ (limits.0) (daily_total +ℤ amount)) bad_request
  weekly_total ← total_since from_agent to_agent (7 * day)
  throw_if (ltb_ℤ (limits.1) (weekly_total +ℤ amount)) bad_request

abbrev pub is_some : {A : Type 0} → Option A → Bool
is_some none = false
is_some (some a) = true

-- The primary key refuses an id that is taken.
unfoldable pub insert_transfer : Transfer → M Transfer
insert_transfer t = query (λ db.
    if is_some (find_transfer t.id db.transfers)
    then none
    else some (t, record db { transfers = db.transfers ++ t ∷ [] }))

-- The foreign key wants the transfer, and UNIQUE(transfer_id, approver) refuses a second row.
unfoldable pub insert_approval : Approval → M Approval
insert_approval a = query (λ db.
    if is_some (find_transfer a.transfer_id db.transfers)
      && not (has_approval a.transfer_id a.approver db.approvals)
    then some (a, record db { approvals = db.approvals ++ a ∷ [] })
    else none)

pub record InitiateInput : Type 0 where
  pub from_agent : ℕ
  pub to_agent : ℕ
  pub amount : ℤ
  pub reason : Option ℕ
  pub created_by : ℕ
  pub user_role : Option UserRole

-- The row that `initiateTransfer` inserts.
abbrev pub new_transfer : ℕ → ℕ → InitiateInput → Transfer
new_transfer transfer_id now input = record {
  id = transfer_id;
  from_agent = input.from_agent;
  to_agent = input.to_agent;
  amount = input.amount;
  reason = input.reason;
  status = pending_approval;
  required_approvals = 2;
  approval_count = 1;
  created_by = input.created_by;
  created_at = now;
  error_message = none;
}

-- The part of `initiateTransfer` behind the guards; `transfer_id` is the generated id.
unfoldable pub store_transfer : ℕ → InitiateInput → M (Transfer × List Approval)
store_transfer transfer_id input w =
    let initial_role = if input.created_by == input.from_agent then initiator else admin in
    let run : M (Transfer × List Approval) = do
      t ← insert_transfer (new_transfer transfer_id w.now input)
      a ←
          insert_approval
            (record { transfer_id = transfer_id; approver = input.created_by; role = initial_role })
      log_audit (record {
        actor = input.created_by;
        action = initiated;
        target = transfer transfer_id;
        status = 201;
      })
      pure (t, a ∷ [])
    in run w

unfoldable pub initiate_transfer : ℕ → InitiateInput → M (Transfer × List Approval)
initiate_transfer transfer_id input = do
  throw_if (input.from_agent == input.to_agent) bad_request
  throw_if (leb_ℤ input.amount (pos 0)) bad_request
  throw_if (not (input.created_by == input.from_agent) && not (is_admin input.user_role)) forbidden
  check_limits input.from_agent input.to_agent input.amount
  store_transfer transfer_id input
