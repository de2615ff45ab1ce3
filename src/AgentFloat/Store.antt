-- ===== src/AgentFloat/Store.antt =====
-- The tables of the float transfers (backend/migrations/1804000000000_agent-float-transfers.cjs and
-- `audit_logs`), the queries, and the monad of a method: state, exceptions, and queries that fail.
use dukapay.Base.{
  ℕ, Bool, true, false, ◌&&◌, ◌||◌, Option, none, some, List, [], ◌∷◌, leb, ◌==◌, if◌then◌else◌,
}
use dukapay.Base.Int.{ℤ, pos, ◌+ℤ◌}

-- 'FAILED' is written by `approveTransfer`, though `AgentFloatTransferRow` does not list it.
pub data Status : Type 0 where
  pending_approval completed rejected cancelled failed : Status

pub data ApproverRole : Type 0 where
  initiator recipient admin : ApproverRole

-- `userRole`: what the methods tell apart.
pub data UserRole : Type 0 where
  admin super_admin other_role : UserRole

abbrev pub is_admin : Option UserRole → Bool
is_admin (some UserRole.admin) = true
is_admin (some super_admin) = true
is_admin _ = false

abbrev pub is_plain_admin : Option UserRole → Bool
is_plain_admin (some UserRole.admin) = true
is_plain_admin _ = false

-- `error_message` is a column that `approveTransfer` names and no migration makes: it stays `none` in a
-- table without it.
pub record Transfer : Type 0 where
  pub id : ℕ
  pub from_agent : ℕ
  pub to_agent : ℕ
  pub amount : ℤ
  pub reason : Option ℕ
  pub status : Status
  pub required_approvals : ℕ
  pub approval_count : ℕ
  pub created_by : ℕ
  pub created_at : ℕ
  pub error_message : Option ℕ

pub record Approval : Type 0 where
  pub transfer_id : ℕ
  pub approver : ℕ
  pub role : ApproverRole

pub record Limits : Type 0 where
  pub from_agent : ℕ
  pub to_agent : ℕ
  pub daily_limit : ℤ
  pub weekly_limit : ℤ

pub data Action : Type 0 where
  limits_updated initiated approved executed rejection : Action

pub data Target : Type 0 where
  transfer : ℕ → Target
  pair : ℕ → ℕ → Target

pub record AuditEntry : Type 0 where
  pub actor : ℕ
  pub action : Action
  pub target : Target
  pub status : ℕ

-- `has_error_message` says whether `agent_float_transfers` has the column `error_message`; in
-- backend/migrations it has not.
pub record Db : Type 0 where
  pub has_error_message : Bool
  pub transfers : List Transfer
  pub approvals : List Approval
  pub limits : List Limits
  pub audit_logs : List AuditEntry

-- `faults` says of each coming query whether it fails; `now` is the database's clock, in seconds.
pub record World : Type 0 where
  pub db : Db
  pub faults : List Bool
  pub now : ℕ

pub data Error : Type 0 where
  bad_request forbidden not_found db_error : Error

pub data Result (A : Type 0) : Type 0 where
  ok : A → Result A
  err : Error → Result A

abbrev pub M : Type 0 → Type 0
M A = World → Result A × World

module _ {A : Type 0} where
  abbrev pub pure : A → M A
  pure a w = (ok a, w)

  abbrev pub throw : Error → M A
  throw e w = (err e, w)

  -- What the database answers: a value with the new tables, or a violated constraint.
  abbrev pub answer : Option (A × Db) → World → Result A × World
  answer none w = (err db_error, w)
  answer (some (a, db)) w = (ok a, record w { db = db })

  abbrev pub answer_or_fault : Bool → (Db → Option (A × Db)) → World → Result A × World
  answer_or_fault true f w = (err db_error, w)
  answer_or_fault false f w = answer (f w.db) w

  abbrev pub query_with : List Bool → (Db → Option (A × Db)) → World → Result A × World
  query_with [] f w = answer (f w.db) w
  query_with (fault ∷ faults) f w = answer_or_fault fault f (record w { faults = faults })

  -- One `await query(…)`.
  unfoldable pub query : (Db → Option (A × Db)) → M A
  query f w = query_with w.faults f w

  abbrev pub caught : A → Result A × World → Result A × World
  caught a (ok b, w) = (ok b, w)
  caught a (err e, w) = (ok a, w)

  -- `try { … } catch { }` with a value for the failed case.
  unfoldable pub catch : M A → A → M A
  catch m a w = caught a (m w)

infixl 5 ◌>>=◌ ◌>>◌
abbrev pub bind_result : {A B : Type 0} → Result A × World → (A → M B) → Result B × World
bind_result (ok a, w) f = f a w
bind_result (err e, w) f = (err e, w)

unfoldable pub ◌>>=◌ : {A B : Type 0} → M A → (A → M B) → M B
◌>>=◌ m f w = bind_result (m w) f

unfoldable pub ◌>>◌ : {B : Type 0} → M (Unit {0}) → M B → M B
◌>>◌ m k w = bind_result (m w) (λ _. k)

unfoldable pub throw_if : Bool → Error → M (Unit {0})
throw_if true e = throw e
throw_if false e = pure tt

abbrev pub read_now : M ℕ
read_now w = (ok w.now, w)

-- SELECT * FROM agent_float_transfers WHERE id = $1
unfoldable pub find_transfer : ℕ → List Transfer → Option Transfer
find_transfer id [] = none
find_transfer id (t ∷ ts) = if t.id == id then some t else find_transfer id ts

-- SELECT * FROM agent_float_transfer_approvals WHERE transfer_id = $1
unfoldable pub approvals_of : ℕ → List Approval → List Approval
approvals_of id [] = []
approvals_of id (a ∷ as') =
    let rest = approvals_of id as' in if a.transfer_id == id then a ∷ rest else rest

unfoldable pub has_approval : ℕ → ℕ → List Approval → Bool
has_approval id approver [] = false
has_approval id approver (a ∷ as') =
    (a.transfer_id == id && a.approver == approver) || has_approval id approver as'

unfoldable pub find_limits : ℕ → ℕ → List Limits → Option Limits
find_limits from_agent to_agent [] = none
find_limits from_agent to_agent (l ∷ ls) =
    if l.from_agent == from_agent && l.to_agent == to_agent
    then some l
    else find_limits from_agent to_agent ls

-- status IN ('PENDING_APPROVAL', 'COMPLETED')
abbrev pub counts : Status → Bool
counts pending_approval = true
counts completed = true
counts _ = false

-- SELECT COALESCE(SUM(amount), 0) … AND created_at >= NOW() - INTERVAL
unfoldable pub pair_total : ℕ → ℕ → ℕ → List Transfer → ℤ
pair_total from_agent to_agent since [] = pos 0
pair_total from_agent to_agent since (t ∷ ts) =
    let rest = pair_total from_agent to_agent since ts in
    if t.from_agent == from_agent
      && t.to_agent == to_agent
      && counts t.status
      && leb since t.created_at
    then t.amount +ℤ rest
    else rest

-- UPDATE agent_float_transfers SET … WHERE id = $1
unfoldable pub update_transfer : ℕ → (Transfer → Transfer) → List Transfer → List Transfer
update_transfer id f [] = []
update_transfer id f (t ∷ ts) = (if t.id == id then f t else t) ∷ update_transfer id f ts
