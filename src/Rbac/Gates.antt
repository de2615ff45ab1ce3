-- ===== src/Rbac/Gates.antt =====
-- The gates of backend/src/middleware/rbac.ts. A gate passes the request on, with what it has changed of
-- the user, or throws.
use dukapay.Base.{
  ℕ, Bool, true, false, ◌&&◌, ◌||◌, Option, none, some, List, [], ◌∷◌, ◌==◌, if◌then◌else◌,
}
use dukapay.Base.Text.{Text, same_text, has_text}
use dukapay.Rbac.{
  UserRole, admin, super_admin, ops, support, agent, borrower, auditor, lender, Scope, admin_all,
  has_scope, is_role_at_least,
}

-- `req.user`, as the token gives it.
pub record User : Type 0 where
  pub public_key : Text
  pub role : UserRole
  pub scopes : Option (List Scope)
  pub assigned_borrowers : Option (List Text)

-- The fields of `params`, `body` and `query` that may name a wallet.
pub record Request : Type 0 where
  pub user : Option User
  pub params_borrower : Option Text
  pub params_wallet : Option Text
  pub params_user_id : Option Text
  pub params_wallet_address : Option Text
  pub params_address : Option Text
  pub params_agent_address : Option Text
  pub body_wallet : Option Text
  pub body_borrower_public_key : Option Text
  pub body_public_key : Option Text
  pub query_borrower : Option Text
  pub query_wallet : Option Text

pub data Refusal : Type 0 where
  unauthorized forbidden bad_request : Refusal

pub data Gate (A : Type 0) : Type 0 where
  passed : A → Gate A
  refused : Refusal → Gate A

infixl 5 ◌>>=◌
abbrev pub ◌>>=◌ : {A B : Type 0} → Gate A → (A → Gate B) → Gate B
passed a >>= f = f a
refused r >>= f = refused r

abbrev pub guard : {A : Type 0} → Bool → A → Gate A
guard true a = passed a
guard false a = refused forbidden

abbrev pub with_key : Text → User → Gate User
with_key [] u = refused unauthorized
with_key (c ∷ cs) u = passed u

abbrev pub authenticated : Option User → Gate User
authenticated none = refused unauthorized
authenticated (some u) = with_key u.public_key u

unfoldable pub require_user : Request → Gate User
require_user req = authenticated req.user

abbrev pub role_code : UserRole → ℕ
role_code admin = 0
role_code super_admin = 1
role_code ops = 2
role_code support = 3
role_code agent = 4
role_code borrower = 5
role_code auditor = 6
role_code lender = 7

abbrev pub same_role : UserRole → UserRole → Bool
same_role a b = role_code a == role_code b

unfoldable pub has_role : UserRole → List UserRole → Bool
has_role r [] = false
has_role r (k ∷ ks) = same_role k r || has_role r ks

unfoldable pub require_role : List UserRole → Request → Gate Request
require_role roles req = require_user req >>= λ u. guard (has_role u.role roles) req

abbrev pub or_no_scopes : Option (List Scope) → List Scope
or_no_scopes none = []
or_no_scopes (some ss) = ss

unfoldable pub all_granted : List Scope → List Scope → Bool
all_granted [] granted = true
all_granted (s ∷ ss) granted = has_scope s granted && all_granted ss granted

unfoldable pub require_scopes : List Scope → Request → Gate Request
require_scopes required req = require_user req >>= λ u.
    let granted = or_no_scopes u.scopes in
    guard (has_scope admin_all granted || all_granted required granted) req

unfoldable pub require_role_at_least : UserRole → Request → Gate Request
require_role_at_least minimum req =
    require_user req >>= λ u. guard (is_role_at_least (some u.role) minimum) req

abbrev pub or_no_borrowers : Option (List Text) → List Text
or_no_borrowers none = []
or_no_borrowers (some ts) = ts

abbrev pub is_overseer : UserRole → Bool
is_overseer admin = true
is_overseer auditor = true
is_overseer _ = false

abbrev pub is_agent : UserRole → Bool
is_agent agent = true
is_agent lender = true
is_agent _ = false

abbrev pub can_access : User → Text → Bool
can_access u target =
    is_overseer u.role
    || (same_text u.public_key target
        || (is_agent u.role && has_text target (or_no_borrowers u.assigned_borrowers)))

unfoldable pub can_access_wallet : User → Option Text → Bool
can_access_wallet u none = false
can_access_wallet u (some []) = false
can_access_wallet u (some (c ∷ cs)) = can_access u (c ∷ cs)

-- The rows of `agent_assignments`: agent and borrower.
unfoldable pub assigned_to : Text → List (Text × Text) → List Text
assigned_to key [] = []
assigned_to key ((a, b) ∷ rows) =
    let rest = assigned_to key rows in if same_text a key then b ∷ rest else rest

-- The query's answer, `none` where it fails.
abbrev pub enriched : Option (List (Text × Text)) → User → User
enriched none u = u
enriched (some rows) u = record u { assigned_borrowers = some (assigned_to u.public_key rows) }

abbrev pub lacks_claim : Option (List Text) → Bool
lacks_claim none = true
lacks_claim (some []) = true
lacks_claim (some (t ∷ ts)) = false

unfoldable pub enrich_assigned_borrowers : Option (List (Text × Text)) → User → User
enrich_assigned_borrowers rows u =
    if is_agent u.role && lacks_claim u.assigned_borrowers then enriched rows u else u

infixr 20 ◌or_else◌
abbrev pub ◌or_else◌ : Option Text → Option Text → Option Text
none or_else t = t
some s or_else t = some s

unfoldable pub resolve_requested_wallet : Request → Option Text
resolve_requested_wallet req =
    req.params_borrower or_else req.params_wallet or_else req.params_user_id
    or_else req.params_wallet_address or_else req.params_address or_else req.params_agent_address
    or_else req.body_wallet or_else req.body_borrower_public_key or_else req.body_public_key
    or_else req.query_borrower or_else req.query_wallet

-- 'Wallet address is required': an empty text is missing too.
abbrev pub require_target : Option Text → Gate Text
require_target none = refused bad_request
require_target (some []) = refused bad_request
require_target (some (c ∷ cs)) = passed (c ∷ cs)

abbrev pub grant : Text → User → Request → Gate Request
grant target u req = guard (can_access_wallet u (some target)) (record req { user = some u })

-- `rows` is the answer of the assignment query.
unfoldable pub require_tenant_access : Option (List (Text × Text)) → Request → Gate Request
require_tenant_access rows req = require_user req >>= λ u.
    require_target (resolve_requested_wallet req) >>= λ target.
    grant target (enrich_assigned_borrowers rows u) req

abbrev pub unless_auditor : UserRole → Gate Request → Gate Request
unless_auditor auditor g = refused forbidden
unless_auditor _ g = g

unfoldable pub require_write_tenant_access : Option (List (Text × Text)) → Request → Gate Request
require_write_tenant_access rows req =
    require_user req >>= λ u. unless_auditor u.role (require_tenant_access rows req)

unfoldable pub require_assigned_borrower_access :
    Option (List (Text × Text)) → Request → Gate Request
require_assigned_borrower_access rows req = require_user req >>= λ u.
    require_target (resolve_requested_wallet req) >>= λ target.
    if is_overseer u.role then passed req else grant target (enrich_assigned_borrowers rows u) req

abbrev pub require_audit_access : Request → Gate Request
require_audit_access = require_role (admin ∷ auditor ∷ [])

abbrev pub require_admin : Request → Gate Request
require_admin = require_role (admin ∷ [])

abbrev pub require_agent : Request → Gate Request
require_agent = require_role (agent ∷ lender ∷ admin ∷ [])

abbrev pub require_borrower : Request → Gate Request
require_borrower = require_role (borrower ∷ admin ∷ [])
