-- ===== src/Rbac/Tests.antt =====
-- An agent that reaches the wallet of a borrower whom the table assigns to it.
use dukapay.Base.{◌≡◌, refl, Option, none, some, List, [], ◌∷◌}
use dukapay.Base.Text.{Text, same_text, has_text, split_on, trim}
use dukapay.Rbac.{agent, parse_wallet_set, trimmed, Wallets}
use dukapay.Rbac.Gates.{
  User, Request, require_user, assigned_to, enrich_assigned_borrowers, resolve_requested_wallet,
  can_access_wallet, require_tenant_access,
}
use dukapay.Rbac.Tenant.{IsAllowed, require_tenant_access-IsAllowed}

abbrev key : Text
key = 71 ∷ 49 ∷ []

abbrev client : Text
client = 71 ∷ 50 ∷ []

abbrev someone : User
someone = record { public_key = key; role = agent; scopes = none; assigned_borrowers = none }

abbrev asks : User → Request
asks u = record {
  user = some u;
  params_borrower = some client;
  params_wallet = none;
  params_user_id = none;
  params_wallet_address = none;
  params_address = none;
  params_agent_address = none;
  body_wallet = none;
  body_borrower_public_key = none;
  body_public_key = none;
  query_borrower = none;
  query_wallet = none;
}

abbrev rows : Option (List (Text × Text))
rows = some ((key, client) ∷ [])

abbrev known : User
known = record {
  public_key = key;
  role = agent;
  scopes = none;
  assigned_borrowers = some (client ∷ []);
}

require_tenant_access-IsAllowed_example : IsAllowed rows (asks someone)
unfolding require_tenant_access require_user resolve_requested_wallet enrich_assigned_borrowers
    assigned_to can_access_wallet same_text has_text
require_tenant_access-IsAllowed_example =
    require_tenant_access-IsAllowed rows (asks someone) (asks known) refl

-- " G1 ,,G2" lists two wallets.
abbrev env : Wallets
env = record {
  super_admin_wallets = none;
  ops_wallets = none;
  support_wallets = some [];
  admin_wallets = none;
  agent_wallets = some (32 ∷ 71 ∷ 49 ∷ 32 ∷ 44 ∷ 44 ∷ 71 ∷ 50 ∷ []);
  auditor_wallets = none;
  lender_wallets = some (71 ∷ 49 ∷ []);
}

two_wallets : parse_wallet_set env.agent_wallets ≡ key ∷ client ∷ []
unfolding parse_wallet_set split_on trim trimmed
two_wallets = refl

-- Loan 9 is the agent's own.
abbrev loans : Option (List (Text × Text))
loans = some ((57 ∷ [], key) ∷ [])
