-- ===== src/Rbac.antt =====
-- Roles and scopes: backend/src/auth/rbac.ts.
use dukapay.Base.{
  ℕ, ◌+◌, Bool, true, false, not, ◌&&◌, ◌||◌, Option, none, some, List, [], ◌∷◌, ◌++◌, leb, ltb,
  ◌==◌, if◌then◌else◌,
}
use dukapay.Base.Text.{Text, has_text, split_on, trim}
pub mod Gates
pub mod Tenant
pub mod Scopes
pub mod Loans
mod Tests

pub data UserRole : Type 0 where
  admin super_admin ops support agent borrower auditor lender : UserRole

-- The scopes of `ROLE_SCOPES`, and any other text that a token or a route names.
pub data Scope : Type 0 where
  admin_all read_loans write_loans read_pool write_pool read_score read_remittances
        write_remittances :
      Scope
  read_notifications write_notifications agents_view_assigned read_audit read_compliance : Scope
  other : ℕ → Scope

abbrev pub scope_code : Scope → ℕ
scope_code admin_all = 0
scope_code read_loans = 1
scope_code write_loans = 2
scope_code read_pool = 3
scope_code write_pool = 4
scope_code read_score = 5
scope_code read_remittances = 6
scope_code write_remittances = 7
scope_code read_notifications = 8
scope_code write_notifications = 9
scope_code agents_view_assigned = 10
scope_code read_audit = 11
scope_code read_compliance = 12
scope_code (other n) = 13 + n

abbrev pub same_scope : Scope → Scope → Bool
same_scope a b = scope_code a == scope_code b

unfoldable pub has_scope : Scope → List Scope → Bool
has_scope s [] = false
has_scope s (k ∷ ks) = same_scope k s || has_scope s ks

unfoldable pub role_scopes : UserRole → List Scope
role_scopes admin = admin_all ∷ []
role_scopes super_admin = admin_all ∷ []
role_scopes ops = read_loans ∷ read_pool ∷ read_score ∷ read_remittances ∷ read_notifications ∷ []
role_scopes support = read_loans ∷ read_score ∷ read_remittances ∷ read_notifications ∷ []
role_scopes agent =
    read_loans ∷ write_loans ∷ read_pool ∷ write_pool ∷ read_score ∷ read_notifications
    ∷ write_notifications ∷ read_remittances ∷ write_remittances ∷ agents_view_assigned ∷ []
role_scopes borrower =
    read_loans ∷ write_loans ∷ read_score ∷ read_notifications ∷ write_notifications
    ∷ read_remittances ∷ write_remittances ∷ []
role_scopes auditor =
    read_audit ∷ read_compliance ∷ read_loans ∷ read_score ∷ read_notifications ∷ read_remittances
    ∷ read_pool ∷ []
role_scopes lender = read_loans ∷ read_pool ∷ write_loans ∷ write_pool ∷ []

unfoldable pub role_hierarchy : UserRole → ℕ
role_hierarchy admin = 4
role_hierarchy super_admin = 4
role_hierarchy ops = 2
role_hierarchy support = 2
role_hierarchy agent = 3
role_hierarchy auditor = 2
role_hierarchy lender = 3
role_hierarchy borrower = 1

abbrev pub comma : ℕ
comma = 44

abbrev pub keep_text : Text → List Text → List Text
keep_text [] ts = ts
keep_text (c ∷ cs) ts = (c ∷ cs) ∷ ts

unfoldable pub trimmed : List Text → List Text
trimmed [] = []
trimmed (t ∷ ts) = keep_text (trim t) (trimmed ts)

-- `parseWalletSet`; a variable that is not set or empty gives no wallet.
unfoldable pub parse_wallet_set : Option Text → List Text
parse_wallet_set none = []
parse_wallet_set (some []) = []
parse_wallet_set (some (c ∷ cs)) = trimmed (split_on comma (c ∷ cs))

-- The environment variables.
pub record Wallets : Type 0 where
  pub super_admin_wallets : Option Text
  pub ops_wallets : Option Text
  pub support_wallets : Option Text
  pub admin_wallets : Option Text
  pub agent_wallets : Option Text
  pub auditor_wallets : Option Text
  pub lender_wallets : Option Text

unfoldable pub resolve_role_for_wallet : Wallets → Text → UserRole
resolve_role_for_wallet env key =
    if has_text key (parse_wallet_set env.super_admin_wallets)
    then super_admin
    else (if has_text key (parse_wallet_set env.ops_wallets)
        then ops
        else (if has_text key (parse_wallet_set env.support_wallets)
            then support
            else (if has_text key (parse_wallet_set env.admin_wallets)
                then admin
                else (if has_text key (parse_wallet_set env.agent_wallets)
                    then agent
                    else (if has_text key (parse_wallet_set env.auditor_wallets)
                        then auditor
                        else (if has_text key (parse_wallet_set env.lender_wallets)
                            then lender
                            else borrower))))))

unfoldable pub resolve_scopes_for_role : UserRole → List Scope
unfolding role_scopes
resolve_scopes_for_role role = role_scopes role

unfoldable pub is_role_at_least : Option UserRole → UserRole → Bool
is_role_at_least none minimum = false
is_role_at_least (some role) minimum = leb (role_hierarchy minimum) (role_hierarchy role)
