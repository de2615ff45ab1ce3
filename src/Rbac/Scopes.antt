-- ===== src/Rbac/Scopes.antt =====
-- What the roles of the wallets allow.
use dukapay.Base.{◌≡◌, refl, Bool, true, false, List, arith, if◌then◌else◌}
use dukapay.Base.Text.{Text, has_text}
use dukapay.Rbac.{
  UserRole, admin, super_admin, ops, support, agent, borrower, auditor, lender, Scope, admin_all,
  write_loans, write_pool, write_remittances, write_notifications, has_scope, role_scopes,
  resolve_scopes_for_role, parse_wallet_set, Wallets, resolve_role_for_wallet,
}

abbrev pub is_write : Scope → Bool
is_write write_loans = true
is_write write_pool = true
is_write write_remittances = true
is_write write_notifications = true
is_write _ = false

abbrev pub is_read_only : UserRole → Bool
is_read_only ops = true
is_read_only support = true
is_read_only auditor = true
is_read_only _ = false

no_write :
    (ss : List Scope)
    → has_scope write_loans ss ≡ false
    → has_scope write_pool ss ≡ false
    → has_scope write_remittances ss ≡ false
    → has_scope write_notifications ss ≡ false
    → (s : Scope) → is_write s ≡ true
    → has_scope s ss ≡ false
no_write ss a b c d write_loans w = a
no_write ss a b c d write_pool w = b
no_write ss a b c d write_remittances w = c
no_write ss a b c d write_notifications w = d
no_write ss a b c d s w = absurd (ground arith)

-- The scopes of operations, support and auditors hold neither a scope to write loans,
-- pools, remittances or notifications, nor `admin:all`.
pub resolve_scopes_for_role-read_only :
    (role : UserRole) (s : Scope)
    → is_read_only role ≡ true
    → is_write s ≡ true
    → (has_scope admin_all (resolve_scopes_for_role role) ≡ false)
      × (has_scope s (resolve_scopes_for_role role) ≡ false)
unfolding resolve_scopes_for_role role_scopes has_scope
resolve_scopes_for_role-read_only ops s r w =
    (refl, no_write (resolve_scopes_for_role ops) refl refl refl refl s w)
resolve_scopes_for_role-read_only support s r w =
    (refl, no_write (resolve_scopes_for_role support) refl refl refl refl s w)
resolve_scopes_for_role-read_only auditor s r w =
    (refl, no_write (resolve_scopes_for_role auditor) refl refl refl refl s w)
resolve_scopes_for_role-read_only role s r w = absurd (ground arith)

-- The variable that lists the wallets of a role; every wallet is a borrower's.
abbrev pub is_listed : Wallets → Text → UserRole → Bool
is_listed env key super_admin = has_text key (parse_wallet_set env.super_admin_wallets)
is_listed env key ops = has_text key (parse_wallet_set env.ops_wallets)
is_listed env key support = has_text key (parse_wallet_set env.support_wallets)
is_listed env key admin = has_text key (parse_wallet_set env.admin_wallets)
is_listed env key agent = has_text key (parse_wallet_set env.agent_wallets)
is_listed env key auditor = has_text key (parse_wallet_set env.auditor_wallets)
is_listed env key lender = has_text key (parse_wallet_set env.lender_wallets)
is_listed env key borrower = true

choose_listed :
    (env : Wallets) (key : Text) (c : Bool) (r rest : UserRole)
    → (c ≡ true → is_listed env key r ≡ true)
    → is_listed env key rest ≡ true
    → is_listed env key (if c then r else rest) ≡ true
choose_listed env key true r rest h k = h refl
choose_listed env key false r rest h k = k

-- A wallet gets a role above borrower only from the variable of that role.
pub resolve_role_for_wallet-listed :
    (env : Wallets) (key : Text) → is_listed env key (resolve_role_for_wallet env key) ≡ true
unfolding resolve_role_for_wallet
resolve_role_for_wallet-listed env key =
    choose_listed env key _ super_admin _ (λ e. e)
      (choose_listed env key _ ops _ (λ e. e)
        (choose_listed env key _ support _ (λ e. e)
          (choose_listed env key _ admin _ (λ e. e)
            (choose_listed env key _ agent _ (λ e. e)
              (choose_listed env key _ auditor _ (λ e. e)
                (choose_listed env key _ lender borrower (λ e. e) refl))))))
